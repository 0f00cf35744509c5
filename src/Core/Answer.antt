-- ===== src/Core/Answer.antt =====
-- The switch of kssl_operate: what the server answers to a request.
use keyless.Prelude.{
  ℕ, ◌%◌, ◌<◌, ◌≡◌, sym, ◌∙◌, arith, Option, none, some, List, Bool, true, false, ◌==◌, ==_iff,
  Bool-cases, Option-cases, length, inl, inr, ◌⊎◌,
}
use keyless.Protocol.{
  ErrorCode, no_error, crypto_failed, key_not_found, bad_opcode, unexpected_opcode, format,
  internal, ski_size, digest_size,
}
use keyless.Protocol.Op
use keyless.Protocol.Codes.{has_code, key_codes}
use keyless.Wire.{load}
use keyless.KeyStore.{KeyStore, KeyStoreLaws}
use keyless.Message.{Operation, zero_operation}
use keyless.Message.Bytes.{RequestBytes}
use keyless.Message.Flatten.{field-true}
use keyless.Message.Request.{Request, Shows, no_request, has}
use keyless.Core.{
  refused, response_with, is_reply, is_key_operation, find_key, respond, use_key, answer,
}
use keyless.Core.Reacts.{
  Answered, Finds, by_ski, by_digest, is_reply_lem, is_key_operation_lem, unexpected, pong, unnamed,
  unknown_key, no_memory, failed, operated, unknown_opcode, sent_payload, zero-Shows,
  response-Shows, load-sent_payload, field-Readable, field-unset,
}

-- The parts of the switch that a key operation passes through.
module _ (ks : KeyStore) (malloc_ok : Bool) (op : Operation) where
  answer_by_key :
      (p : ErrorCode × Option ℕ)
      → is_reply op.opcode ≡ false
      → (op.opcode == Op.ping) ≡ false
      → is_key_operation op.opcode ≡ true
      → find_key ks op ≡ some p
      → answer ks malloc_ok op ≡ use_key ks malloc_ok op p
  unfolding answer
  answer_by_key p n1 n2 y f = rw (n1, n2, y, f)

  use_key_no_memory :
      (e : ErrorCode) (k room : ℕ)
      → ks.size k ≡ some room
      → malloc_ok ≡ false
      → use_key ks malloc_ok op (e, some k) ≡ refused internal
  unfolding use_key
  use_key_no_memory e k room h missing = rw (h, missing)

  use_key_runs :
      (e : ErrorCode) (k room : ℕ) (result : ErrorCode × List ℕ)
      → ks.size k ≡ some room
      → malloc_ok ≡ true
      → ks.operation k op.opcode op.payload_len op.payload room ≡ some result
      → use_key ks malloc_ok op (e, some k) ≡ respond result
  unfolding use_key
  use_key_runs e k room result h ok run = rw (h, ok, run)

module _ (ks : KeyStore) (laws : KeyStoreLaws ks) (malloc_ok : Bool) (op : Operation) (r : Request)
    (s : Shows op r) (w : RequestBytes r) where
  -- What find_key gives, if the request names a key.
  record Found : Type 0 where
    key : Option ℕ
    result : find_key ks op ≡ some (key_not_found, key)
    finds : Finds ks op r key
    in_use : (k : ℕ) → key ≡ some k → k < ks.count

  find_key_lem :
      Found ⊎ ((find_key ks op ≡ some (format, none)) × (r.ski ≡ none) × (r.digest ≡ none))
  unfolding find_key
  find_key_lem = elim (Bool-cases op.is_ski_set) [
    | inl y ↦
        let (k, e, u) =
          laws.find_total op.ski none (field-Readable op.ski ski_size r.ski (rw y at s.ski) w.ski)
            tt in
        let (d, _, is) = field-true op.ski ski_size r.ski (rw y at s.ski) in
        inl (record { key = k; result = rw (y, e); finds = by_ski d is e; in_use = u })
    | inr n ↦ elim (Bool-cases op.is_digest_set) [
      | inl y ↦
          let (k, e, u) =
            laws.find_total none op.digest tt
              (field-Readable op.digest digest_size r.digest (rw y at s.digest) w.digest) in
          let (d, _, is) = field-true op.digest digest_size r.digest (rw y at s.digest) in
          let no_ski = field-unset op.ski ski_size r.ski (rw n at s.ski) in
          inl
            (record { key = k; result = rw (n, y, e); finds = by_digest d no_ski is e; in_use = u })
      | inr n' ↦ inr (
        rw (n, n'),
        field-unset op.ski ski_size r.ski (rw n at s.ski),
        field-unset op.digest digest_size r.digest (rw n' at s.digest),
      )
    ]
  ]

  -- The payload of a complete request can be read.
  payload_loads :
      has r.payload ≡ true
      → (m : List ℕ) × (load op.payload op.payload_len ≡ some m) × (r.payload ≡ some m)
  payload_loads h = elim (Bool-cases op.is_payload_set) [
    | inl y ↦ field-true op.payload op.payload_len r.payload (rw y at s.payload)
    | inr n ↦
        let e : r.payload ≡ none =
          field-unset op.payload op.payload_len r.payload (rw n at s.payload) in
        absurd (no_payload (rw e at h))
  ]
    where
      no_payload : false ≡ true → ⊥
      no_payload h = cc

  -- The operation with a key in use.
  Answered-by_key :
      (k : ℕ)
      → has r.payload ≡ true
      → is_reply op.opcode ≡ false
      → (op.opcode == Op.ping) ≡ false
      → is_key_operation op.opcode ≡ true
      → find_key ks op ≡ some (key_not_found, some k)
      → Finds ks op r (some k)
      → k < ks.count
      → Answered ks malloc_ok op r
  unfolding respond
  Answered-by_key k hp n1 n2 y f g u =
      let (m, hm, _) = payload_loads hp in
      let known : has_code key_codes op.opcode ≡ true = sym (is_key_operation_lem op.opcode) ∙ y in
      let (room, hr) = laws.size_total k u in
      let (e, out, run, q) =
        laws.operation_total k op.opcode op.payload_len room op.payload m u hr hm in
      let start = answer_by_key ks malloc_ok op (key_not_found, some k) n1 n2 y f in
      elim (Bool-cases malloc_ok) [
        | inr missing ↦ record {
          code = internal;
          response = zero_operation;
          result = start ∙ use_key_no_memory ks malloc_ok op key_not_found k room hr missing;
          shown = no_request;
          shows = zero-Shows;
          reacts = no_memory k known g missing;
        }
        | inl ok ↦
            let result =
              start ∙ use_key_runs ks malloc_ok op key_not_found k room (e, out) hr ok run in
            elim q.code [
              | inl good ↦ record {
                code = no_error;
                response = response_with Op.response (length out % 65536) (some out);
                result = rw good at result;
                shown = record no_request {
                  opcode = some Op.response;
                  payload = some (sent_payload out);
                };
                shows =
                    response-Shows Op.response (length out % 65536) (some out) (sent_payload out)
                      (load-sent_payload out);
                reacts = operated k room out known g hr q.fits (rw good at run);
              }
              | inr bad ↦ record {
                code = crypto_failed;
                response = zero_operation;
                result = rw bad at result;
                shown = no_request;
                shows = zero-Shows;
                reacts = failed k room out known g (rw bad at run);
              }
            ]
      ]

  -- For every request that the parser accepts, over a key store that keeps its laws, the switch of
  -- kssl_operate runs to its end. The code and the response are those of the protocol: refusal of
  -- a response opcode, pong with the same payload, the result of the key's operation, or the error
  -- for what is missing.
  pub answer-Answered : has r.payload ≡ true → Answered ks malloc_ok op r
  unfolding answer
  answer-Answered hp = elim (Bool-cases (is_reply op.opcode)) [
    | inl y ↦ record {
      code = unexpected_opcode;
      response = zero_operation;
      result = rw y;
      shown = no_request;
      shows = zero-Shows;
      reacts = unexpected (sym (is_reply_lem op.opcode) ∙ y);
    }
    | inr n1 ↦ elim (Bool-cases (op.opcode == Op.ping)) [
      | inl y ↦
          let (m, hm, e) = payload_loads hp in
          record {
            code = no_error;
            response = response_with Op.pong op.payload_len op.payload;
            result = rw (n1, y);
            shown = record no_request { opcode = some Op.pong; payload = r.payload };
            shows = rw e (response-Shows Op.pong op.payload_len op.payload m hm);
            reacts = pong ((==_iff op.opcode Op.ping).0 y);
          }
      | inr n2 ↦ elim (Bool-cases (is_key_operation op.opcode)) [
        | inr n3 ↦ record {
          code = bad_opcode;
          response = zero_operation;
          result = rw (n1, n2, n3);
          shown = no_request;
          shows = zero-Shows;
          reacts =
              unknown_opcode (sym (is_reply_lem op.opcode) ∙ n1) (ground arith)
                (sym (is_key_operation_lem op.opcode) ∙ n3);
        }
        | inl y ↦ elim find_key_lem [
          | inr (f, e1, e2) ↦ record {
            code = format;
            response = zero_operation;
            result = answer_by_key ks malloc_ok op (format, none) n1 n2 y f;
            shown = no_request;
            shows = zero-Shows;
            reacts = unnamed (sym (is_key_operation_lem op.opcode) ∙ y) e1 e2;
          }
          | inl found ↦ elim (Option-cases found.key) [
            | inl missing ↦
                let f = rw missing at found.result in
                let g = rw missing at found.finds in
                record {
                  code = key_not_found;
                  response = zero_operation;
                  result = answer_by_key ks malloc_ok op (key_not_found, none) n1 n2 y f;
                  shown = no_request;
                  shows = zero-Shows;
                  reacts = unknown_key (sym (is_key_operation_lem op.opcode) ∙ y) g;
                }
            | inr (k, is) ↦
                Answered-by_key k hp n1 n2 y (rw is at found.result) (rw is at found.finds)
                  (found.in_use k is)
          ]
        ]
      ]
    ]
  ]
