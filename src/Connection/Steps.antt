-- ===== src/Connection/Steps.antt =====
-- One turn of the loop of do_ssl.
use keyless.Prelude.{
  ℕ, ◌≤◌, ◌<◌, ◌≡◌, ◌≢◌, inl, inr, refl, sym, ap, ◌∙◌, arith, none, some, List, [], ◌∷◌, ◌++◌,
  false, length, All, append-nil, ==_iff, ltb, ltb→lt, ltb→le, Bool-cases, ◌==◌, take-all,
}
use mathlib.Core.Path.{subst}
use keyless.Protocol.{Pointer, Header, IsByte, version_mismatch, internal, header_size, version_maj}
use keyless.Wire.Encoding.{encode_header}
use keyless.ConnectionState.{Connection, set_get_payload_state, at_start, reset, nowhere}
use keyless.Connection.{
  Surroundings, World, again, Message, payload_ready, header_known, header_read, header_parsed,
  message_read,
}
use keyless.Queue.Fuel.{drain-Drains}
use keyless.Connection.Spec.{
  SurroundingsLaws, IsQueue, IsHeader, InHeader, InPayload, reading_payload,
}
use keyless.Connection.Bytes.{parse_header-Parsed}
use keyless.Connection.Line.{line_of, nothing, queue_answer-Enqueues}
use keyless.Connection.Turns.{
  continues, Goes, other_version, no_payload, no_memory, refuse-Goes, give_up-After, ready_again,
}

pub All-join {ℓ κ} :
    {A : Type ℓ} (P : A → Type κ) (xs ys : List A) → All P xs → All P ys → All P (xs ++ ys)
All-join P [] ys hx hy = hy
All-join P (x ∷ xs) ys hx hy = (hx.0, All-join P xs ys hx.1 hy)

ne_of_test : (a b : ℕ) → (a == b) ≡ false → a ≢ b
ne_of_test a b n e = cc (n, (==_iff a b).1 e)

module _ (env : Surroundings) (laws : SurroundingsLaws env) where
  open env use {Ssl}
  open laws use {unread}

  module _ (input : List ℕ) (left fuel : ℕ) (w : World env) (q : IsQueue w.connection.queue)
      (s : length w.connection.wire_header ≡ header_size) (fits : IsHeader w.connection.header)
      (split : input ≡ encode_header w.connection.header ++ unread w.ssl)
      (less : length (unread w.ssl) < left) (enough : left ≤ fuel) where
    abbrev h : Header
    h = w.connection.header

    -- The payload that a header announces is the next to be read, if there is memory for it.
    payload_ready-Goes :
        (m : Pointer)
        → h.version_maj ≡ version_maj
        → 0 < h.length
        → env.malloc w.turn h.length ≡ m
        → Goes env laws input left w.handled
            (line_of w.sent q)
            (payload_ready env fuel w (set_get_payload_state m h.length w.connection))
    unfolding payload_ready set_get_payload_state
    payload_ready-Goes none y l e =
        refuse-Goes env laws input left
          (record w { connection = record w.connection { payload = none } }) (no_memory w.turn e) q
          s split fuel internal (omega arith) refl
    payload_ready-Goes (some p) y l e = record {
      turn =
          again
            (record w { connection = (set_get_payload_state (some p) h.length w.connection).1 });
      result = refl;
      after =
          continues (encode_header h) []
            (record {
              queue = q;
              reading = reading_payload (record {
                phase = refl;
                start = refl;
                place = refl;
                sized = s;
                memory = p;
                is = refl;
                room = laws.allocates w.turn h.length p e;
                offset = refl;
                written = refl;
                need = omega arith;
                bytes = tt;
                fits = fits;
                version = y;
                some_length = l;
              });
              more = l;
            })
            tt (sym (append-nil w.handled)) split less nothing;
    }

    header_known-Goes :
        Goes env laws input left w.handled (line_of w.sent q) (header_known env fuel h w)
    unfolding header_known
    header_known-Goes = elim (Bool-cases (h.version_maj == version_maj)) [
      | inr n ↦
          rw (n, header_known)
            (refuse-Goes env laws input left w
              (other_version (ne_of_test h.version_maj version_maj n)) q s split fuel
              version_mismatch (omega arith) refl)
      | inl y ↦ elim (Bool-cases (ltb 0 h.length)) [
        | inr n ↦
            rw (y, header_known)
              (rw (n, header_known)
                (record {
                  turn = _;
                  result = refl;
                  after =
                      give_up-After env laws input left w
                        (no_payload (omega (arith, ltb→le 0 h.length n))) q s split refl;
                }))
        | inl l ↦
            rw (y, header_known)
              (rw (l, header_known)
                (payload_ready-Goes (env.malloc w.turn h.length)
                  ((==_iff h.version_maj version_maj).0 y) (ltb→lt 0 h.length l) refl))
      ]
    ]

  module _ (input : List ℕ) (left fuel : ℕ) (w : World env) (q : IsQueue w.connection.queue)
      (read : List ℕ) (less : length (unread w.ssl) < left) (enough : left ≤ fuel)
      (ended : w.connection.need ≡ 0) where
    pub header_read-Goes :
        InHeader w.connection read
        → input ≡ read ++ unread w.ssl
        → Goes env laws input left w.handled (line_of w.sent q) (header_read env fuel w)
    unfolding header_read header_parsed
    header_read-Goes i split =
        let c : Connection = w.connection in
        let same : c.wire_header ≡ read =
          sym (take-all c.offset c.wire_header (omega (arith, i.need, i.sized))) ∙ i.written in
        let p =
          parse_header-Parsed c.wire_header c.header i.sized
            (subst (All IsByte) (sym same) i.bytes) in
        rw (p.result) (
          header_known-Goes input left fuel
            (record w { connection = record c { header = p.header; start = nowhere } }) q i.sized
            p.fits (split ∙ ap (λ t. t ++ unread w.ssl) (sym same ∙ sym p.same)) less enough)

    pub message_read-Goes :
        InPayload w.connection read
        → input ≡ (encode_header w.connection.header ++ read) ++ unread w.ssl
        → Goes env laws input left w.handled (line_of w.sent q) (message_read env w)
    unfolding message_read at_start ready_again
    message_read-Goes i split =
        let c : Connection = w.connection in
        let same : i.memory ≡ read =
          sym (take-all c.offset i.memory (omega (arith, i.need, i.room))) ∙ i.written in
        let m : Message = record { header = c.header; payload = i.memory } in
        let a =
          queue_answer-Enqueues env laws w.turn m c.queue (line_of w.sent q) q.holds q.full
            (subst (All IsByte) (sym same) i.bytes) (omega (arith, i.room)) in
        let d =
          drain-Drains (env.write w.turn) a.after a.items (laws.writes w.turn) a.holds a.full in
        record {
          turn = again (record w {
            connection = reset (record c { queue = d.after });
            sent = w.sent ++ d.taken;
            handled = w.handled ++ m ∷ [];
          });
          result = rw (i.start, i.is, a.operated, a.result, d.ends);
          after =
              continues [] (m ∷ [])
                (ready_again (record c { queue = d.after })
                  (record { items = d.left; holds = d.holds; full = d.all_pending }) i.sized)
                (record { version = i.version; some_length = i.some_length; whole = i.room }, tt)
                refl
                (split
                  ∙ ap (λ t. (encode_header c.header ++ t) ++ unread w.ssl) (sym same)
                  ∙ ap (λ t. t ++ unread w.ssl)
                      (sym (append-nil (encode_header c.header ++ i.memory))))
                less
                (a.outputs (record { sent = w.sent ++ d.taken; items = d.left })
                  (record { taken = d.taken; sent = refl; in_order = d.in_order; why = d.why }));
        }
