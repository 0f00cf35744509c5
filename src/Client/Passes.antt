-- ===== src/Client/Passes.antt =====
-- testclient.c: the test cases without a key that expect an error, run against the server.
use keyless.Prelude.{
  ℕ, ◌+◌, ◌≡◌, ◌≢◌, refl, sym, ap, ◌∙◌, arith, none, some, List, [], ◌∷◌, Bool, true, false, ==_iff,
}
use mathlib.Core.Path.{subst}
use keyless.Protocol.{IsByte, version_min}
use keyless.Protocol.{
  Pointer, Header, ErrorCode, no_error, bad_opcode, unexpected_opcode, error_byte, version_maj,
}
use keyless.Protocol.Op
use keyless.Wire.{load}
use keyless.Wire.Encoding.{length-load}
use keyless.KeyStore.{KeyStore}
use keyless.Message.{Operation, parse_message_payload}
use keyless.Message.Flatten.{field-true}
use keyless.Message.Request.{Request, Shows, field}
use keyless.Protocol.Codes.{has_code, reply_codes, key_codes}
use keyless.Client.{Outcome, returns, ◌>>=◌, Peer, Session, ReturnedHeader, test_assert, kssl}
use keyless.Client.Laws.{ServerAt}
use keyless.Client.Cases.{
  parsed_resp, request, first_byte, same_id, is_error, with_version, kssl_bad_opcode, kssl_op_pong,
  kssl_op_error,
}
use keyless.Client.Exchange.{seen, opcode-Shows}
use keyless.Client.Sends.{CanHead}
use keyless.Client.Talk.{HasReply, Exchanged, kssl-Exchanged}
use keyless.Client.Reaction.{simple, request-CanSend, only_unexpected, only_bad}

-- The payload of an operation that shows one can be read.
pub payload-Shows :
    (op : Operation) (r : Request) (d : List ℕ)
    → Shows op r
    → r.payload ≡ some d
    → load op.payload op.payload_len ≡ some d
payload-Shows op r d s e = go op.is_payload_set (s.payload ∙ ap some e)
  where
    go :
        (b : Bool)
        → field b op.payload op.payload_len ≡ some (some d)
        → load op.payload op.payload_len ≡ some d
    go false h = cc
    go true h = let (d', l, i) = field-true op.payload op.payload_len (some d) h in l ∙ sym i

pub one_byte : (q : Pointer) (b : ℕ) → load q 1 ≡ some (b ∷ []) → first_byte q ≡ some b
unfolding load
one_byte none b h = cc
one_byte (some []) b h = cc
one_byte (some (x ∷ q)) b h = ground arith

module _ (p : Peer) (ks : KeyStore) (malloc_ok : Bool) (fuel : ℕ)
    (server : ServerAt p ks malloc_ok fuel) (resp : Operation) where
  open server use {pending}

  -- A test case returns: `n` assertions more held, and there is nothing left to read.
  pub record Passes (s : Session p) (n : ℕ) (result : Outcome (Session p)) : Type 0 where
    pub after : Session p
    pub ends : result ≡ returns after
    pub left : pending after.ssl ≡ []
    pub tests : after.tests ≡ s.tests + n

  abbrev more : Session p → ℕ → Session p
  more s n = record s { tests = s.tests + n }

  pub same_id_lem :
      (k : Header) (h : ReturnedHeader) (s : Session p)
      → h.header.id ≡ k.id
      → h.header.version_maj ≡ version_maj
      → same_id p k h s ≡ returns (record s { tests = s.tests + 1 + 1 })
  unfolding same_id test_assert
  same_id_lem k h s e1 e2 =
      rw ((==_iff h.header.id k.id).1 e1, (==_iff h.header.version_maj version_maj).1 e2)

  pub is_error_lem :
      (e : ErrorCode) (h : ReturnedHeader) (s : Session p) (op : Operation) (c : ErrorCode)
      → parse_message_payload h.contents h.header.length (some resp) ≡ some (c, some op)
      → op.opcode ≡ Op.op_error
      → op.payload_len ≡ 1
      → first_byte op.payload ≡ some (error_byte e)
      → is_error p resp e h s ≡ returns (record s { tests = s.tests + 1 + 1 + 1 })
  unfolding is_error parsed_resp test_assert
  is_error_lem e h s op c f o l b = rw (
    f,
    (==_iff op.opcode Op.op_error).1 o,
    (==_iff op.payload_len 1).1 l,
    b,
    (==_iff (error_byte e) (error_byte e)).1 refl,
  )

  pub error_Passes :
      (s : Session p) (k : Header) (req : Operation) (e : ErrorCode)
      → HasReply p ks malloc_ok fuel server s k.id resp
          (simple Op.op_error (error_byte e ∷ []))
          []
          (kssl p fuel s k req)
      → Passes s 5 (do (h, s) ← kssl p fuel s k req; s ← same_id p k h s; is_error p resp e h s)
  error_Passes s k req e r =
      let l = payload-Shows r.operation _ (error_byte e ∷ []) r.shows refl in
      let n : 1 ≡ r.operation.payload_len =
        length-load r.operation.payload r.operation.payload_len (error_byte e ∷ []) l in
      record {
        after = record r.after { tests = r.after.tests + 1 + 1 + 1 + 1 + 1 };
        ends = rw (
          r.ends,
          same_id_lem k r.reply r.after r.same_id r.maj,
          is_error_lem e r.reply (record r.after { tests = r.after.tests + 1 + 1 }) r.operation
              no_error r.parses (opcode-Shows r.operation _ Op.op_error r.shows refl) (sym n)
              (one_byte r.operation.payload (error_byte e) (rw (← n) at l)),
        );
        left = r.left;
        tests = omega (arith, r.tests);
      }

  pub exchange :
      (s : Session p) (k : Header) (v : ℕ)
      → pending s.ssl ≡ []
      → k.version_maj ≡ version_maj
      → CanHead k
      → IsByte v
      → Exchanged p ks malloc_ok fuel server s k (simple v []) resp (kssl p fuel s k (request v))
  exchange s k v e m w b =
      kssl-Exchanged p ks malloc_ok fuel server s k (request v) (simple v []) resp e m w
        (request-CanSend v b)

  pub opcode_of :
      {s : Session p} {k : Header} {v : ℕ} {d : List ℕ}
      {result : Outcome (ReturnedHeader × Session p)}
      (x : Exchanged p ks malloc_ok fuel server s k (simple v d) resp result)
      → x.request.opcode ≡ v
  opcode_of x = opcode-Shows x.request _ _ x.requests refl

  -- A reply with a code, where the protocol's code is that
  pub with_code :
      {s : Session p} {k : Header} {r : Request} {result : Outcome (ReturnedHeader × Session p)}
      (x : Exchanged p ks malloc_ok fuel server s k r resp result) (e : ErrorCode)
      → x.code ≡ e
      → HasReply p ks malloc_ok fuel server s k.id resp (seen e x.shown) [] result
  with_code {s} {k} {r} {result} x e c =
      subst (λ c'. HasReply p ks malloc_ok fuel server s k.id resp (seen c' x.shown) [] result) c
        x.reply

  -- kssl_bad_opcode returns, and its five assertions hold.
  pub kssl_bad_opcode-Passes :
      (s : Session p) → pending s.ssl ≡ [] → Passes s 5 (kssl_bad_opcode p fuel resp s)
  unfolding kssl_bad_opcode has_code
  kssl_bad_opcode-Passes s e =
      let k = with_version version_maj version_min 0 0x12345678 in
      let x =
        exchange s k 0xBB e refl (record { min = omega arith; num = omega arith }) (omega arith) in
      let o = opcode_of x in
      error_Passes s k (request 0xBB) bad_opcode (
        with_code x bad_opcode
          (only_bad x.reacts (rw o refl) (rw o refl) (λ y. absurd (omega (arith, o, y)))))

  unexpected_reply :
      (s : Session p) (k : Header) (v : ℕ)
      → pending s.ssl ≡ []
      → k.version_maj ≡ version_maj
      → CanHead k
      → IsByte v
      → has_code reply_codes v ≡ true
      → has_code key_codes v ≡ false
      → v ≢ Op.ping
      → HasReply p ks malloc_ok fuel server s k.id resp
          (simple Op.op_error (error_byte unexpected_opcode ∷ []))
          []
          (kssl p fuel s k (request v))
  unexpected_reply s k v e m w b h1 h2 h3 =
      let x = exchange s k v e m w b in
      let o = opcode_of x in
      with_code x unexpected_opcode
        (only_unexpected x.reacts (rw o h1) (rw o h2) (λ y. h3 (sym o ∙ y)))

  pub kssl_op_pong-Passes :
      (len : ℕ) (s : Session p) → pending s.ssl ≡ [] → Passes s 5 (kssl_op_pong p fuel resp len s)
  unfolding kssl_op_pong has_code
  kssl_op_pong-Passes len s e =
      let k = with_version version_maj version_min len 0x12345678 in
      error_Passes s k (request Op.pong) unexpected_opcode (
        unexpected_reply s k Op.pong e refl (record { min = omega arith; num = omega arith })
          (omega arith) refl refl (λ h. absurd (omega (arith, h))))

  pub kssl_op_error-Passes :
      (min len : ℕ) (s : Session p)
      → IsByte min
      → pending s.ssl ≡ []
      → Passes s 5 (kssl_op_error p fuel resp min len s)
  unfolding kssl_op_error has_code
  kssl_op_error-Passes min len s b e =
      let k = with_version version_maj min len 0x12345678 in
      error_Passes s k (request Op.op_error) unexpected_opcode (
        unexpected_reply s k Op.op_error e refl (record { min = b; num = omega arith })
          (omega arith) refl refl (λ h. absurd (omega (arith, h))))
