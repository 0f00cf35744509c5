-- ===== src/Client/Reaction.antt =====
-- The requests of the test client's test cases, and how the protocol reacts to them.
use keyless.Prelude.{ℕ, ◌≡◌, ◌≢◌, refl, arith, some, List, [], Bool, true, false}
use keyless.Protocol.{Header, ErrorCode, no_error, bad_opcode, unexpected_opcode, IsByte}
use keyless.Protocol.Op
use keyless.Wire.{load, flatten_item}
use keyless.KeyStore.{KeyStore}
use keyless.Message.{Operation, items_size, padding_size, flatten_operation, flatten_all}
use keyless.Message.Request.{Request, no_request}
use keyless.Protocol.Codes.{has_code, reply_codes, key_codes}
use keyless.Core.Reacts.{
  Reacts, unexpected, pong, unnamed, unknown_key, no_memory, failed, operated, unknown_opcode,
}
use keyless.Client.Cases.{request}
use keyless.Client.Sends.{CanSend}

-- A request with an opcode and a payload, and nothing else
abbrev pub simple : ℕ → List ℕ → Request
simple opcode payload = record no_request { opcode = some opcode; payload = some payload }

null_payload :
    (v : ℕ) (h : Header)
    → flatten_operation true true (some h) (some (request v))
      ≡ flatten_operation true true (some h) (some (record (request v) { payload = some [] }))
unfolding flatten_operation items_size padding_size flatten_all flatten_item
null_payload v h = refl

pub request-CanSend : (v : ℕ) → IsByte v → CanSend (request v) (simple v [])
unfolding items_size padding_size load
request-CanSend v h = record {
  alike = record (request v) { payload = some [] };
  same = null_payload v;
  shows = record { opcode = refl; payload = refl; ski = refl; digest = refl; client_ip = refl };
  opcode = h;
  bytes = record { payload = tt; ski = tt; digest = tt; client_ip = tt };
  complete = refl;
  fits = omega arith;
}

module _ {ks : KeyStore} {malloc_ok : Bool} {op : Operation} {r : Request} where
  pub only_unexpected :
      {e : ErrorCode} {shown : Request}
      → Reacts ks malloc_ok op r e shown
      → has_code reply_codes op.opcode ≡ true
      → has_code key_codes op.opcode ≡ false
      → op.opcode ≢ Op.ping
      → e ≡ unexpected_opcode
  only_unexpected (unexpected y) h k n = refl
  only_unexpected (pong y) h k n = absurd (n y)
  only_unexpected (unnamed y e1 e2) h k n = cc
  only_unexpected (unknown_key y f) h k n = cc
  only_unexpected (no_memory i y f m) h k n = cc
  only_unexpected (failed i room out y f e) h k n = cc
  only_unexpected (operated i room out y f s l e) h k n = cc
  only_unexpected (unknown_opcode n1 n2 n3) h k n = cc

  pub only_bad :
      {e : ErrorCode} {shown : Request}
      → Reacts ks malloc_ok op r e shown
      → has_code reply_codes op.opcode ≡ false
      → has_code key_codes op.opcode ≡ false
      → op.opcode ≢ Op.ping
      → e ≡ bad_opcode
  only_bad (unexpected y) h k n = cc
  only_bad (pong y) h k n = absurd (n y)
  only_bad (unnamed y e1 e2) h k n = cc
  only_bad (unknown_key y f) h k n = cc
  only_bad (no_memory i y f m) h k n = cc
  only_bad (failed i room out y f e) h k n = cc
  only_bad (operated i room out y f s l e) h k n = cc
  only_bad (unknown_opcode n1 n2 n3) h k n = refl

  pub only_pong :
      {e : ErrorCode} {shown : Request}
      → Reacts ks malloc_ok op r e shown
      → has_code reply_codes op.opcode ≡ false
      → has_code key_codes op.opcode ≡ false
      → op.opcode ≡ Op.ping
      → (e ≡ no_error) × (shown ≡ record no_request { opcode = some Op.pong; payload = r.payload })
  only_pong (unexpected y) h k n = cc
  only_pong (pong y) h k n = (refl, refl)
  only_pong (unnamed y e1 e2) h k n = cc
  only_pong (unknown_key y f) h k n = cc
  only_pong (no_memory i y f m) h k n = cc
  only_pong (failed i room out y f e) h k n = cc
  only_pong (operated i room out y f s l e) h k n = cc
  only_pong (unknown_opcode n1 n2 n3) h k n = absurd (n2 n)
