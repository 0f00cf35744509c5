-- ===== src/Core/Reacts.antt =====
-- The answers of the protocol, and what the switch of kssl_operate is given and gives.
use keyless.Prelude.{
  ℕ, ◌%◌, ◌≤◌, ◌≡◌, ◌≢◌, sym, arith, Option, none, some, List, Bool, true, false, some-eq-some,
  length, take,
}
use keyless.Protocol.{
  Pointer, ErrorCode, no_error, crypto_failed, key_not_found, bad_opcode, unexpected_opcode, format,
  internal,
}
use keyless.Protocol.Op
use keyless.Wire.{load}
use keyless.Wire.Encoding.{load-length}
use keyless.KeyStore.{KeyStore, Readable}
use keyless.Message.{Operation, zero_operation}
use keyless.Message.Bytes.{FieldBytes}
use keyless.Message.Flatten.{field-true}
use keyless.Message.Request.{Request, Shows, field, no_request}
use keyless.Protocol.Codes.{has_code, reply_codes, key_codes}
use keyless.Core.{response_with, answer, is_reply, is_key_operation}

-- The switch of kssl_operate has its cases for these codes.
pub is_reply_lem : (opcode : ℕ) → is_reply opcode ≡ has_code reply_codes opcode
unfolding is_reply has_code
is_reply_lem opcode = ground arith

pub is_key_operation_lem : (opcode : ℕ) → is_key_operation opcode ≡ has_code key_codes opcode
unfolding is_key_operation has_code
is_key_operation_lem opcode = ground arith

-- The bytes of a response, as many as its length says: a WORD.
abbrev pub sent_payload : List ℕ → List ℕ
sent_payload out = take (length out % 65536) out

-- A look-up of the key that a request names, by its SKI, or else by its digest.
pub data Finds (ks : KeyStore) (op : Operation) (r : Request) (k : Option ℕ) : Type 0 where
  by_ski : (d : List ℕ) → r.ski ≡ some d → ks.find op.ski none ≡ some k → Finds ks op r k
  by_digest :
      (d : List ℕ)
      → r.ski ≡ none
      → r.digest ≡ some d
      → ks.find none op.digest ≡ some k
      → Finds ks op r k

-- The answer that the protocol gives to a request `op`, which shows `r`.
pub data Reacts (ks : KeyStore) (malloc_ok : Bool) (op : Operation) (r : Request)
    : ErrorCode → Request → Type 0 where
  unexpected :
      has_code reply_codes op.opcode ≡ true → Reacts ks malloc_ok op r unexpected_opcode no_request
  pong :
      op.opcode ≡ Op.ping
      → Reacts ks malloc_ok op r no_error
          (record no_request { opcode = some Op.pong; payload = r.payload })
  unnamed :
      has_code key_codes op.opcode ≡ true
      → r.ski ≡ none
      → r.digest ≡ none
      → Reacts ks malloc_ok op r format no_request
  unknown_key :
      has_code key_codes op.opcode ≡ true
      → Finds ks op r none
      → Reacts ks malloc_ok op r key_not_found no_request
  no_memory :
      (k : ℕ)
      → has_code key_codes op.opcode ≡ true
      → Finds ks op r (some k)
      → malloc_ok ≡ false
      → Reacts ks malloc_ok op r internal no_request
  failed :
      (k room : ℕ) (out : List ℕ)
      → has_code key_codes op.opcode ≡ true
      → Finds ks op r (some k)
      → ks.operation k op.opcode op.payload_len op.payload room ≡ some (crypto_failed, out)
      → Reacts ks malloc_ok op r crypto_failed no_request
  operated :
      (k room : ℕ) (out : List ℕ)
      → has_code key_codes op.opcode ≡ true
      → Finds ks op r (some k)
      → ks.size k ≡ some room
      → length out ≤ room
      → ks.operation k op.opcode op.payload_len op.payload room ≡ some (no_error, out)
      → Reacts ks malloc_ok op r no_error
          (record no_request { opcode = some Op.response; payload = some (sent_payload out) })
  unknown_opcode :
      has_code reply_codes op.opcode ≡ false
      → op.opcode ≢ Op.ping
      → has_code key_codes op.opcode ≡ false
      → Reacts ks malloc_ok op r bad_opcode no_request

-- The switch runs to its end, with the answer of the protocol and a response that can be read.
pub record Answered (ks : KeyStore) (malloc_ok : Bool) (op : Operation) (r : Request) : Type 0 where
  pub code : ErrorCode
  pub response : Operation
  pub result : answer ks malloc_ok op ≡ some (code, response)
  pub shown : Request
  pub shows : Shows response shown
  pub reacts : Reacts ks malloc_ok op r code shown

pub zero-Shows : Shows zero_operation no_request
zero-Shows = ground arith

pub response-Shows :
    (opcode len : ℕ) (p : Pointer) (d : List ℕ)
    → load p len ≡ some d
    → Shows
        (response_with opcode len p)
        (record no_request { opcode = some opcode; payload = some d })
response-Shows opcode len p d h = ground arith

pub load-sent_payload :
    (out : List ℕ) → load (some out) (length out % 65536) ≡ some (sent_payload out)
load-sent_payload out = load-length out (length out % 65536) (omega arith)

pub load-inverse :
    (q : List ℕ) (n : ℕ) (d : List ℕ) → load (some q) n ≡ some d → (n ≤ length q) × (take n q ≡ d)
unfolding load
load-inverse q n d h = ground arith

-- The fields that find_private_key is given can be read.
pub field-Readable :
    (p : Pointer) (n : ℕ) (f : Option (List ℕ))
    → field true p n ≡ some f
    → FieldBytes f
    → Readable p n
field-Readable none n f h w = tt
field-Readable (some q) n f h w =
    let (d, e, e') = field-true (some q) n f h in
    let (l, t) = load-inverse q n d e in (l, rw t (rw e' at w))

pub field-unset : (p : Pointer) (n : ℕ) (f : Option (List ℕ)) → field false p n ≡ some f → f ≡ none
field-unset p n f h = sym (some-eq-some h)
