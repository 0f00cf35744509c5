-- ===== src/Client.antt =====
-- testclient.c: how the test client sends a request to the server and reads the answer.
-- It prints, and stops the process on any failure: fatal_error. It does not check malloc.
pub mod Cases
pub mod Pipeline
pub mod Gap
pub mod Piped
pub mod Laws
pub mod Reads
pub mod Exchange
pub mod Sends
pub mod Talk
pub mod Reaction
pub mod Passes
pub mod Pings
pub mod Sequence
pub mod Keyed
pub mod HasKey
pub mod KeyRequests
pub mod Decrypts
use keyless.Prelude.{
  ℕ, zero, suc, ◌+◌, Option, none, some, List, Bool, true, false, ltb, ◌==◌, if◌then◌else◌, length,
}
use keyless.Protocol.{Pointer, Header, ErrorCode, header_size, version_maj}
use keyless.Wire.{parse_header}
use keyless.Message.{Operation, Output, flatten_operation, parse_message_payload}
use keyless.Connection.{ReadResult, got, want_read, want_write, zero_return, other_error}

-- A run of the client's code: it returns, fatal_error exits, it still waits for SSL_read with no fuel
-- left, or it has read or written outside a buffer.
pub data Outcome {ℓ} (A : Type ℓ) : Type ℓ where
  returns : A → Outcome A
  exits waits faults : Outcome A

infixl 5 ◌>>=◌
abbrev pub ◌>>=◌ {ℓ κ} : {A : Type ℓ} {B : Type κ} → Outcome A → (A → Outcome B) → Outcome B
returns a >>= f = f a
exits >>= f = exits
waits >>= f = waits
faults >>= f = faults

-- A header that kssl returns, with its `data`
pub record ReturnedHeader : Type 0 where
  pub header : Header
  pub contents : Pointer

-- A TLS connection of the client, and its memory. SSL_write gives how many bytes it took, if any.
pub record Peer : Type 1 where
  pub Ssl : Type 0
  pub write : Ssl → List ℕ → Option ℕ × Ssl
  pub read : Ssl → ℕ → ReadResult × Ssl
  pub calloc_ok : Ssl → Bool
  -- for the header that is returned, and for a payload of some bytes
  pub header_ok : Ssl → Bool
  pub payload_ok : Ssl → ℕ → Bool
  -- what a local variable for a header holds before it is set
  pub unset : ReturnedHeader

-- `tests` is the number of assertions that held.
pub record Session (p : Peer) : Type 0 where
  pub ssl : p.Ssl
  pub tests : ℕ

abbrev pub fault_if_none {ℓ} : {A : Type ℓ} → Option A → Outcome A
fault_if_none none = faults
fault_if_none (some a) = returns a

module _ (p : Peer) where
  unfoldable pub test_assert : Bool → Session p → Outcome (Session p)
  test_assert true s = returns (record s { tests = s.tests + 1 })
  test_assert false s = exits

  -- The loop around SSL_read for `n` bytes: a call that has to wait is repeated, and one that gives
  -- fewer bytes is an error. `fuel` bounds the calls.
  unfoldable pub read_exactly : ℕ → ℕ → Session p → Outcome (List ℕ × Session p)
  read_exactly zero n s = waits
  read_exactly (suc fuel) n s =
      let s' : Session p = record s { ssl = (p.read s.ssl n).1 } in
      elim (p.read s.ssl n).0 [
        | got b ↦ if length b == n then returns (b, s') else exits
        | want_read ↦ read_exactly fuel n s'
        | want_write ↦ read_exactly fuel n s'
        | zero_return ↦ exits
        | other_error ↦ exits
      ]

  -- The bytes of a request. Where flatten_operation makes none, `req` stays unset.
  unfoldable pub request_bytes : Option Output → Outcome (List ℕ × ℕ)
  request_bytes none = faults
  request_bytes (some o) = elim o.bytes [ none ↦ faults | some b ↦ returns (b, o.len) ]

  unfoldable pub kssl_write : Session p → Header → Operation → Outcome (Session p)
  unfolding request_bytes
  kssl_write s k r = do
    (req, req_len) ← request_bytes (flatten_operation true (p.calloc_ok s.ssl) (some k) (some r))
    let s' : Session p = record s { ssl = (p.write s.ssl req).1 }
    elim (p.write s.ssl req).0 [
      | none ↦ exits
      | some n ↦ if n == req_len then returns s' else exits
    ]

  unfoldable pub read_payload :
      ℕ → Pointer → Header → Session p → Outcome (ReturnedHeader × Session p)
  read_payload fuel contents h s =
      if ltb 0 h.length
      then if p.payload_ok s.ssl h.length
        then (read_exactly fuel h.length s >>= λ r.
            returns (record { header = h; contents = some r.0 }, r.1))
        else faults
      else returns (record { header = h; contents = contents }, s)

  -- What follows the header that was parsed.
  unfoldable pub checked_reply :
      ℕ
      → Pointer
      → Header
      → ErrorCode × Option Header
      → Session p
      → Outcome (ReturnedHeader × Session p)
  unfolding read_payload
  checked_reply fuel contents k (e, none) s = faults
  checked_reply fuel contents k (e, some h) s =
      if h.version_maj == version_maj
      then if k.id == h.id
        then if p.header_ok s.ssl then read_payload fuel contents h s else faults
        else exits
      else exits

  -- What kssl and kssl_read do in the same way; `contents` is the `data` of the header before.
  unfoldable pub read_reply :
      ℕ → Pointer → Header → Session p → Outcome (ReturnedHeader × Session p)
  unfolding checked_reply
  read_reply fuel contents k s = do
    (buf, s') ← read_exactly fuel header_size s
    parsed ← fault_if_none (parse_header (some buf) (some p.unset.header))
    checked_reply fuel contents k parsed s'

  unfoldable pub kssl_read : ℕ → Session p → Header → Outcome (ReturnedHeader × Session p)
  kssl_read fuel s k = read_reply fuel none k s

  unfoldable pub kssl : ℕ → Session p → Header → Operation → Outcome (ReturnedHeader × Session p)
  kssl fuel s k r = do s' ← kssl_write s k r; read_reply fuel p.unset.contents k s'

  unfoldable pub verify_response : Header → Header → Session p → Outcome (Session p)
  unfolding test_assert
  verify_response k resp_k s = do
    s ← test_assert (resp_k.id == k.id) s
    test_assert (resp_k.version_maj == version_maj) s
