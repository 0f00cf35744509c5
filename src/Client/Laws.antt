-- ===== src/Client/Laws.antt =====
-- The server that the test client talks to, and what its TLS connection gives.
use keyless.Prelude.{
  ℕ, ◌≤◌, ◌<◌, ◌≡◌, some, List, [], ◌∷◌, ◌++◌, Bool, true, false, length, take, drop,
}
use keyless.Protocol.{Header, no_error, version_maj}
use keyless.Wire.Encoding.{encode_header}
use keyless.KeyStore.{KeyStore, KeyStoreLaws}
use keyless.Connection.{ReadResult, got, want_read, want_write}
use keyless.Connection.Spec.{IsHeader}
use keyless.Core.{kssl_operate}
use keyless.Client.{Peer}

abbrev pub is_wait : ReadResult → Bool
is_wait want_read = true
is_wait want_write = true
is_wait _ = false

-- The most bytes of one TLS record
abbrev pub record_limit : ℕ
record_limit = 16384

-- The records to read, when the first one has these bytes left
abbrev pub with_left : List ℕ → List (List ℕ) → List (List ℕ)
with_left [] rest = rest
with_left (b ∷ bs) rest = (b ∷ bs) ∷ rest

-- A call of SSL_read for `n` bytes, no more than are left of the first TLS record that was not read
-- to its end: it gives these bytes, or it has to wait.
pub data Reads (p : Peer) (pending : p.Ssl → List (List ℕ)) (delay : p.Ssl → ℕ) (s : p.Ssl) (n : ℕ)
    (first : List ℕ) (rest : List (List ℕ)) : Type 0 where
  gives :
      (p.read s n).0 ≡ got (take n first)
      → pending (p.read s n).1 ≡ with_left (drop n first) rest
      → Reads p pending delay s n first rest
  has_to_wait :
      is_wait (p.read s n).0 ≡ true
      → pending (p.read s n).1 ≡ pending s
      → delay (p.read s n).1 < delay s
      → Reads p pending delay s n first rest

-- The connection leads to a server with the keys `ks`. `pending` are the TLS records that it has
-- sent and SSL_read has not given to their ends yet. A message of this version written to it is
-- answered by what kssl_operate makes of it with these keys; an answer of no more than 16384 bytes
-- is one record, behind those of the answers before. SSL_read gives bytes of one record at a time,
-- after fewer than `fuel` calls that have to wait. The client has memory.
pub record ServerAt (p : Peer) (ks : KeyStore) (malloc_ok : Bool) (fuel : ℕ) : Type 0 where
  pub pending : p.Ssl → List (List ℕ)
  pub delay : p.Ssl → ℕ
  pub patient : (s : p.Ssl) → delay s < fuel
  pub answers :
      (s : p.Ssl) (h : Header) (b out : List ℕ) (n : ℕ)
      → IsHeader h
      → h.version_maj ≡ version_maj
      → 0 < h.length
      → length b ≡ h.length
      → kssl_operate ks malloc_ok true h (some b)
        ≡ some (record { code = no_error; bytes = some out; len = n })
      → length out ≤ record_limit
      → ((p.write s (encode_header h ++ b)).0 ≡ some (length (encode_header h ++ b)))
        × (pending (p.write s (encode_header h ++ b)).1 ≡ pending s ++ out ∷ [])
  pub reads :
      (s : p.Ssl) (n : ℕ) (first : List ℕ) (rest : List (List ℕ))
      → pending s ≡ first ∷ rest
      → 0 < n
      → n ≤ length first
      → Reads p pending delay s n first rest
  pub calloc_good : (s : p.Ssl) → p.calloc_ok s ≡ true
  pub header_good : (s : p.Ssl) → p.header_ok s ≡ true
  pub payload_good : (s : p.Ssl) (n : ℕ) → p.payload_ok s n ≡ true
  pub store_laws : KeyStoreLaws ks
  -- the output of a key's operation is short: an RSA key has 32768 bits at most
  pub small : (k room : ℕ) → ks.size k ≡ some room → room ≤ 4096
