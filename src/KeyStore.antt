-- ===== src/KeyStore.antt =====
-- What kssl_core.c uses of kssl_private_key.c: find_private_key, key_size and
-- private_key_operation on the server's list of keys, and the laws that it relies on.
use keyless.Prelude.{ℕ, ◌≤◌, ◌<◌, ◌≡◌, ◌⊎◌, Option, none, some, List, length, take, All}
use keyless.Protocol.{Pointer, IsByte, ErrorCode, no_error, crypto_failed, ski_size, digest_size}
use keyless.Wire.{load}

-- A pointer that is NULL, or points to `n` bytes at least, each below 256.
abbrev pub Readable : Pointer → ℕ → Type 0
Readable none n = Unit {0}
Readable (some p) n = (n ≤ length p) × All IsByte (take n p)

pub record KeyStore : Type 0 where
  -- the keys that can be used are those below it
  pub count : ℕ
  -- by SKI and by digest; the inner `none` is the return of -1
  pub find : Pointer → Pointer → Option (Option ℕ)
  pub size : ℕ → Option ℕ
  -- key, opcode, length, message, and the bytes that the output may take
  pub operation : ℕ → ℕ → ℕ → Pointer → ℕ → Option (ErrorCode × List ℕ)

-- The result of an operation: some output that fits, or the error of the cryptography.
pub record Operated (room : ℕ) (e : ErrorCode) (out : List ℕ) : Type 0 where
  pub fits : length out ≤ room
  pub code : (e ≡ no_error) ⊎ (e ≡ crypto_failed)

pub record KeyStoreLaws (ks : KeyStore) : Type 0 where
  pub find_total :
      (ski digest : Pointer)
      → Readable ski ski_size
      → Readable digest digest_size
      → (r : Option ℕ) × (ks.find ski digest ≡ some r) × ((k : ℕ) → r ≡ some k → k < ks.count)
  pub size_total : (k : ℕ) → k < ks.count → (n : ℕ) × (ks.size k ≡ some n)
  pub operation_total :
      (k opcode len room : ℕ) (message : Pointer) (m : List ℕ)
      → k < ks.count
      → ks.size k ≡ some room
      → load message len ≡ some m
      → (e : ErrorCode) × (out : List ℕ) × (ks.operation k opcode len message room ≡ some (e, out))
        × Operated room e out
