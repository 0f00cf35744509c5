-- ===== src/Keys/Valid.antt =====
-- The invariant of a list of private keys.
use keyless.Prelude.{ℕ, ◌≤◌, ◌<◌, ◌≡◌, Option, some, List, length, get_elem?, All}
use keyless.Protocol.{IsByte, ski_size, digest_size}
use keyless.Openssl.{Openssl}
use keyless.Keys.{PrivateKey, PkList}

-- An array field that has been written, with its `n` bytes.
pub record Stored (f : Option (List ℕ)) (n : ℕ) : Type 0 where
  pub value : List ℕ
  pub is : f ≡ some value
  pub size : length value ≡ n
  pub bytes : All IsByte value

module _ (o : Openssl) where
  open o use {PKey}

  pub record IsWhole (e : PrivateKey o) : Type 0 where
    pub ski : Stored e.ski ski_size
    pub digest : Stored e.digest digest_size
    pub key : PKey
    pub has_key : e.key ≡ some key

  -- The array has `allocated` entries, `current` of them in use, and those are whole.
  pub record IsValid (list : PkList o) : Type 0 where
    pub sized : length list.privates ≡ list.allocated
    pub bounded : list.current ≤ list.allocated
    pub entry :
        (j : ℕ)
        → j < list.current
        → (e : PrivateKey o) × (get_elem? list.privates j ≡ some e) × IsWhole e
