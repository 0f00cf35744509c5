-- ===== src/Keys.antt =====
-- kssl_private_key.c: the list of private keys.
pub mod Equal
pub mod ConstantTime
pub mod Valid
pub mod Find
pub mod Add
pub mod Asked
pub mod Operate
pub mod Free
use keyless.Prelude.{
  ℕ, zero, suc, ◌+◌, ◌-◌, ◌%◌, Option, none, some, List, Bool, true, false, ◌&&◌, ◌||◌, not, ltb,
  leb, ◌==◌, if◌then◌else◌, length, get_elem?, set, replicate, [], ◌∷◌, ◌⊎◌, inl, inr,
}
use keyless.Protocol.{
  Pointer, ErrorCode, no_error, crypto_failed, internal, ski_size, digest_size, ◌>>=◌,
}
use keyless.Protocol.Op
use keyless.Wire.{load}
use Equal.{constant_time_eq}
use keyless.Openssl.{
  Openssl, Nid, no_nid, md5_sha1, sha1_nid, sha224_nid, sha256_nid, sha384_nid, sha512_nid, KeyType,
  rsa_key, ec_key, other_key, Padding, pkcs1_padding, no_padding,
}

unfoldable pub opcode_to_digest_nid : ℕ → Nid
opcode_to_digest_nid op =
    if op == Op.rsa_sign_md5sha1 || op == Op.ecdsa_sign_md5sha1
    then md5_sha1
    else if op == Op.rsa_sign_sha1 || op == Op.ecdsa_sign_sha1
    then sha1_nid
    else if op == Op.rsa_sign_sha224 || op == Op.ecdsa_sign_sha224
    then sha224_nid
    else if op == Op.rsa_sign_sha256 || op == Op.ecdsa_sign_sha256
    then sha256_nid
    else if op == Op.rsa_sign_sha384 || op == Op.ecdsa_sign_sha384
    then sha384_nid
    else if op == Op.rsa_sign_sha512 || op == Op.ecdsa_sign_sha512
    then sha512_nid
    else no_nid

module _ (o : Openssl) where
  open o use {PKey, Rsa, EcKey}

  -- private_key. A field is `none` until it is written: malloc leaves the array as it was.
  pub record PrivateKey : Type 0 where
    pub ski : Option (List ℕ)
    pub digest : Option (List ℕ)
    pub key : Option PKey

  -- pk_list_; `privates` has `allocated` entries
  pub record PkList : Type 0 where
    pub current : ℕ
    pub allocated : ℕ
    pub privates : List PrivateKey

  abbrev pub unwritten : PrivateKey
  unwritten = record { ski = none; digest = none; key = none }

  -- get_ski; `none` for a return of 1
  unfoldable pub get_ski : PKey → Option (List ℕ)
  get_ski k = o.x509_pubkey k >>= λ bytes. some (o.sha1 bytes)

  -- The switch of digest_public_key over the key's type
  unfoldable pub digest_by_type : KeyType → PKey → Option (List ℕ)
  digest_by_type rsa_key k = do rsa ← o.get1_rsa k; hex ← o.modulus_hex rsa; some (o.sha256 hex)
  digest_by_type ec_key k = do
    ec ← o.get1_ec_key k
    pub_key ← o.public_key ec
    grp ← o.group ec
    hex ← o.point2hex grp pub_key
    some (o.sha256 hex)
  digest_by_type other_key k = none

  -- digest_public_key; `none` for a return of 1
  unfoldable pub digest_public_key : PKey → Option (List ℕ)
  unfolding digest_by_type
  digest_public_key k = digest_by_type (o.key_type k) k

  -- Whether the key at an entry may be used: the check that add_key_from_bio makes of an RSA key.
  unfoldable pub is_sound : PKey → Bool
  is_sound k = elim (o.key_type k) [
    | rsa_key ↦ elim (o.get1_rsa k) [ none ↦ false | some rsa ↦ o.rsa_check_key rsa ]
    | _ ↦ true
  ]

  -- `exited` is a call of ssl_error, which ends the program.
  pub data Added : Type 0 where
    added : ErrorCode → PkList → Added
    exited : Added

  abbrev pub put : PkList → PrivateKey → PkList
  put list entry = record list { privates = set list.privates list.current entry }

  -- The entry is filled in place, field by field, and counts only when it is whole.
  unfoldable pub add_key : PKey → PrivateKey → PkList → ErrorCode × PkList
  unfolding get_ski digest_public_key
  add_key k e0 list = elim (get_ski k) [
    | none ↦ (internal, put list (record e0 { key = some k }))
    | some s ↦ elim (digest_public_key k) [
      | none ↦ (internal, put list (record e0 { key = some k; ski = some s }))
      | some d ↦ (
        no_error,
        record (put list (record { ski = some s; digest = some d; key = some k })) {
          current = list.current + 1;
        },
      )
    ]
  ]

  abbrev pub entry_at : PkList → PrivateKey
  entry_at list = elim (get_elem? list.privates list.current) [ none ↦ unwritten | some e ↦ e ]

  -- The argument is what the BIO gives.
  unfoldable pub add_key_from_bio : List ℕ → PkList → Added
  unfolding is_sound add_key
  add_key_from_bio key_bp list = elim (o.pem_read key_bp) [
    | none ↦ exited
    | some k ↦
        if leb list.allocated list.current
        then added internal list
        else if is_sound k
        then added (add_key k (entry_at list) list).0 (add_key k (entry_at list) list).1
        else added internal list
  ]

  -- Every error of add_key_from_bio is reported as KSSL_ERROR_INTERNAL.
  unfoldable pub as_internal : Added → Added
  as_internal (added no_error list) = added no_error list
  as_internal (added e list) = added internal list
  as_internal exited = exited

  -- `bio` says that BIO_new succeeds; `none` for a file that cannot be opened
  unfoldable pub add_key_from_file : Bool → Option (List ℕ) → PkList → Added
  unfolding add_key_from_bio as_internal
  add_key_from_file false path list = exited
  add_key_from_file true none list = added internal list
  add_key_from_file true (some bp) list = as_internal (add_key_from_bio bp list)

  -- The list may be NULL: then it is not looked at, and there is none to return.
  unfoldable pub add_key_from_buffer : Bool → List ℕ → Option PkList → ErrorCode ⊎ Added
  unfolding add_key_from_bio as_internal
  add_key_from_buffer bio key none = inl internal
  add_key_from_buffer false key (some list) = inr exited
  add_key_from_buffer true key (some list) = inr (as_internal (add_key_from_bio key list))

  -- The two Booleans say which of the two allocations succeed.
  unfoldable pub new_pk_list : Bool → Bool → ℕ → Option PkList
  new_pk_list false array count = none
  new_pk_list true false count = none
  new_pk_list true true count =
      some (record { current = 0; allocated = count; privates = replicate count unwritten })

  -- The keys that free_pk_list frees, in order.
  unfoldable pub free_keys : ℕ → ℕ → List PrivateKey → Option (List PKey)
  free_keys zero j privates = some []
  free_keys (suc left) j privates = do
    e ← get_elem? privates j
    k ← e.key
    ks ← free_keys left (j + 1) privates
    some (k ∷ ks)

  unfoldable pub free_pk_list : Option PkList → Option (List PKey)
  unfolding free_keys
  free_pk_list none = some []
  free_pk_list (some list) = free_keys list.current 0 list.privates

  -- One of the two tests of find_private_key: no test where the pointer is NULL.
  unfoldable pub test_bytes : Option (List ℕ) → Pointer → ℕ → Option Bool
  test_bytes stored none n = some false
  test_bytes stored (some p) n = do s ← stored; r ← constant_time_eq s p n; some (r == 1)

  unfoldable pub test_entry : PrivateKey → Pointer → Pointer → Option Bool
  test_entry e ski digest = test_bytes e.ski ski ski_size >>= λ m.
      if m then some true else test_bytes e.digest digest digest_size

  -- The loop, with the rounds that are left. The inner `none` is the return of -1.
  unfoldable pub find_loop : ℕ → ℕ → List PrivateKey → Pointer → Pointer → Option (Option ℕ)
  find_loop zero j privates ski digest = some none
  find_loop (suc left) j privates ski digest = do
    e ← get_elem? privates j
    m ← test_entry e ski digest
    elim m [ true ↦ some (some j) | false ↦ find_loop left (j + 1) privates ski digest ]

  unfoldable pub find_private_key : PkList → Pointer → Pointer → Option (Option ℕ)
  find_private_key list ski digest = find_loop list.current 0 list.privates ski digest

  abbrev pub key_of : PkList → ℕ → Option PKey
  key_of list key_id = get_elem? list.privates key_id >>= λ e. e.key

  unfoldable pub key_size : PkList → ℕ → Option ℕ
  key_size list key_id = key_of list key_id >>= λ k. some (o.pkey_size k)

  -- What OpenSSL writes to `out`, a buffer of `room` bytes; more is a fault.
  unfoldable pub write_out : ℕ → Option (List ℕ) → Option (ErrorCode × List ℕ)
  write_out room none = some (crypto_failed, [])
  write_out room (some out) = if leb (length out) room then some (no_error, out) else none

  abbrev pub decrypt_padding : ℕ → Padding
  decrypt_padding opcode = if opcode == Op.rsa_decrypt_raw then no_padding else pkcs1_padding

  -- The output of the operation for a key, an opcode and a message; `none` where it fails.
  unfoldable pub key_output : PKey → ℕ → List ℕ → Option (List ℕ)
  unfolding opcode_to_digest_nid
  key_output k opcode m =
      if opcode == Op.rsa_decrypt || opcode == Op.rsa_decrypt_raw
      then (o.get1_rsa k >>= λ rsa. o.rsa_private_decrypt m rsa (decrypt_padding opcode))
      else if leb Op.rsa_sign_md5sha1 opcode && leb opcode Op.rsa_sign_sha512
      then (o.get1_rsa k >>= λ rsa. o.rsa_sign (opcode_to_digest_nid opcode) m rsa)
      else if leb Op.ecdsa_sign_md5sha1 opcode && leb opcode Op.ecdsa_sign_sha512
      then (o.get1_ec_key k >>= λ ec. o.ecdsa_sign (opcode_to_digest_nid opcode) m ec)
      else none

  -- The pair is the code, and the bytes written to `out`, as many as `*size` says.
  unfoldable pub private_key_operation :
      PkList → ℕ → ℕ → ℕ → Pointer → ℕ → Option (ErrorCode × List ℕ)
  unfolding key_output write_out
  private_key_operation list key_id opcode length message room = do
    k ← key_of list key_id
    m ← load message length
    write_out room (key_output k opcode m)
