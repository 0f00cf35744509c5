-- ===== src/Server/Keyed.antt =====
-- The key that add_key_from_file puts in the list is the one in the file.
use keyless.Prelude.{
  ℕ, ◌<◌, ◌≡◌, refl, arith, Option, none, some, List, inl, inr, Bool, true, false, leb, length,
  get_elem?, Bool-cases, leb→lt, Option-cases, get_elem?-set_self,
}
use keyless.Protocol.{ErrorCode, no_error, ◌>>=◌}
use keyless.Openssl.{Openssl}
use keyless.Keys.{
  PrivateKey, PkList, Added, added, exited, get_ski, digest_public_key, is_sound, add_key, put,
  add_key_from_bio, add_key_from_file, as_internal, key_of, entry_at,
}
use keyless.Keys.Valid.{IsValid}
use keyless.Server.{KeyFile}

module _ (o : Openssl) where
  open o use {PKey}

  -- What was read from a file
  abbrev pub key_in : KeyFile → Option PKey
  key_in f = f.content >>= o.pem_read

  -- After a success, the entry after those in use has the key that was read.
  pub data Keyed (list : PkList o) (read : Option PKey) : Added o → Type 0 where
    stops : Keyed list read exited
    keyed :
        {e : ErrorCode} {l : PkList o}
        → (e ≡ no_error → (k : PKey) × (read ≡ some k) × (key_of o l list.current ≡ some k))
        → Keyed list read (added e l)

  set-key :
      (list : PkList o) (e : PrivateKey o) (k : PKey)
      → list.current < length list.privates
      → e.key ≡ some k
      → (get_elem? (put o list e).privates list.current >>= λ e. e.key) ≡ some k
  set-key list e k lt h = rw (get_elem?-set_self list.privates list.current e lt) h

  add_key-Keyed :
      (k : PKey) (e0 : PrivateKey o) (list : PkList o)
      → list.current < length list.privates
      → Keyed list (some k) (added (add_key o k e0 list).0 (add_key o k e0 list).1)
  unfolding add_key
  add_key-Keyed k e0 list lt = elim (Option-cases (get_ski o k)) [
    | inl e ↦ rw (e, add_key) (keyed (λ h. cc))
    | inr (s, e) ↦ elim (Option-cases (digest_public_key o k)) [
      | inl e' ↦ rw (e, add_key) (rw (e', add_key) (keyed (λ h. cc)))
      | inr (d, e') ↦
          rw (e, add_key)
            (rw (e', add_key)
              (keyed (λ h. (
                k,
                refl,
                set-key list (record { ski = some s; digest = some d; key = some k }) k lt refl,
              ))))
    ]
  ]

  as_internal-Keyed :
      (list : PkList o) (read : Option PKey) (a : Added o)
      → Keyed list read a
      → Keyed list read (as_internal o a)
  unfolding as_internal
  as_internal-Keyed list read exited stops = stops
  as_internal-Keyed list read (added no_error l) (keyed f) = keyed f
  as_internal-Keyed list read (added e l) (keyed f) = keyed (λ h. cc)

  add_key_from_bio-Keyed :
      (bp : List ℕ) (list : PkList o)
      → IsValid o list
      → Keyed list (o.pem_read bp) (add_key_from_bio o bp list)
  unfolding add_key_from_bio
  add_key_from_bio-Keyed bp list v = elim (Option-cases (o.pem_read bp)) [
    | inl e ↦ rw (e, add_key_from_bio) stops
    | inr (k, e) ↦ elim (Bool-cases (leb list.allocated list.current)) [
      | inl full ↦ rw (e, add_key_from_bio) (rw full (keyed (λ h. cc)))
      | inr room ↦ elim (Bool-cases (is_sound o k)) [
        | inl y ↦
            rw (e, add_key_from_bio)
              (rw (room, y)
                (add_key-Keyed k (entry_at o list) list (omega (arith, leb→lt _ _ room, v.sized))))
        | inr n ↦ rw (e, add_key_from_bio) (rw (room, n) (keyed (λ h. cc)))
      ]
    ]
  ]

  pub add_key_from_file-Keyed :
      (b : Bool) (c : Option (List ℕ)) (list : PkList o)
      → IsValid o list
      → Keyed list (c >>= o.pem_read) (add_key_from_file o b c list)
  unfolding add_key_from_file
  add_key_from_file-Keyed false c list v = stops
  add_key_from_file-Keyed true none list v = keyed (λ h. cc)
  add_key_from_file-Keyed true (some bp) list v =
      as_internal-Keyed list _ _ (add_key_from_bio-Keyed bp list v)
