-- ===== src/Keys/Add.antt =====
-- Loading keys keeps the list valid, whatever the file holds.
use keyless.Prelude.{
  ℕ, ◌+◌, ◌<◌, ◌≡◌, ◌≢◌, ◌∙◌, refl, sym, ap, arith, Option, none, some, List, ◌⊎◌, inl, inr, Bool,
  true, false, leb, get_elem?, Bool-cases, leb→lt, Option-cases, some-eq-some, length-set,
  length-replicate, get_elem?-set_self, get_elem?-set_ne,
}
use native.Mathlib.Decide.{dec_lt}
use mathlib.Core.Path.{subst}
use keyless.Protocol.{ErrorCode, no_error, internal, ski_size, digest_size, >>=-eq-some}
use keyless.Openssl.{Openssl, OpensslLaws, KeyType, rsa_key, ec_key, other_key}
use keyless.Keys.Valid.{Stored, IsWhole, IsValid}
use keyless.Keys.{
  PrivateKey, PkList, Added, added, exited, put, unwritten, get_ski, digest_by_type,
  digest_public_key, is_sound, add_key, add_key_from_bio, add_key_from_file, as_internal,
  new_pk_list, entry_at,
}

module _ (o : Openssl) (laws : OpensslLaws o) where
  open o use {PKey}

  -- The keys in use stay as they are, and one more is in use exactly after a success.
  pub record Extends (list list' : PkList o) (e : ErrorCode) : Type 0 where
    pub valid : IsValid o list'
    pub kept : (j : ℕ) → j < list.current → get_elem? list'.privates j ≡ get_elem? list.privates j
    pub count :
        ((e ≡ no_error) × (list'.current ≡ list.current + 1))
        ⊎ ((e ≢ no_error) × (list'.current ≡ list.current))

  get_ski-Stored : (k : PKey) (s : List ℕ) → get_ski o k ≡ some s → Stored (some s) ski_size
  unfolding get_ski
  get_ski-Stored k s h =
      let (m, _, e) = >>=-eq-some (o.x509_pubkey k) _ h in
      let is : s ≡ o.sha1 m = sym (some-eq-some e) in
      record {
        value = s;
        is = refl;
        size = rw is (laws.length-sha1 m);
        bytes = rw is (laws.sha1_bytes m);
      }

  -- Every digest is the SHA-256 of some text.
  digest_of :
      (t : KeyType) (k : PKey) (s : List ℕ)
      → digest_by_type o t k ≡ some s
      → (m : List ℕ) × (s ≡ o.sha256 m)
  unfolding digest_by_type
  digest_of rsa_key k s h =
      let (_, _, h1) = >>=-eq-some (o.get1_rsa k) _ h in
      let (hex, _, e) = >>=-eq-some (o.modulus_hex _) _ h1 in (hex, sym (some-eq-some e))
  digest_of ec_key k s h =
      let (_, _, h1) = >>=-eq-some (o.get1_ec_key k) _ h in
      let (_, _, h2) = >>=-eq-some (o.public_key _) _ h1 in
      let (_, _, h3) = >>=-eq-some (o.group _) _ h2 in
      let (hex, _, e) = >>=-eq-some (o.point2hex _ _) _ h3 in (hex, sym (some-eq-some e))
  digest_of other_key k s h = absurd (ground arith)

  digest-Stored :
      (k : PKey) (s : List ℕ) → digest_public_key o k ≡ some s → Stored (some s) digest_size
  unfolding digest_public_key
  digest-Stored k s h =
      let (m, is) = digest_of (o.key_type k) k s h in
      record {
        value = s;
        is = refl;
        size = rw is (laws.length-sha256 m);
        bytes = rw is (laws.sha256_bytes m);
      }

  -- A write to the entry behind the last one in use.
  put-kept :
      (list : PkList o) (e : PrivateKey o) (j : ℕ)
      → j < list.current
      → get_elem? (put o list e).privates j ≡ get_elem? list.privates j
  put-kept list e j h =
      get_elem?-set_ne list.privates list.current j e (λ (q : list.current ≡ j). omega arith)

  kept_entry :
      (list : PkList o) (e : PrivateKey o)
      → IsValid o list
      → (j : ℕ) → j < list.current
      → (x : PrivateKey o) × (get_elem? (put o list e).privates j ≡ some x) × IsWhole o x
  kept_entry list e v j h = let (x, is, w) = v.entry j h in (x, put-kept list e j h ∙ is, w)

  put-Extends :
      (list : PkList o) (e : PrivateKey o) → IsValid o list → Extends list (put o list e) internal
  put-Extends list e v = record {
    valid = record {
      sized = length-set list.privates list.current e ∙ v.sized;
      bounded = v.bounded;
      entry = λ j h. kept_entry list e v j h;
    };
    kept = put-kept list e;
    count = inr ((λ q. cc), refl);
  }

  same-Extends : (list : PkList o) → IsValid o list → Extends list list internal
  same-Extends list v = record { valid = v; kept = λ j h. refl; count = inr ((λ q. cc), refl) }

  new-IsWhole :
      (k : PKey) (s d : List ℕ)
      → get_ski o k ≡ some s
      → digest_public_key o k ≡ some d
      → IsWhole o (record { ski = some s; digest = some d; key = some k })
  new-IsWhole k s d hs hd = record {
    ski = get_ski-Stored k s hs;
    digest = digest-Stored k d hd;
    key = k;
    has_key = refl;
  }

  -- The entry that is written last counts now.
  count-Extends :
      (list : PkList o) (e : PrivateKey o)
      → IsValid o list
      → list.current < list.allocated
      → IsWhole o e
      → Extends list (record (put o list e) { current = list.current + 1 }) no_error
  count-Extends list e v h w = record {
    valid = record {
      sized = length-set list.privates list.current e ∙ v.sized;
      bounded = omega arith;
      entry = λ j l. elim (dec_lt j list.current) [
        | yes p ↦ kept_entry list e v j p
        | no p ↦
            let at : j ≡ list.current = omega arith in
            (
              e,
              ap (get_elem? (put o list e).privates) at
                  ∙ get_elem?-set_self list.privates list.current e (omega (arith, v.sized)),
              w,
            )
      ];
    };
    kept = put-kept list e;
    count = inl (refl, refl);
  }

  add_key-Extends :
      (k : PKey) (e0 : PrivateKey o) (list : PkList o)
      → IsValid o list
      → list.current < list.allocated
      → Extends list (add_key o k e0 list).1 (add_key o k e0 list).0
  unfolding add_key
  add_key-Extends k e0 list v h = elim (Option-cases (get_ski o k)) [
    | inl e ↦ rw (e, add_key) (put-Extends list (record e0 { key = some k }) v)
    | inr (s, e) ↦ elim (Option-cases (digest_public_key o k)) [
      | inl e' ↦
          rw (e, add_key)
            (rw (e', add_key) (put-Extends list (record e0 { key = some k; ski = some s }) v))
      | inr (d, e') ↦
          rw (e, add_key) (rw (e', add_key) (count-Extends list _ v h (new-IsWhole k s d e e')))
    ]
  ]

  -- What an attempt to add a key may lead to.
  pub data Attempt (list : PkList o) : Added o → Type 0 where
    ended : Attempt list exited
    tried : {list' : PkList o} {e : ErrorCode} → Extends list list' e → Attempt list (added e list')

  add_key_from_bio-Attempt :
      (bp : List ℕ) (list : PkList o) → IsValid o list → Attempt list (add_key_from_bio o bp list)
  unfolding add_key_from_bio
  add_key_from_bio-Attempt bp list v = elim (Option-cases (o.pem_read bp)) [
    | inl e ↦ rw (e, add_key_from_bio) ended
    | inr (k, e) ↦ elim (Bool-cases (leb list.allocated list.current)) [
      | inl full ↦ rw (e, add_key_from_bio) (rw full (tried (same-Extends list v)))
      | inr room ↦ elim (Bool-cases (is_sound o k)) [
        | inl y ↦
            rw (e, add_key_from_bio)
              (rw (room, y) (tried (add_key-Extends k (entry_at o list) list v (leb→lt _ _ room))))
        | inr n ↦ rw (e, add_key_from_bio) (rw (room, n) (tried (same-Extends list v)))
      ]
    ]
  ]

  downgrade :
      (list l : PkList o) (e : ErrorCode)
      → e ≢ no_error
      → Extends list l e
      → Extends list l internal
  downgrade list l e n x = record {
    valid = x.valid;
    kept = x.kept;
    count = inr ((λ q. cc), elim x.count [ inl p ↦ absurd (n p.0) | inr p ↦ p.1 ]);
  }

  as_internal-Attempt :
      (list : PkList o) (a : Added o) → Attempt list a → Attempt list (as_internal o a)
  unfolding as_internal
  as_internal-Attempt list (added no_error l) (tried x) = tried x
  as_internal-Attempt list (added e l) (tried x) = tried (downgrade list l e (λ q. cc) x)
  as_internal-Attempt list exited ended = ended

  -- add_key_from_file on a valid list ends the program or leaves a valid list, whatever the file
  -- holds: the keys in use are what they were, and one more is in use exactly if it succeeds.
  pub add_key_from_file-Attempt :
      (bio : Bool) (path : Option (List ℕ)) (list : PkList o)
      → IsValid o list
      → Attempt list (add_key_from_file o bio path list)
  unfolding add_key_from_file
  add_key_from_file-Attempt false path list v = ended
  add_key_from_file-Attempt true none list v = tried (same-Extends list v)
  add_key_from_file-Attempt true (some bp) list v =
      as_internal-Attempt list _ (add_key_from_bio-Attempt bp list v)

  -- A list that new_pk_list returns is valid, none of its keys is in use, and it has the room asked for.
  pub new_pk_list-IsValid :
      (header array : Bool) (count : ℕ) (list : PkList o)
      → new_pk_list o header array count ≡ some list
      → IsValid o list × (list.current ≡ 0) × (list.allocated ≡ count)
  unfolding new_pk_list
  new_pk_list-IsValid false array count list h = absurd (ground arith)
  new_pk_list-IsValid true false count list h = absurd (ground arith)
  new_pk_list-IsValid true true count list h =
      let e = some-eq-some h in
      subst (λ l. IsValid o l × (l.current ≡ 0) × (l.allocated ≡ count)) e
        (
          record {
            sized = length-replicate count (unwritten o);
            bounded = omega arith;
            entry = λ j l. absurd (omega arith);
          },
          refl,
          refl,
        )
