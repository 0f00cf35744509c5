-- ===== src/Server/Success.antt =====
-- load_private_keys where every file has a key that can be used.
use keyless.Prelude.{
  ℕ, ◌+◌, ◌<◌, ◌≡◌, refl, ap, arith, some, List, [], ◌∷◌, true, false, leb, length, All, replicate,
}
use mathlib.Core.Path.{subst}
use keyless.Protocol.{no_error}
use keyless.Openssl.{Openssl, OpensslLaws}
use keyless.Keys.{
  PkList, added, get_ski, digest_public_key, is_sound, add_key, put, add_key_from_bio,
  add_key_from_file, as_internal, new_pk_list, unwritten,
}
use keyless.Server.Loaded.{HasKeys, Loaded, stopped, has_keys, load_private_keys-Loaded}
use keyless.Server.{
  KeyFile, KeyFolder, Loading, failed, loaded, load_keys, load_found, load_private_keys,
}

module _ (o : Openssl) where
  open o use {PKey}

  -- A file with a key that add_key_from_file takes.
  pub record IsGood (f : KeyFile) : Type 0 where
    pub bio : f.bio ≡ true
    pub bytes : List ℕ
    pub opens : f.content ≡ some bytes
    pub key : PKey
    pub reads : o.pem_read bytes ≡ some key
    pub sound : is_sound o key ≡ true
    pub ski : List ℕ
    pub has_ski : get_ski o key ≡ some ski
    pub digest : List ℕ
    pub has_digest : digest_public_key o key ≡ some digest

  list_of : PkList o → Loading o → PkList o
  list_of l (loaded k) = k
  list_of l failed = l

  loaded_inj : {a b : PkList o} → loaded a ≡ loaded b → a ≡ b
  unfolding list_of
  loaded_inj {a} h = ap (list_of a) h

  lt→leb : (m n : ℕ) → m < n → leb n m ≡ false
  lt→leb m n h = ground arith

  good-added :
      (f : KeyFile) (list : PkList o)
      → IsGood f
      → list.current < list.allocated
      → (l : PkList o) × (add_key_from_file o f.bio f.content list ≡ added no_error l)
        × (l.current ≡ list.current + 1)
        × (l.allocated ≡ list.allocated)
  unfolding add_key_from_file add_key_from_bio add_key as_internal
  good-added f list g lt =
      let l : PkList o =
        record (put o list
          (record { ski = some g.ski; digest = some g.digest; key = some g.key })) {
            current = list.current + 1;
          } in
      (
        l,
        rw (g.bio, g.opens, add_key_from_file)
            (rw
              (
                g.reads,
                lt→leb _ _ lt,
                g.sound,
                g.has_ski,
                g.has_digest,
                add_key_from_file,
                add_key_from_bio,
                add_key,
                as_internal,
              )
              refl),
        refl,
        refl,
      )

  good_keys :
      (fs : List KeyFile) (list : PkList o)
      → All IsGood fs
      → list.current + length fs ≡ list.allocated
      → (l : PkList o) × (load_keys o fs list ≡ loaded l)
  unfolding load_keys
  good_keys [] list g c = (list, refl)
  good_keys (f ∷ fs) list g c =
      let (l, r, n, a) = good-added f list g.0 (omega (arith, c)) in
      let (l', r') = good_keys fs l g.1 (omega (arith, c, n, a)) in (l', rw (r, load_keys) r')

  kept :
      (d : KeyFolder) (list : PkList o) (r : Loading o)
      → r ≡ loaded list
      → Loaded o d r
      → HasKeys o d list
  kept d list r e stopped = cc
  kept d list r e (has_keys h) = subst (HasKeys o d) (loaded_inj e) h

  -- Where the memory is there and glob finds files, all with keys that can be used, a list is loaded,
  -- and with the facts on OpenSSL's digests its keys in use are those of the files, each in its place.
  pub load_private_keys-loads :
      (laws : OpensslLaws o) (d : KeyFolder) (f : KeyFile) (fs : List KeyFile)
      → d.pattern_ok ≡ true
      → d.header_ok ≡ true
      → d.array_ok ≡ true
      → d.globbed ≡ some (f ∷ fs)
      → All IsGood (f ∷ fs)
      → (list : PkList o) × (load_private_keys o d ≡ loaded list) × HasKeys o d list
  unfolding load_private_keys load_found new_pk_list
  load_private_keys-loads laws d f fs p h a e g =
      let (l, r) =
        good_keys (f ∷ fs)
          (record {
            current = 0;
            allocated = length (f ∷ fs);
            privates = replicate (length (f ∷ fs)) (unwritten o);
          })
          g (omega arith) in
      let run : load_private_keys o d ≡ loaded l =
        rw (p, e, load_private_keys) (rw (h, a, load_found, new_pk_list) r) in
      (l, run, kept d l (load_private_keys o d) run (load_private_keys-Loaded o laws d))
