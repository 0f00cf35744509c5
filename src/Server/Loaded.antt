-- ===== src/Server/Loaded.antt =====
-- What load_private_keys and sighup_cb lead to.
use keyless.Prelude.{
  ℕ, zero, suc, ◌+◌, ◌<◌, ◌≡◌, ◌∙◌, refl, sym, ap, arith, Option, some, List, [], ◌∷◌, inl, inr,
  length, get_elem?, Bool-cases, Option-cases, some-eq-some,
}
use mathlib.Core.Path.{subst}
use keyless.Protocol.{no_error, ◌>>=◌}
use keyless.Openssl.{Openssl, OpensslLaws}
use keyless.Keys.{PrivateKey, PkList, Added, added, exited, add_key_from_file, new_pk_list, key_of}
use keyless.Keys.Valid.{IsValid}
use keyless.Keys.Add.{Attempt, tried, add_key_from_file-Attempt, new_pk_list-IsValid}
use keyless.Keys.Free.{Frees, free_pk_list-Frees}
use keyless.Server.{
  KeyFile, KeyFolder, Loading, failed, loaded, load_keys, load_found, load_private_keys, sighup_cb,
}
use keyless.Server.Keyed.{Keyed, keyed, key_in, add_key_from_file-Keyed}

module _ (o : Openssl) where
  open o use {PKey}

  -- The list has what was in use of another list, and then a key for each file, in their order.
  pub record Fills (start : PkList o) (fs : List KeyFile) (list : PkList o) : Type 0 where
    pub valid : IsValid o list
    pub count : list.current ≡ start.current + length fs
    pub old : (j : ℕ) → j < start.current → get_elem? list.privates j ≡ get_elem? start.privates j
    pub new :
        (j : ℕ) (f : KeyFile)
        → get_elem? fs j ≡ some f
        → (k : PKey) × (key_in o f ≡ some k) × (key_of o list (start.current + j) ≡ some k)

  -- The end of the program, or such a list
  pub data Loads (start : PkList o) (fs : List KeyFile) : Loading o → Type 0 where
    ends : Loads start fs failed
    fills : {list : PkList o} → Fills start fs list → Loads start fs (loaded list)

  -- One file more
  Fills-more :
      (start l list : PkList o) (f : KeyFile) (fs : List KeyFile) (k : PKey)
      → l.current ≡ start.current + 1
      → ((j : ℕ) → j < start.current → get_elem? l.privates j ≡ get_elem? start.privates j)
      → key_in o f ≡ some k
      → key_of o l start.current ≡ some k
      → Fills l fs list
      → Fills start (f ∷ fs) list
  Fills-more start l list f fs k n old r at h = record {
    valid = h.valid;
    count = omega (arith, h.count, n);
    old = λ j lt. h.old j (omega (arith, n)) ∙ old j lt;
    new = new;
  }
    where
      new :
          (j : ℕ) (g : KeyFile)
          → get_elem? (f ∷ fs) j ≡ some g
          → (x : PKey) × (key_in o g ≡ some x) × (key_of o list (start.current + j) ≡ some x)
      new zero g e =
          let same : start.current + 0 ≡ start.current = omega arith in
          let kept : get_elem? list.privates start.current ≡ get_elem? l.privates start.current =
            h.old start.current (omega (arith, n)) in
          (
            k,
            ap (key_in o) (sym (some-eq-some e)) ∙ r,
            ap (key_of o list) same
                ∙ ap (λ (x : Option (PrivateKey o)). x >>= λ e. e.key) kept
                ∙ at,
          )
      new (suc j) g e =
          let (x, is, there) = h.new j g e in
          let same : start.current + suc j ≡ l.current + j = omega (arith, n) in
          (x, is, ap (key_of o list) same ∙ there)

  Loads-more :
      (start l : PkList o) (f : KeyFile) (fs : List KeyFile) (k : PKey) (r : Loading o)
      → l.current ≡ start.current + 1
      → ((j : ℕ) → j < start.current → get_elem? l.privates j ≡ get_elem? start.privates j)
      → key_in o f ≡ some k
      → key_of o l start.current ≡ some k
      → Loads l fs r
      → Loads start (f ∷ fs) r
  Loads-more start l f fs k failed n old r at ends = ends
  Loads-more start l f fs k (loaded list) n old r at (fills h) =
      fills (Fills-more start l list f fs k n old r at h)

  -- A list with the keys of the files that glob found, and no other in use.
  pub record HasKeys (d : KeyFolder) (list : PkList o) : Type 0 where
    pub files : List KeyFile
    pub found : d.globbed ≡ some files
    pub some_file : 0 < length files
    pub valid : IsValid o list
    pub count : list.current ≡ length files
    pub keys :
        (j : ℕ) (f : KeyFile)
        → get_elem? files j ≡ some f
        → (k : PKey) × (key_in o f ≡ some k) × (key_of o list j ≡ some k)

  pub data Loaded (d : KeyFolder) : Loading o → Type 0 where
    stopped : Loaded d failed
    has_keys : {list : PkList o} → HasKeys d list → Loaded d (loaded list)

  Loads-Loaded :
      (d : KeyFolder) (start : PkList o) (f : KeyFile) (fs : List KeyFile) (r : Loading o)
      → d.globbed ≡ some (f ∷ fs)
      → start.current ≡ 0
      → Loads start (f ∷ fs) r
      → Loaded d r
  Loads-Loaded d start f fs failed e z ends = stopped
  Loads-Loaded d start f fs (loaded list) e z (fills h) = has_keys (record {
    files = f ∷ fs;
    found = e;
    some_file = omega arith;
    valid = h.valid;
    count = omega (arith, h.count, z);
    keys = λ j g at.
        let (k, r, there) = h.new j g at in
        let same : j ≡ start.current + j = omega (arith, z) in
        (k, r, ap (key_of o list) same ∙ there);
  })

module _ (o : Openssl) (laws : OpensslLaws o) where
  open o use {PKey}

  load_keys-Loads :
      (fs : List KeyFile) (start : PkList o)
      → IsValid o start
      → Loads o start fs (load_keys o fs start)
  unfolding load_keys
  load_keys-Loads [] start v =
      fills (record { valid = v; count = omega arith; old = λ j lt. refl; new = λ j f e. cc })
  load_keys-Loads (f ∷ fs) start v =
      next (add_key_from_file o f.bio f.content start)
        (add_key_from_file-Attempt o laws f.bio f.content start v)
        (add_key_from_file-Keyed o f.bio f.content start v) (load_keys-Loads fs)
    where
      next :
          (a : Added o)
          → Attempt o laws start a
          → Keyed o start (key_in o f) a
          → ((l : PkList o) → IsValid o l → Loads o l fs (load_keys o fs l))
          → Loads o start (f ∷ fs) (elim a [
            | exited ↦ failed
            | added e l ↦ elim e [ no_error ↦ load_keys o fs l | _ ↦ failed ]
          ])
      next exited t k rest = ends
      next (added no_error l) (tried x) (keyed g) rest =
          let (key, r, at) = g refl in
          let n : l.current ≡ start.current + 1 = elim x.count [
            | inl p ↦ p.1
            | inr p ↦ absurd (p.0 refl)
          ] in
          Loads-more o start l f fs key _ n x.kept r at (rest l x.valid)
      next (added e l) t k rest = ends

  -- load_private_keys ends the program, or leaves a valid list whose keys in use are those of the
  -- files that glob found, at least one, each in its place.
  pub load_private_keys-Loaded : (d : KeyFolder) → Loaded o d (load_private_keys o d)
  unfolding load_private_keys load_found
  load_private_keys-Loaded d = elim (Bool-cases d.pattern_ok) [
    | inr n ↦ rw (n, load_private_keys) stopped
    | inl y ↦ elim (Option-cases d.globbed) [
      | inl e ↦ rw (y, e, load_private_keys) stopped
      | inr ([], e) ↦ rw (y, e, load_private_keys) stopped
      | inr (f ∷ fs, e) ↦
          elim (Option-cases (new_pk_list o d.header_ok d.array_ok (length (f ∷ fs)))) [
            | inl n ↦ rw (y, e, load_private_keys) (rw (n, load_found) stopped)
            | inr (list, m) ↦
                let (v, z, _) =
                  new_pk_list-IsValid o laws d.header_ok d.array_ok (length (f ∷ fs)) list m in
                let r : load_private_keys o d ≡ load_keys o (f ∷ fs) list =
                  rw (y, e, load_private_keys) (rw (m, load_found) refl) in
                subst (Loaded o d) (sym r) (
                  Loads-Loaded o d list f fs (load_keys o (f ∷ fs) list) e z
                    (load_keys-Loads (f ∷ fs) list v))
          ]
    ]
  ]

  -- On a valid list, sighup_cb ends without a fault: it frees the key of every entry in use once, and
  -- then the program ends or has the keys of the files that are found now.
  pub sighup_cb-Reloads :
      (d : KeyFolder) (list : PkList o)
      → IsValid o list
      → (ks : List PKey) × (l : Loading o) × (sighup_cb o d (some list) ≡ some (ks, l))
        × Frees o list 0 ks
        × Loaded o d l
  unfolding sighup_cb
  sighup_cb-Reloads d list v =
      let (ks, r, f) = free_pk_list-Frees o list v in
      (ks, load_private_keys o d, rw r, f, load_private_keys-Loaded d)
