-- ===== src/Keys/Find.antt =====
-- find_private_key returns the first key that matches, and -1 only if none does.
use keyless.Prelude.{
  ℕ, zero, suc, ◌+◌, ◌≤◌, ◌<◌, ◌≡◌, ◌∙◌, refl, sym, ap, arith, Option, none, some, List, ◌↔◌, ◌⊎◌,
  inl, inr, Bool, true, false, ◌==◌, ==_iff, get_elem?, take, take-all, All-take, some-eq-some,
  Bool-cases,
}
use native.Mathlib.Decide.{dec_lt}
use mathlib.Core.Path.{subst}
use keyless.Protocol.{Pointer, IsByte, ski_size, digest_size}
use keyless.Openssl.{Openssl}
use keyless.Keys.ConstantTime.{constant_time_eq_lem}
use keyless.KeyStore.{Readable}
use keyless.Keys.Valid.{Stored, IsWhole, IsValid}
use keyless.Keys.{PrivateKey, PkList, test_bytes, test_entry, find_loop, find_private_key}

not_both : (b : Bool) → b ≡ false → b ≡ true → ⊥
not_both b h k = cc

-- The bytes that are asked for are the ones that are stored.
abbrev pub Agrees : Option (List ℕ) → Pointer → ℕ → Type 0
Agrees f none n = ⊥
Agrees f (some p) n = (s : List ℕ) × (f ≡ some s) × (s ≡ take n p)

module _ (o : Openssl) where
  test_bytes_lem :
      (f : Option (List ℕ)) (p : Pointer) (n : ℕ)
      → Stored f n
      → Readable p n
      → (b : Bool) × (test_bytes o f p n ≡ some b) × ((b ≡ true) ↔ Agrees f p n)
  unfolding test_bytes
  test_bytes_lem f none n s h = (false, refl, ((λ e. cc), λ a. elim a [ ]))
  test_bytes_lem f (some p) n s h =
      let (r, e, one, other) =
        constant_time_eq_lem s.value p n (All-take IsByte n s.value s.bytes) h.1
          (omega (arith, s.size)) h.0 in
      let t : take n s.value ≡ s.value = take-all n s.value (omega (arith, s.size)) in
      (
        r == 1,
        rw (s.is, e),
        (
          (λ y. (s.value, s.is, sym t ∙ one.0 ((==_iff r 1).0 y))),
          λ a.
              let same : s.value ≡ a.0 = some-eq-some (sym s.is ∙ a.1) in
              (==_iff r 1).1 (one.1 (t ∙ same ∙ a.2)),
        ),
      )

  -- The entry has the SKI that is asked for, or the digest.
  abbrev pub Matches : PrivateKey o → Pointer → Pointer → Type 0
  Matches e ski digest = Agrees e.ski ski ski_size ⊎ Agrees e.digest digest digest_size

  test_entry_lem :
      (e : PrivateKey o) (ski digest : Pointer)
      → IsWhole o e
      → Readable ski ski_size
      → Readable digest digest_size
      → (b : Bool) × (test_entry o e ski digest ≡ some b) × ((b ≡ true) ↔ Matches e ski digest)
  unfolding test_entry
  test_entry_lem e ski digest w hs hd =
      let (b, eb, qb) = test_bytes_lem e.ski ski ski_size w.ski hs in
      let (c, ec, qc) = test_bytes_lem e.digest digest digest_size w.digest hd in
      elim (Bool-cases b) [
        | inl y ↦ (true, rw (eb, y), ((λ _. inl (qb.0 y)), λ _. refl))
        | inr n ↦ (
          c,
          rw (eb, n) ec,
          (
            (λ y. inr (qc.0 y)),
            λ m. elim m [ inl a ↦ absurd (not_both b n (qb.1 a)) | inr a ↦ qc.1 a ],
          ),
        )
      ]

  -- No entry from `lo` up to `hi` matches.
  abbrev pub NoMatch : PkList o → Pointer → Pointer → ℕ → ℕ → Type 0
  NoMatch list ski digest lo hi =
      (i : ℕ) (e : PrivateKey o)
      → lo ≤ i
      → i < hi
      → get_elem? list.privates i ≡ some e
      → ¬ Matches e ski digest

  -- What a search that began at `lo` may return: the first entry that matches, or none.
  abbrev pub IsFirst : PkList o → Pointer → Pointer → ℕ → Option ℕ → Type 0
  IsFirst list ski digest lo none = NoMatch list ski digest lo list.current
  IsFirst list ski digest lo (some k) =
      (lo ≤ k)
      × (k < list.current)
      × ((e : PrivateKey o) × (get_elem? list.privates k ≡ some e) × Matches e ski digest)
      × NoMatch list ski digest lo k

  module _ (list : PkList o) (ski digest : Pointer) (v : IsValid o list)
      (hs : Readable ski ski_size) (hd : Readable digest digest_size) where
    NoMatch-before :
        (j hi : ℕ) (e : PrivateKey o)
        → get_elem? list.privates j ≡ some e
        → ¬ Matches e ski digest
        → NoMatch list ski digest (j + 1) hi
        → NoMatch list ski digest j hi
    NoMatch-before j hi e he n rest i e' l h he' m = elim (dec_lt j i) [
      | yes p ↦ rest i e' (omega arith) h he' m
      | no p ↦
          let at : i ≡ j = omega arith in
          let same : e' ≡ e = some-eq-some (sym he' ∙ ap (get_elem? list.privates) at ∙ he) in
          n (subst (λ x. Matches x ski digest) same m)
    ]

    IsFirst-before :
        (j : ℕ) (e : PrivateKey o) (r : Option ℕ)
        → get_elem? list.privates j ≡ some e
        → ¬ Matches e ski digest
        → IsFirst list ski digest (j + 1) r
        → IsFirst list ski digest j r
    IsFirst-before j e none he n f = NoMatch-before j list.current e he n f
    IsFirst-before j e (some k) he n f = (omega arith, f.1, f.2, NoMatch-before j k e he n f.3)

    find_loop_lem :
        (left j : ℕ)
        → j + left ≡ list.current
        → (r : Option ℕ) × (find_loop o left j list.privates ski digest ≡ some r)
          × IsFirst list ski digest j r
    unfolding find_loop
    find_loop_lem zero j e = (none, refl, λ i x l h. absurd (omega arith))
    find_loop_lem (suc left) j e =
        let h : j < list.current = omega arith in
        let (x, is, w) = v.entry j h in
        let (b, eb, qb) = test_entry_lem x ski digest w hs hd in
        elim (Bool-cases b) [
          | inl y ↦ (
            some j,
            rw (is, eb, y),
            (omega arith, h, (x, is, qb.0 y), λ i x' l l'. absurd (omega arith)),
          )
          | inr n ↦
              let (r, er, fr) = find_loop_lem left (j + 1) (omega arith) in
              (r, rw (is, eb, n) er, IsFirst-before j x r is (λ m. not_both b n (qb.1 m)) fr)
        ]

  -- On a valid list, find_private_key reads nothing that is not written or outside a buffer. It
  -- returns the first key in use that has the SKI or the digest asked for, and -1 just if no key in
  -- use has either.
  pub find_private_key-IsFirst :
      (list : PkList o) (ski digest : Pointer)
      → IsValid o list
      → Readable ski ski_size
      → Readable digest digest_size
      → (r : Option ℕ) × (find_private_key o list ski digest ≡ some r) × IsFirst list ski digest 0 r
  unfolding find_private_key
  find_private_key-IsFirst list ski digest v hs hd =
      find_loop_lem list ski digest v hs hd list.current 0 (omega arith)
