-- ===== src/Keys/Free.antt =====
-- free_pk_list frees the keys in use.
use keyless.Prelude.{
  ℕ, zero, suc, ◌+◌, ◌<◌, ◌≡◌, refl, ap, ◌∙◌, arith, some, List, [], ◌∷◌, length, get_elem?,
}
use keyless.Openssl.{Openssl}
use keyless.Keys.Valid.{IsValid}
use keyless.Keys.{PkList, key_of, free_keys, free_pk_list}

module _ (o : Openssl) where
  open o use {PKey}

  -- The keys are those of the entries from `j` up to `current`.
  pub record Frees (list : PkList o) (j : ℕ) (ks : List PKey) : Type 0 where
    pub count : j + length ks ≡ list.current
    pub key : (i : ℕ) → i < length ks → get_elem? ks i ≡ key_of o list (j + i)

  module _ (list : PkList o) (v : IsValid o list) where
    more_key :
        (j : ℕ) (k : PKey) (ks : List PKey)
        → key_of o list j ≡ some k
        → Frees list (j + 1) ks
        → (i : ℕ) → i < suc (length ks)
        → get_elem? (k ∷ ks) i ≡ key_of o list (j + i)
    more_key j k ks at f zero h = let e : j + 0 ≡ j = omega arith in rw (e, at)
    more_key j k ks at f (suc i) h =
        let e : (j + 1) + i ≡ j + suc i = omega arith in
        f.key i (omega arith) ∙ ap (key_of o list) e

    free_keys-Frees :
        (left j : ℕ)
        → j + left ≡ list.current
        → (ks : List PKey) × (free_keys o left j list.privates ≡ some ks) × Frees list j ks
    unfolding free_keys
    free_keys-Frees zero j e = ([], refl, record { count = e; key = λ i h. absurd (omega arith) })
    free_keys-Frees (suc left) j e =
        let (x, is, w) = v.entry j (omega arith) in
        let (ks, r, f) = free_keys-Frees left (j + 1) (omega arith) in
        let at : key_of o list j ≡ some w.key = rw is w.has_key in
        (
          w.key ∷ ks,
          rw (is, w.has_key, r),
          record { count = omega (arith, f.count); key = more_key j w.key ks at f },
        )

  -- On a valid list, free_pk_list ends without a fault, and it frees the key of every entry in use
  -- once, in their order.
  pub free_pk_list-Frees :
      (list : PkList o)
      → IsValid o list
      → (ks : List PKey) × (free_pk_list o (some list) ≡ some ks) × Frees list 0 ks
  unfolding free_pk_list
  free_pk_list-Frees list v = free_keys-Frees list v list.current 0 (omega arith)
