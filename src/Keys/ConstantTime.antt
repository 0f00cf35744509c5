-- ===== src/Keys/ConstantTime.antt =====
-- constant_time_eq answers 1 for equal arrays and 0 for others.
use keyless.Prelude.{
  ℕ, zero, suc, ◌+◌, ◌≤◌, ◌<◌, ◌≡◌, refl, arith, Option, none, some, List, [], ◌∷◌, ◌↔◌, true,
  if◌then◌else◌, ◌==◌, ==_iff, length, take, drop, All, drop_step, length-take, take-take, ap₂, ◌≢◌,
}
use Prim.Native.Nat.{bit_or, bit_xor}
use keyless.Prelude.Bits.{every, every_lem, xor-eq-zero, or-eq-zero}
use keyless.Protocol.{IsByte}
use keyless.Keys.Equal.{gather, collapse, constant_time_eq}

collapse_table : every (λ z. collapse z == (if z == 0 then 1 else 0)) 256 ≡ true
unfolding every collapse
collapse_table = refl

collapse_lem : (z : ℕ) → z < 256 → collapse z ≡ (if z == 0 then 1 else 0)
collapse_lem z h =
    (==_iff (collapse z) _).0
      (every_lem (λ z. collapse z == (if z == 0 then 1 else 0)) 256 z h collapse_table)

collapse_one : (z : ℕ) → z < 256 → (collapse z ≡ 1) ↔ (z ≡ 0)
collapse_one z h = ground (arith, collapse_lem z h)

collapse_zero : (z : ℕ) → z < 256 → (collapse z ≡ 0) ↔ (z ≢ 0)
collapse_zero z h = ground (arith, collapse_lem z h)

-- The loop over two lists of bytes, without indices.
differences : ℕ → ℕ → List ℕ → List ℕ → Option ℕ
differences zero z x y = some z
differences (suc n) z (a ∷ x) (b ∷ y) = differences n (bit_or z (bit_xor a b)) x y
differences (suc n) z _ _ = none

gather-differences :
    (n i z : ℕ) (x y : List ℕ)
    → i + n ≤ length x
    → i + n ≤ length y
    → gather n i z x y ≡ differences n z (drop i x) (drop i y)
unfolding gather differences
gather-differences zero i z x y hx hy = refl
gather-differences (suc n) i z x y hx hy =
    let (a, ea, da) = drop_step x i (omega arith) in
    let (b, eb, db) = drop_step y i (omega arith) in
    rw (ea, eb, da, db)
      (gather-differences n (i + 1) (bit_or z (bit_xor a b)) x y (omega arith) (omega arith))

uncons {ℓ} :
    {A : Type ℓ} {P : Type 0} {a b : A} {x y : List A} → P × (a ∷ x ≡ b ∷ y) → P × (a ≡ b) × (x ≡ y)
uncons (p, e) = (p, cc, cc)

-- What is gathered is a byte, and 0 just if it was 0 before and the bytes are the same.
differences_lem :
    (n z : ℕ) (x y : List ℕ)
    → IsByte z
    → All IsByte x
    → All IsByte y
    → n ≤ length x
    → n ≤ length y
    → (w : ℕ) × (differences n z x y ≡ some w)
      × IsByte w
      × ((w ≡ 0) ↔ ((z ≡ 0) × (take n x ≡ take n y)))
unfolding differences
differences_lem zero z x y hz wx wy hx hy = (z, refl, hz, (λ e. (e, refl), λ p. p.0))
differences_lem (suc n) z [] y hz wx wy hx hy = absurd (omega arith)
differences_lem (suc n) z (a ∷ x) [] hz wx wy hx hy = absurd (omega arith)
differences_lem (suc n) z (a ∷ x) (b ∷ y) hz wx wy hx hy =
    let (xb, xz) = xor-eq-zero a b wx.0 wy.0 in
    let (ob, oz) = or-eq-zero z (bit_xor a b) hz xb in
    let (w, e, hw, q) =
      differences_lem n (bit_or z (bit_xor a b)) x y ob wx.1 wy.1 (omega arith) (omega arith) in
    (
      w,
      e,
      hw,
      (
        λ w0. let p = q.0 w0 in let r = oz.0 p.0 in (r.0, ap₂ ◌∷◌ (xz.0 r.1) p.1),
        λ p. let (same, heads, tails) = uncons p in q.1 (oz.1 (same, xz.1 heads), tails),
      ),
    )

differences-take :
    (n z : ℕ) (x y : List ℕ) → differences n z x y ≡ differences n z (take n x) (take n y)
unfolding differences
differences-take zero z x y = refl
differences-take (suc n) z [] y = refl
differences-take (suc n) z (a ∷ x) [] = refl
differences-take (suc n) z (a ∷ x) (b ∷ y) = differences-take n (bit_or z (bit_xor a b)) x y

-- constant_time_eq reads inside its two buffers, and returns 1 if their first `len` bytes are the
-- same, and 0 if they are not.
pub constant_time_eq_lem :
    (x y : List ℕ) (len : ℕ)
    → All IsByte (take len x)
    → All IsByte (take len y)
    → len ≤ length x
    → len ≤ length y
    → (r : ℕ) × (constant_time_eq x y len ≡ some r)
      × ((r ≡ 1) ↔ (take len x ≡ take len y))
      × ((r ≡ 0) ↔ (take len x ≢ take len y))
unfolding constant_time_eq
constant_time_eq_lem x y len wx wy hx hy =
    let (w, e, hw, q) =
      differences_lem len 0 (take len x) (take len y) (omega arith) wx wy
        (omega (arith, length-take len x)) (omega (arith, length-take len y)) in
    let same : (w ≡ 0) ↔ (◌≡◌ {A = ℕ} 0 0 × (take len x ≡ take len y)) =
      rw (take-take len x, take-take len y) at q in
    (
      collapse w,
      rw (
        gather-differences len 0 0 x y (omega arith) (omega arith),
        differences-take len 0 x y,
        e,
      ),
      ((λ h. (same.0 ((collapse_one w hw).0 h)).1), λ h. (collapse_one w hw).1 (same.1 (refl, h))),
      (
        (λ h t. (collapse_zero w hw).0 h (same.1 (refl, t))),
        λ n. (collapse_zero w hw).1 (λ z. n (same.0 z).1),
      ),
    )
