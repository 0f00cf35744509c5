-- ===== src/Prelude/Bits.antt =====
-- The bit operations on bytes: facts that are checked at every pair of bytes by evaluation.
use Prim.Native.Nat.{ℕ, zero, suc, ◌<◌, bit_or, bit_xor}
use mathlib.Core.Path.{◌≡◌, refl}
use mathlib.Core.Logic.{◌↔◌}
use mathlib.Core.Bool.{Bool, true, false, ◌&&◌}
use native.Mathlib.Omega.{arith}
use keyless.Prelude.Tests.{ltb, ◌==◌, if◌then◌else◌}

-- The test holds of every number under the bound.
unfoldable pub every : (ℕ → Bool) → ℕ → Bool
every test zero = true
every test (suc bound) = elim (test bound) [ true ↦ every test bound | false ↦ false ]

pub every_lem :
    (test : ℕ → Bool) (bound v : ℕ) → v < bound → every test bound ≡ true → test v ≡ true
unfolding every
every_lem test zero v small e = absurd (omega arith)
every_lem test (suc bound) v small e = ground (arith, every_lem test bound v)

-- Exclusive or gives a byte, and 0 just for equal bytes.
abbrev xor_test : ℕ → ℕ → Bool
xor_test a b =
    ltb (bit_xor a b) 256 && (if bit_xor a b == 0 then a == b else (if a == b then false else true))

xor_table : every (λ a. every (xor_test a) 256) 256 ≡ true
unfolding every
xor_table = refl

pub xor-eq-zero :
    (a b : ℕ) → a < 256 → b < 256 → (bit_xor a b < 256) × ((bit_xor a b ≡ 0) ↔ (a ≡ b))
xor-eq-zero a b ha hb =
    let t : xor_test a b ≡ true =
      every_lem (xor_test a) 256 b hb
        (every_lem (λ x. every (xor_test x) 256) 256 a ha xor_table) in
    ground arith

abbrev or_test : ℕ → ℕ → Bool
or_test a b =
    ltb (bit_or a b) 256
    && (if bit_or a b == 0
        then (a == 0 && b == 0)
        else (if (a == 0 && b == 0) then false else true))

or_table : every (λ a. every (or_test a) 256) 256 ≡ true
unfolding every
or_table = refl

pub or-eq-zero :
    (a b : ℕ) → a < 256 → b < 256 → (bit_or a b < 256) × ((bit_or a b ≡ 0) ↔ ((a ≡ 0) × (b ≡ 0)))
or-eq-zero a b ha hb =
    let t : or_test a b ≡ true =
      every_lem (or_test a) 256 b hb (every_lem (λ x. every (or_test x) 256) 256 a ha or_table) in
    ground arith
