-- ===== src/Keys/Equal.antt =====
-- kssl_private_key.c: constant_time_eq.
use keyless.Prelude.{ℕ, zero, suc, ◌+◌, ◌-◌, ◌/◌, ◌^◌, Option, some, List, get_elem?}
use Prim.Native.Nat.{bit_and, bit_or, bit_xor}
use keyless.Protocol.{◌>>=◌}

-- The loop, with the rounds that are left; a read past an end is a fault.
unfoldable pub gather : ℕ → ℕ → ℕ → List ℕ → List ℕ → Option ℕ
gather zero i z x y = some z
gather (suc left) i z x y = do
  a ← get_elem? x i
  b ← get_elem? y i
  gather left (i + 1) (bit_or z (bit_xor a b)) x y

-- The last four assignments; `~z` is 255 - z in a BYTE.
unfoldable pub collapse : ℕ → ℕ
collapse z =
    let a = 255 - z in
    let b = bit_and a (a / 2 ^ 4) in let c = bit_and b (b / 2 ^ 2) in bit_and c (c / 2 ^ 1)

unfoldable pub constant_time_eq : List ℕ → List ℕ → ℕ → Option ℕ
unfolding gather collapse
constant_time_eq x y len = gather len 0 0 x y >>= λ z. some (collapse z)
