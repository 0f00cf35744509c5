-- ===== src/Tests/Decrypting.antt =====
-- The test cases that decrypt, with a stand-in for RSA: a block has the length of its text and one
-- more, the text, and zeros.
use keyless.Prelude.{
  ℕ, zero, suc, ◌-◌, ◌≤◌, ◌<◌, ◌≡◌, refl, arith, Option, none, some, List, [], ◌∷◌, ◌++◌, Bool,
  true, false, ◌==◌, ◌&&◌, ltb, if◌then◌else◌, length, take, replicate, length-take, inl, inr,
}
use mathlib.Core.Path.{subst}
use keyless.Protocol.{Pointer, ErrorCode, no_error, crypto_failed, ◌>>=◌}
use keyless.Wire.{load}
use keyless.KeyStore.{KeyStore, KeyStoreLaws, Operated}
use keyless.Client.{Session}
use keyless.Client.Laws.{ServerAt}
use keyless.Client.Keyed.{PublicKey}
use keyless.Client.HasKey.{HasKey}
use keyless.Client.Passes.{Passes}
use keyless.Tests.Talking.{late, late_server}

abbrev same_bytes : List ℕ → List ℕ → Bool
same_bytes [] [] = true
same_bytes (a ∷ s) (b ∷ t) = (a == b) && same_bytes s t
same_bytes s t = false

abbrev vault_digest : List ℕ
vault_digest = replicate 32 7

abbrev vault_find : Pointer → Pointer → Option (Option ℕ)
vault_find none (some q) = some (if same_bytes (take 32 q) vault_digest then some 0 else none)
vault_find s d = some none

abbrev unwrap : List ℕ → ErrorCode × List ℕ
unwrap [] = (crypto_failed, [])
unwrap (zero ∷ c) = (crypto_failed, [])
unwrap (suc n ∷ c) = (no_error, take 64 (take n c))

abbrev vault : KeyStore
vault = record {
  count = 1;
  find = vault_find;
  size = λ k. if k == 0 then some 64 else none;
  operation = λ k op len m room. load m len >>= λ c. some (unwrap c);
}

unwrap-Operated : (c : List ℕ) → Operated 64 (unwrap c).0 (unwrap c).1
unwrap-Operated [] = record { fits = omega arith; code = inr refl }
unwrap-Operated (zero ∷ c) = record { fits = omega arith; code = inr refl }
unwrap-Operated (suc n ∷ c) = record {
  fits = omega (arith, length-take 64 (take n c));
  code = inl refl;
}

found_in_use : (b : Bool) (k : ℕ) → (if b then some 0 else none) ≡ some k → k < 1
found_in_use false k h = cc
found_in_use true k h = let e : 0 ≡ k = cc in omega (arith, e)

room_is : (k room : ℕ) → k < 1 → (if k == 0 then some 64 else none) ≡ some room → 64 ≡ room
room_is zero room lt h = cc
room_is (suc k) room lt h = absurd (omega (arith, lt))

vault-KeyStoreLaws : KeyStoreLaws vault
vault-KeyStoreLaws = record {
  find_total = λ ski digest h1 h2. find_total ski digest;
  size_total = λ k lt. (64, ground (arith, lt));
  operation_total = λ k op len room m c lt size l. (
    (unwrap c).0,
    (unwrap c).1,
    rw l refl,
    subst (λ n. Operated n (unwrap c).0 (unwrap c).1) (room_is k room lt size) (unwrap-Operated c),
  );
}
  where
    find_total :
        (ski digest : Pointer)
        → (r : Option ℕ) × (vault_find ski digest ≡ some r) × ((k : ℕ) → r ≡ some k → k < 1)
    find_total none (some q) = (_, refl, found_in_use (same_bytes (take 32 q) vault_digest))
    find_total none none = (none, refl, λ k h. cc)
    find_total (some s) d = (none, refl, λ k h. cc)

abbrev vault_key : PublicKey
vault_key = record {
  digest = vault_digest;
  size = 64;
  encrypt = λ m.
      if ltb 55 (length m)
      then none
      else some (suc (length m) ∷ (m ++ replicate (63 - length m) 0));
}

small_vault : (k room : ℕ) → vault.size k ≡ some room → room ≤ 4096
small_vault zero room h = let e : 64 ≡ room = cc in omega (arith, e)
small_vault (suc k) room h = absurd (ground (arith, h))

abbrev vault_server : ServerAt (late vault) vault true 2
vault_server = late_server vault vault-KeyStoreLaws small_vault

abbrev at_vault : Session (late vault)
at_vault = record { ssl = (true, []); tests = 0 }
