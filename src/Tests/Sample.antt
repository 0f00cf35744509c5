-- ===== src/Tests/Sample.antt =====
-- A stand-in for OpenSSL that keeps its laws, and a list of two keys.
use keyless.Prelude.{All-replicate}
use keyless.Prelude.{
  ℕ, zero, suc, ◌+◌, ◌%◌, ◌<◌, ◌≡◌, refl, arith, Option, none, some, List, [], ◌∷◌, true, length,
  length-take, length-replicate, replicate, get_elem?, take, ◌==◌, if◌then◌else◌, some-eq-some,
}
use keyless.Protocol.{IsByte}
use keyless.Openssl.{Openssl, OpensslLaws, rsa_key, ec_key}
use keyless.Keys.{PrivateKey, PkList}
use keyless.Keys.Valid.{IsValid, IsWhole}

abbrev first_byte : List ℕ → Option ℕ
first_byte [] = none
first_byte (b ∷ bs) = some b

-- Key 0 is an RSA key and all others are EC keys; a signature is the first bytes of the message.
abbrev pub toy : Openssl
toy = record {
  PKey = ℕ;
  Rsa = ℕ;
  EcKey = ℕ;
  EcPoint = ℕ;
  EcGroup = ℕ;
  key_type = λ k. if k == 0 then rsa_key else ec_key;
  pkey_size = λ k. 4 + k;
  get1_rsa = λ k. some k;
  get1_ec_key = λ k. some k;
  rsa_check_key = λ r. true;
  x509_pubkey = λ k. some (replicate (k + 1) 3);
  sha1 = λ m. replicate 20 (length m % 256);
  sha256 = λ m. replicate 32 (length m % 256);
  modulus_hex = λ r. some (replicate (r + 5) 65);
  public_key = λ e. some e;
  group = λ e. some e;
  point2hex = λ g e. some (replicate (e + 9) 66);
  rsa_private_decrypt = λ m r p. some (take 4 m);
  rsa_sign = λ d m r. some (take 3 m);
  ecdsa_sign = λ d m e. none;
  pem_read = first_byte;
}

taken_fits : (n k : ℕ) (m out : List ℕ) → some (take n m) ≡ some out → n < 5 → length out < 5 + k
taken_fits n k m out h b = rw (← some-eq-some h) (omega (arith, length-take n m))

pub toy-OpensslLaws : OpensslLaws toy
toy-OpensslLaws = record {
  length-sha1 = λ m. length-replicate 20 (length m % 256);
  length-sha256 = λ m. length-replicate 32 (length m % 256);
  sha1_bytes = λ m. All-replicate IsByte 20 (length m % 256) (omega arith);
  sha256_bytes = λ m. All-replicate IsByte 32 (length m % 256) (omega arith);
  decrypt_fits = λ k r p m out _ h. omega (arith, taken_fits 4 k m out h (omega arith));
  rsa_sign_fits = λ k r d m out _ h. omega (arith, taken_fits 3 k m out h (omega arith));
  ecdsa_sign_fits = λ k e d m out _ h. absurd (no_signature out h);
}
  where
    no_signature : (out : List ℕ) → none ≡ some out → ⊥
    no_signature out h = cc

abbrev pub key_entry : ℕ → PrivateKey toy
key_entry k = record {
  ski = some (replicate 20 k);
  digest = some (replicate 32 (k + 10));
  key = some k;
}

-- Two keys in use, and room for a third.
abbrev pub two_keys : PkList toy
two_keys = record {
  current = 2;
  allocated = 3;
  privates = key_entry 0 ∷ key_entry 1 ∷ record { ski = none; digest = none; key = none } ∷ [];
}

key_entry-IsWhole : (k : ℕ) → k < 2 → IsWhole toy (key_entry k)
key_entry-IsWhole k h = record {
  ski = record {
    value = replicate 20 k;
    is = refl;
    size = length-replicate 20 k;
    bytes = All-replicate IsByte 20 k (omega arith);
  };
  digest = record {
    value = replicate 32 (k + 10);
    is = refl;
    size = length-replicate 32 (k + 10);
    bytes = All-replicate IsByte 32 (k + 10) (omega arith);
  };
  key = k;
  has_key = refl;
}

pub two_keys-IsValid : IsValid toy two_keys
two_keys-IsValid = record { sized = refl; bounded = omega arith; entry = entry }
  where
    entry :
        (j : ℕ)
        → j < 2
        → (e : PrivateKey toy) × (get_elem? two_keys.privates j ≡ some e) × IsWhole toy e
    entry zero h = (key_entry 0, refl, key_entry-IsWhole 0 (omega arith))
    entry (suc zero) h = (key_entry 1, refl, key_entry-IsWhole 1 (omega arith))
    entry (suc (suc j)) h = absurd (omega (arith, h))
