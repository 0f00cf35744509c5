-- ===== src/Openssl.antt =====
-- What the program takes from OpenSSL for its keys: the functions that kssl_private_key.c calls,
-- as parameters, and the documented facts that it relies on. `none` stands for NULL, or for the
-- return value that signals failure.
use keyless.Prelude.{ℕ, ◌≤◌, ◌≡◌, Bool, Option, some, List, length, All}
use keyless.Protocol.{IsByte, ski_size, digest_size}

-- key->type
pub data KeyType : Type 0 where
  rsa_key ec_key other_key : KeyType

pub data Padding : Type 0 where
  pkcs1_padding no_padding : Padding

-- The digests' NIDs, and the 0 of an opcode that has none.
pub data Nid : Type 0 where
  no_nid md5_sha1 sha1_nid sha224_nid sha256_nid sha384_nid sha512_nid : Nid

pub record Openssl : Type 1 where
  pub PKey : Type 0
  pub Rsa : Type 0
  pub EcKey : Type 0
  pub EcPoint : Type 0
  pub EcGroup : Type 0
  pub key_type : PKey → KeyType
  -- EVP_PKEY_size
  pub pkey_size : PKey → ℕ
  -- EVP_PKEY_get1_RSA and EVP_PKEY_get1_EC_KEY
  pub get1_rsa : PKey → Option Rsa
  pub get1_ec_key : PKey → Option EcKey
  pub rsa_check_key : Rsa → Bool
  -- X509_PUBKEY_set, and the public key's bytes
  pub x509_pubkey : PKey → Option (List ℕ)
  pub sha1 : List ℕ → List ℕ
  pub sha256 : List ℕ → List ℕ
  -- BN_bn2hex of the modulus
  pub modulus_hex : Rsa → Option (List ℕ)
  pub public_key : EcKey → Option EcPoint
  pub group : EcKey → Option EcGroup
  -- EC_POINT_point2hex, compressed
  pub point2hex : EcGroup → EcPoint → Option (List ℕ)
  pub rsa_private_decrypt : List ℕ → Rsa → Padding → Option (List ℕ)
  pub rsa_sign : Nid → List ℕ → Rsa → Option (List ℕ)
  pub ecdsa_sign : Nid → List ℕ → EcKey → Option (List ℕ)
  -- PEM_read_bio_PrivateKey, on the bytes that the BIO gives
  pub pem_read : List ℕ → Option PKey

-- A SHA-1 digest is 20 bytes and a SHA-256 digest 32. The output of RSA_private_decrypt, RSA_sign
-- and ECDSA_sign fits a buffer of EVP_PKEY_size bytes.
pub record OpensslLaws (o : Openssl) : Type 0 where
  pub length-sha1 : (m : List ℕ) → length (o.sha1 m) ≡ ski_size
  pub length-sha256 : (m : List ℕ) → length (o.sha256 m) ≡ digest_size
  pub sha1_bytes : (m : List ℕ) → All IsByte (o.sha1 m)
  pub sha256_bytes : (m : List ℕ) → All IsByte (o.sha256 m)
  pub decrypt_fits :
      (k : o.PKey) (r : o.Rsa) (p : Padding) (m out : List ℕ)
      → o.get1_rsa k ≡ some r
      → o.rsa_private_decrypt m r p ≡ some out
      → length out ≤ o.pkey_size k
  pub rsa_sign_fits :
      (k : o.PKey) (r : o.Rsa) (d : Nid) (m out : List ℕ)
      → o.get1_rsa k ≡ some r
      → o.rsa_sign d m r ≡ some out
      → length out ≤ o.pkey_size k
  pub ecdsa_sign_fits :
      (k : o.PKey) (e : o.EcKey) (d : Nid) (m out : List ℕ)
      → o.get1_ec_key k ≡ some e
      → o.ecdsa_sign d m e ≡ some out
      → length out ≤ o.pkey_size k
