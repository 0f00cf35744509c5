-- ===== src/Keys/Asked.antt =====
-- What private_key_operation asks of OpenSSL for each opcode of the protocol.
use keyless.Prelude.{
  ℕ, ◌≡◌, ◌≢◌, refl, sym, arith, Option, none, List, inl, inr, false, ◌==◌, ==_iff, Bool-cases,
}
use mathlib.Core.Path.{subst}
use keyless.Protocol.{◌>>=◌}
use keyless.Protocol.Op
use keyless.Protocol.Codes.{has_code, key_codes}
use keyless.Openssl.{
  Openssl, Nid, md5_sha1, sha1_nid, sha224_nid, sha256_nid, sha384_nid, sha512_nid, pkcs1_padding,
  no_padding,
}
use keyless.Keys.{key_output, opcode_to_digest_nid}

-- The opcode that signs with RSA and the one that signs with ECDSA, for each digest
pub data Signs : ℕ → ℕ → Nid → Type 0 where
  with_md5sha1 : Signs Op.rsa_sign_md5sha1 Op.ecdsa_sign_md5sha1 md5_sha1
  with_sha1 : Signs Op.rsa_sign_sha1 Op.ecdsa_sign_sha1 sha1_nid
  with_sha224 : Signs Op.rsa_sign_sha224 Op.ecdsa_sign_sha224 sha224_nid
  with_sha256 : Signs Op.rsa_sign_sha256 Op.ecdsa_sign_sha256 sha256_nid
  with_sha384 : Signs Op.rsa_sign_sha384 Op.ecdsa_sign_sha384 sha384_nid
  with_sha512 : Signs Op.rsa_sign_sha512 Op.ecdsa_sign_sha512 sha512_nid

-- A property of all opcodes, one of which is known
case {ℓ} : (opcode x : ℕ) (P : ℕ → Type ℓ) → P x → (opcode ≢ x → P opcode) → P opcode
case opcode x P h f = elim (Bool-cases (opcode == x)) [
  | inl y ↦ subst P (sym ((==_iff opcode x).0 y)) h
  | inr n ↦ f (λ e. let y = (==_iff opcode x).1 e in cc)
]

module _ (o : Openssl) where
  open o use {PKey}

  -- What an operation with an opcode asks for, with a key and a message: a decryption with the
  -- padding of PKCS #1 or without any, a signature with the opcode's digest, of the key's RSA or
  -- ECDSA part, or nothing, for a code that is no operation.
  pub data IsAsked (k : PKey) (m : List ℕ) (opcode : ℕ) : Option (List ℕ) → Type 0 where
    decrypts :
        opcode ≡ Op.rsa_decrypt
        → IsAsked k m opcode (o.get1_rsa k >>= λ rsa. o.rsa_private_decrypt m rsa pkcs1_padding)
    decrypts_raw :
        opcode ≡ Op.rsa_decrypt_raw
        → IsAsked k m opcode (o.get1_rsa k >>= λ rsa. o.rsa_private_decrypt m rsa no_padding)
    rsa_signs :
        {ecdsa : ℕ} {nid : Nid}
        → Signs opcode ecdsa nid
        → IsAsked k m opcode (o.get1_rsa k >>= λ rsa. o.rsa_sign nid m rsa)
    ecdsa_signs :
        {rsa : ℕ} {nid : Nid}
        → Signs rsa opcode nid
        → IsAsked k m opcode (o.get1_ec_key k >>= λ ec. o.ecdsa_sign nid m ec)
    nothing : has_code key_codes opcode ≡ false → IsAsked k m opcode none

  abbrev Pairs : PKey → List ℕ → ℕ → Type 0
  Pairs k m x = IsAsked k m x (key_output o k x m)

  not_asked :
      (k : PKey) (m : List ℕ) (x : ℕ)
      → x ≢ Op.rsa_decrypt
      → x ≢ Op.rsa_decrypt_raw
      → x ≢ Op.rsa_sign_md5sha1
      → x ≢ Op.rsa_sign_sha1
      → x ≢ Op.rsa_sign_sha224
      → x ≢ Op.rsa_sign_sha256
      → x ≢ Op.rsa_sign_sha384
      → x ≢ Op.rsa_sign_sha512
      → x ≢ Op.ecdsa_sign_md5sha1
      → x ≢ Op.ecdsa_sign_sha1
      → x ≢ Op.ecdsa_sign_sha224
      → x ≢ Op.ecdsa_sign_sha256
      → x ≢ Op.ecdsa_sign_sha384
      → x ≢ Op.ecdsa_sign_sha512
      → Pairs k m x
  unfolding key_output has_code
  not_asked k m x n0 n1 n2 n3 n4 n5 n6 n7 n8 n9 n10 n11 n12 n13 =
      let none_known : has_code key_codes x ≡ false = ground arith in
      let no_output : key_output o k x m ≡ none = ground arith in
      subst (IsAsked k m x) (sym no_output) (nothing none_known)

  pub key_output-IsAsked :
      (k : PKey) (opcode : ℕ) (m : List ℕ) → IsAsked k m opcode (key_output o k opcode m)
  unfolding key_output opcode_to_digest_nid
  key_output-IsAsked k opcode m = case opcode Op.rsa_decrypt (Pairs k m) (decrypts refl) (λ n0.
      case opcode Op.rsa_decrypt_raw (Pairs k m) (decrypts_raw refl) (λ n1.
        case opcode Op.rsa_sign_md5sha1 (Pairs k m) (rsa_signs with_md5sha1) (λ n2.
          case opcode Op.rsa_sign_sha1 (Pairs k m) (rsa_signs with_sha1) (λ n3.
            case opcode Op.rsa_sign_sha224 (Pairs k m) (rsa_signs with_sha224) (λ n4.
              case opcode Op.rsa_sign_sha256 (Pairs k m) (rsa_signs with_sha256) (λ n5.
                case opcode Op.rsa_sign_sha384 (Pairs k m) (rsa_signs with_sha384) (λ n6.
                  case opcode Op.rsa_sign_sha512 (Pairs k m) (rsa_signs with_sha512) (λ n7.
                    case opcode Op.ecdsa_sign_md5sha1 (Pairs k m) (ecdsa_signs with_md5sha1) (λ n8.
                      case opcode Op.ecdsa_sign_sha1 (Pairs k m) (ecdsa_signs with_sha1) (λ n9.
                        case opcode Op.ecdsa_sign_sha224 (Pairs k m) (ecdsa_signs with_sha224)
                          (λ n10.
                            case opcode Op.ecdsa_sign_sha256 (Pairs k m) (ecdsa_signs with_sha256)
                              (λ n11.
                                case opcode Op.ecdsa_sign_sha384 (Pairs k m)
                                  (ecdsa_signs with_sha384)
                                  (λ n12.
                                    case opcode Op.ecdsa_sign_sha512 (Pairs k m)
                                      (ecdsa_signs with_sha512)
                                      (λ n13.
                                        not_asked k m opcode n0 n1 n2 n3 n4 n5 n6 n7 n8 n9 n10 n11
                                          n12 n13))))))))))))))
