-- ===== src/Client/Keyed.antt =====
-- testclient.c: the test cases that decrypt with a key of the server, over OpenSSL's functions on the
-- public key as a parameter.
use keyless.Prelude.{
  zero, suc, ℕ, ◌+◌, ◌-◌, ◌/◌, ◌%◌, Option, none, some, List, [], ◌∷◌, ◌++◌, true, ltb, ◌==◌,
  if◌then◌else◌, length, drop, replicate,
}
use keyless.Protocol.{crypto_failed, key_not_found, version_maj}
use keyless.Protocol.{Header}
use keyless.Protocol.Op
use keyless.Message.{Operation, parse_message_payload}
use keyless.Client.{Outcome, returns, exits, ◌>>=◌, Peer, Session, fault_if_none, test_assert, kssl}
use keyless.Client.Cases.{parsed_resp, pointers_equal, request, with_version, same_id, is_error}

-- What digest_public_rsa, RSA_size and RSA_public_encrypt with PKCS1 padding make of the key; the
-- last gives nothing where it returns -1.
pub record PublicKey : Type 0 where
  pub digest : List ℕ
  pub size : ℕ
  pub encrypt : List ℕ → Option (List ℕ)

abbrev pub ipv6 : List ℕ
ipv6 = 0x0 ∷ 0xf2 ∷ 0x13 ∷ 0x48 ∷ 0x43 ∷ 0x01 ∷ replicate 10 0

abbrev pub ipv4 : List ℕ
ipv4 = 127 ∷ 0 ∷ 0 ∷ 1 ∷ []

abbrev pub invisible : List ℕ
invisible =
    73 ∷ 116 ∷ 32 ∷ 119 ∷ 97 ∷ 115 ∷ 32 ∷ 116 ∷ 111 ∷ 116 ∷ 97 ∷ 108 ∷ 108 ∷ 121 ∷ 32 ∷ 105 ∷ 110
    ∷ 118 ∷ 105 ∷ 115 ∷ 105 ∷ 98 ∷ 108 ∷ 101 ∷ 44 ∷ 32 ∷ 104 ∷ 111 ∷ 119 ∷ 39 ∷ 115 ∷ 32 ∷ 116 ∷ 104
    ∷ 97 ∷ 116 ∷ 32 ∷ 112 ∷ 111 ∷ 115 ∷ 115 ∷ 105 ∷ 98 ∷ 108 ∷ 101 ∷ 63 ∷ []

-- A digit of %x
unfoldable pub hex_digit : ℕ → ℕ
hex_digit n = if ltb n 10 then 48 + n else 87 + n

-- The digits of %x for a number that has no more than `k`, before other text
unfoldable pub hex_before : ℕ → ℕ → List ℕ → List ℕ
hex_before zero n text = text
hex_before (suc k) n text =
    let more = hex_before k (n / 16) (hex_digit (n % 16) ∷ text) in if n == 0 then text else more

-- The text of kssl_op_rsa_decrypt: %02x of a count of 32 bits, and the rest
unfoldable pub kryptos2 : ℕ → List ℕ
unfolding hex_before
kryptos2 count =
    hex_before 6 (count / 256)
      (hex_digit (count / 16 % 16) ∷ hex_digit (count % 16) ∷ 32 ∷ invisible)

-- `digest[0] ^= 0xff`
abbrev pub flip_first : List ℕ → List ℕ
flip_first [] = []
flip_first (b ∷ bs) = (255 - b) ∷ bs

abbrev pub keyed_request : List ℕ → ℕ → List ℕ → Operation
keyed_request digest len payload = record (request Op.rsa_decrypt) {
  is_digest_set = true;
  digest = some digest;
  payload_len = len;
  payload = some payload;
}

abbrev pub with_ip : List ℕ → Operation → Operation
with_ip ip op = record op { is_ip_set = true; ip = some ip; ip_len = length ip }

abbrev or_exit : Option (List ℕ) → Outcome (List ℕ)
or_exit none = exits
or_exit (some c) = returns c

-- RSA_public_encrypt, or the end of the program
abbrev pub encrypted : PublicKey → List ℕ → Outcome (List ℕ)
encrypted key text = or_exit (key.encrypt text)

-- `memory` is what malloc gave for the payload; its end stays where the encryption is shorter.
module _ (p : Peer) (fuel : ℕ) (resp : Operation) (key : PublicKey) where
  unfoldable pub kssl_op_rsa_decrypt : ℕ → ℕ → ℕ → List ℕ → Session p → Outcome (Session p)
  unfolding parsed_resp test_assert
  kssl_op_rsa_decrypt min len count memory s = do
    let decrypt : Header = with_version version_maj min len 0x1234567a
    c ← encrypted key (kryptos2 count)
    let payload : List ℕ = c ++ drop (length c) memory
    (h, s) ← kssl p fuel s decrypt (with_ip ipv6 (keyed_request key.digest key.size payload))
    s ← same_id p decrypt h s
    resp ← parsed_resp (parse_message_payload h.contents h.header.length (some resp))
    s ← test_assert p (resp.opcode == Op.response) s
    s ← test_assert p (resp.payload_len == length (kryptos2 count)) s
    equal ←
        fault_if_none
          (pointers_equal (length (kryptos2 count)) resp.payload (some (kryptos2 count ++ 0 ∷ [])))
    test_assert p equal s

  unfoldable pub kssl_op_rsa_decrypt_bad_data : ℕ → ℕ → List ℕ → Session p → Outcome (Session p)
  kssl_op_rsa_decrypt_bad_data min len memory s = do
    let decrypt : Header = with_version version_maj min len 0x1234567a
    c ← encrypted key invisible
    let payload : List ℕ = replicate (length c) 0 ++ drop (length c) memory
    (h, s) ← kssl p fuel s decrypt (with_ip ipv4 (keyed_request key.digest key.size payload))
    s ← same_id p decrypt h s
    is_error p resp crypto_failed h s

  unfoldable pub kssl_op_rsa_decrypt_bad_digest : ℕ → ℕ → List ℕ → Session p → Outcome (Session p)
  kssl_op_rsa_decrypt_bad_digest min len memory s = do
    let decrypt : Header = with_version version_maj min len 0x1234567a
    c ← encrypted key invisible
    let payload : List ℕ = c ++ drop (length c) memory
    (h, s) ← kssl p fuel s decrypt (keyed_request (flip_first key.digest) key.size payload)
    s ← same_id p decrypt h s
    is_error p resp key_not_found h s

  -- The three of them, as main runs them on one connection
  unfoldable pub decrypt_tests : (ℕ → ℕ) → (ℕ → ℕ) → ℕ → List ℕ → Session p → Outcome (Session p)
  decrypt_tests min len count memory s = do
    s ← kssl_op_rsa_decrypt (min 0) (len 0) count memory s
    s ← kssl_op_rsa_decrypt_bad_data (min 1) (len 1) memory s
    kssl_op_rsa_decrypt_bad_digest (min 2) (len 2) memory s
