-- ===== src/Protocol/Codes.antt =====
-- kssl.h: the opcodes of the protocol, by what the server is asked to do with them.
use keyless.Prelude.{ℕ, List, [], ◌∷◌, Bool, false, ◌==◌, ◌||◌}

unfoldable pub has_code : List ℕ → ℕ → Bool
has_code [] opcode = false
has_code (c ∷ cs) opcode = let rest = has_code cs opcode in opcode == c || rest

-- KSSL_OP_RESPONSE, KSSL_OP_ERROR and KSSL_OP_PONG, which a server only sends
abbrev pub reply_codes : List ℕ
reply_codes = 0xf0 ∷ 0xff ∷ 0xf2 ∷ []

-- The two ways to decrypt with RSA, and the six digests to sign, with RSA and with ECDSA
abbrev pub key_codes : List ℕ
key_codes =
    0x01 ∷ 0x08 ∷ 0x02 ∷ 0x03 ∷ 0x04 ∷ 0x05 ∷ 0x06 ∷ 0x07 ∷ 0x12 ∷ 0x13 ∷ 0x14 ∷ 0x15 ∷ 0x16 ∷ 0x17
    ∷ []
