-- ===== src/Protocol/Op.antt =====
-- kssl.h: the values of an opcode item.
use keyless.Prelude.{ℕ}

abbrev pub ping : ℕ
ping = 0xf1

abbrev pub pong : ℕ
pong = 0xf2

abbrev pub rsa_decrypt : ℕ
rsa_decrypt = 0x01

abbrev pub rsa_decrypt_raw : ℕ
rsa_decrypt_raw = 0x08

abbrev pub rsa_sign_md5sha1 : ℕ
rsa_sign_md5sha1 = 0x02

abbrev pub rsa_sign_sha1 : ℕ
rsa_sign_sha1 = 0x03

abbrev pub rsa_sign_sha224 : ℕ
rsa_sign_sha224 = 0x04

abbrev pub rsa_sign_sha256 : ℕ
rsa_sign_sha256 = 0x05

abbrev pub rsa_sign_sha384 : ℕ
rsa_sign_sha384 = 0x06

abbrev pub rsa_sign_sha512 : ℕ
rsa_sign_sha512 = 0x07

abbrev pub ecdsa_sign_md5sha1 : ℕ
ecdsa_sign_md5sha1 = 0x12

abbrev pub ecdsa_sign_sha1 : ℕ
ecdsa_sign_sha1 = 0x13

abbrev pub ecdsa_sign_sha224 : ℕ
ecdsa_sign_sha224 = 0x14

abbrev pub ecdsa_sign_sha256 : ℕ
ecdsa_sign_sha256 = 0x15

abbrev pub ecdsa_sign_sha384 : ℕ
ecdsa_sign_sha384 = 0x16

abbrev pub ecdsa_sign_sha512 : ℕ
ecdsa_sign_sha512 = 0x17

abbrev pub response : ℕ
response = 0xf0

abbrev pub op_error : ℕ
op_error = 0xff
