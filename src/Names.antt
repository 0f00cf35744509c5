-- ===== src/Names.antt =====
-- kssl_helpers.c: opstring, errstring and print_ip, for opcodes, errors and addresses in the log.
pub mod Distinct
pub mod Address
use Prim.Native.String.{String}
use keyless.Prelude.{Option, none, some, List, [], ℕ, ◌==◌, if◌then◌else◌}
use keyless.Protocol.{◌>>=◌}
use keyless.Protocol.Op
use keyless.Wire.{load}
use keyless.Message.{Operation}

unfoldable pub opstring : ℕ → String
opstring op =
    if op == Op.op_error
    then "KSSL_OP_ERROR"
    else if op == Op.ping
    then "KSSL_OP_PING"
    else if op == Op.pong
    then "KSSL_OP_PONG"
    else if op == Op.rsa_decrypt
    then "KSSL_OP_RSA_DECRYPT"
    else if op == Op.rsa_decrypt_raw
    then "KSSL_OP_RSA_DECRYPT_RAW"
    else if op == Op.response
    then "KSSL_OP_RESPONSE"
    else if op == Op.rsa_sign_md5sha1
    then "KSSL_OP_RSA_SIGN_MD5SHA1"
    else if op == Op.rsa_sign_sha1
    then "KSSL_OP_RSA_SIGN_SHA1"
    else if op == Op.rsa_sign_sha224
    then "KSSL_OP_RSA_SIGN_SHA224"
    else if op == Op.rsa_sign_sha256
    then "KSSL_OP_RSA_SIGN_SHA256"
    else if op == Op.rsa_sign_sha384
    then "KSSL_OP_RSA_SIGN_SHA384"
    else if op == Op.rsa_sign_sha512
    then "KSSL_OP_RSA_SIGN_SHA512"
    else if op == Op.ecdsa_sign_md5sha1
    then "KSSL_OP_ECDSA_SIGN_MD5SHA1"
    else if op == Op.ecdsa_sign_sha1
    then "KSSL_OP_ECDSA_SIGN_SHA1"
    else if op == Op.ecdsa_sign_sha224
    then "KSSL_OP_ECDSA_SIGN_SHA224"
    else if op == Op.ecdsa_sign_sha256
    then "KSSL_OP_ECDSA_SIGN_SHA256"
    else if op == Op.ecdsa_sign_sha384
    then "KSSL_OP_ECDSA_SIGN_SHA384"
    else if op == Op.ecdsa_sign_sha512
    then "KSSL_OP_ECDSA_SIGN_SHA512"
    else "UNKNOWN"

unfoldable pub errstring : ℕ → String
errstring err =
    if err == 0x00
    then "KSSL_ERROR_NONE"
    else if err == 0x01
    then "KSSL_ERROR_CRYPTO_FAILED"
    else if err == 0x02
    then "KSSL_ERROR_KEY_NOT_FOUND"
    else if err == 0x03
    then "KSSL_ERROR_READ"
    else if err == 0x04
    then "KSSL_ERROR_VERSION_MISMATCH"
    else if err == 0x05
    then "KSSL_ERROR_BAD_OPCODE"
    else if err == 0x06
    then "KSSL_ERROR_UNEXPECTED_OPCODE"
    else if err == 0x07
    then "KSSL_ERROR_FORMAT"
    else if err == 0x08
    then "KSSL_ERROR_INTERNAL"
    else "UNKNOWN"

-- What is put in `ip_string`, which was empty; the arguments are inet_ntop for the two families.
unfoldable pub print_ip : (List ℕ → List ℕ) → (List ℕ → List ℕ) → Option Operation → Option (List ℕ)
unfolding load
print_ip inet inet6 none = some []
print_ip inet inet6 (some op) =
    if op.is_ip_set
    then (if op.ip_len == 4
        then (load op.ip 4 >>= λ a. some (inet a))
        else if op.ip_len == 16
        then (load op.ip 16 >>= λ a. some (inet6 a))
        else some [])
    else some []
