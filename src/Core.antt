-- ===== src/Core.antt =====
-- kssl_core.c: the server's answer to one message.
pub mod Reacts
pub mod Answer
pub mod Respond
pub mod Serve
pub mod Oversize
use keyless.Prelude.{
  ℕ, ◌+◌, ◌-◌, ◌%◌, Option, none, some, List, [], ◌∷◌, Bool, true, false, ◌||◌, ltb, ◌==◌,
  if◌then◌else◌, length, replicate,
}
use keyless.Protocol.{
  Pointer, Header, ErrorCode, no_error, crypto_failed, key_not_found, bad_opcode, unexpected_opcode,
  format, internal, error_byte, header_size, item_header_size, opcode_item_size, error_item_size,
  version_maj, version_min, pad_to, ◌>>=◌,
}
use keyless.Protocol.Tag
use keyless.Protocol.Op
use keyless.Wire.{flatten_header, flatten_item_byte, add_padding}
use keyless.Message.{
  Operation, zero_operation, Output, no_output, Chain, write_if, padding_size, flatten_operation,
  parse_message_payload,
}
use keyless.KeyStore.{KeyStore}

-- `size += padding_size + KSSL_ITEM_HEADER_SIZE`
abbrev pub error_size : ℕ
error_size = header_size + opcode_item_size + error_item_size

unfoldable pub flatten_error : Header → ℕ → ℕ → Pointer → Option Chain
flatten_error e error padding b = do
  c ← write_if true (flatten_header (some e)) (b, some 0)
  c ← write_if true (flatten_item_byte Tag.opcode Op.op_error) c
  c ← write_if true (flatten_item_byte Tag.payload error) c
  write_if true (add_padding padding) c

-- `outs` says that neither out parameter is NULL, and `calloc_ok` that the allocation succeeds.
unfoldable pub kssl_error : Bool → Bool → ℕ → ℕ → Option Output
unfolding flatten_error padding_size
kssl_error false calloc_ok id error = some (no_output internal)
kssl_error true false id error = some (no_output internal)
kssl_error true true id error =
    let padding = padding_size error_size in
    let size = error_size + (padding + item_header_size) in
    let e : Header = record {
      version_maj = version_maj;
      version_min = version_min;
      length = (size - header_size) % 65536;
      id = id;
    } in
    flatten_error e error padding (some (replicate size 0)) >>= λ c.
    some (record { code = no_error; bytes = c.0; len = size })

-- The opcodes of the switch's cases.
unfoldable pub is_reply : ℕ → Bool
is_reply op = op == Op.response || op == Op.op_error || op == Op.pong

unfoldable pub is_key_operation : ℕ → Bool
is_key_operation op =
    op == Op.rsa_decrypt
    || op == Op.rsa_decrypt_raw
    || op == Op.rsa_sign_md5sha1
    || op == Op.rsa_sign_sha1
    || op == Op.rsa_sign_sha224
    || op == Op.rsa_sign_sha256
    || op == Op.rsa_sign_sha384
    || op == Op.rsa_sign_sha512
    || op == Op.ecdsa_sign_md5sha1
    || op == Op.ecdsa_sign_sha1
    || op == Op.ecdsa_sign_sha224
    || op == Op.ecdsa_sign_sha256
    || op == Op.ecdsa_sign_sha384
    || op == Op.ecdsa_sign_sha512

-- The switch's result: the code, and the response operation, zero where the code is an error.
abbrev pub Reply : Type 0
Reply = ErrorCode × Operation

abbrev pub refused : ErrorCode → Option Reply
refused e = some (e, zero_operation)

abbrev pub response_with : ℕ → ℕ → Pointer → Operation
response_with opcode len payload = record zero_operation {
  is_payload_set = true;
  payload = payload;
  payload_len = len;
  is_opcode_set = true;
  opcode = opcode;
}

-- The result of find_private_key, or the error where the request names no key.
unfoldable pub find_key : KeyStore → Operation → Option (ErrorCode × Option ℕ)
find_key ks request =
    if request.is_ski_set
    then (ks.find request.ski none >>= λ k. some (key_not_found, k))
    else if request.is_digest_set
    then (ks.find none request.digest >>= λ k. some (key_not_found, k))
    else some (format, none)

-- The code of private_key_operation is not passed on: a failure is KSSL_ERROR_CRYPTO_FAILED.
unfoldable pub respond : ErrorCode × List ℕ → Option Reply
respond (no_error, out) = some (no_error, response_with Op.response (length out % 65536) (some out))
respond (e, out) = refused crypto_failed

unfoldable pub use_key : KeyStore → Bool → Operation → ErrorCode × Option ℕ → Option Reply
unfolding respond
use_key ks malloc_ok request (e, none) = refused e
use_key ks malloc_ok request (e, some key_id) = do
  room ← ks.size key_id
  if malloc_ok
      then (ks.operation key_id request.opcode request.payload_len request.payload room >>= respond)
      else refused internal

unfoldable pub answer : KeyStore → Bool → Operation → Option Reply
unfolding find_key use_key is_reply is_key_operation
answer ks malloc_ok request =
    if is_reply request.opcode
    then refused unexpected_opcode
    else if request.opcode == Op.ping
    then some (no_error, response_with Op.pong request.payload_len request.payload)
    else if is_key_operation request.opcode
    then (find_key ks request >>= use_key ks malloc_ok request)
    else refused bad_opcode

-- What follows the parse, up to the label `exit`.
unfoldable pub reply_to : KeyStore → Bool → ErrorCode × Option Operation → Option Reply
unfolding answer
reply_to ks malloc_ok (no_error, some request) = answer ks malloc_ok request
reply_to ks malloc_ok (no_error, none) = none
reply_to ks malloc_ok (e, request) = refused e

-- What follows the label `exit`.
unfoldable pub send : Bool → Header → Reply → Option Output
unfolding kssl_error
send calloc_ok header (no_error, response) =
    flatten_operation true calloc_ok
      (some (record {
        version_maj = version_maj;
        version_min = version_min;
        length = 0;
        id = header.id;
      }))
      (some response)
send calloc_ok header (e, response) = kssl_error true calloc_ok header.id (error_byte e)

-- `malloc_ok` is for the buffer of the key's output, `calloc_ok` for that of the response.
unfoldable pub kssl_operate : KeyStore → Bool → Bool → Header → Pointer → Option Output
unfolding reply_to send
kssl_operate ks malloc_ok calloc_ok header payload = do
  parsed ← parse_message_payload payload header.length (some zero_operation)
  reply ← reply_to ks malloc_ok parsed
  send calloc_ok header reply
