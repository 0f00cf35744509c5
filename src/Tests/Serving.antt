-- ===== src/Tests/Serving.antt =====
-- The server's answers, over a list of two keys.
use keyless.Prelude.{
  drop, length, length-replicate, ◌+◌, ℕ, ◌≡◌, refl, arith, some, List, [], ◌∷◌, true, replicate,
  All,
}
use keyless.Protocol.{header_size, Header, IsByte, no_error, error_byte, key_not_found}
use keyless.Protocol.Tag
use keyless.Protocol.Op
use keyless.KeyStore.{KeyStore, KeyStoreLaws}
use keyless.Wire.{load, parse_header}
use keyless.Message.{Operation, zero_operation}
use keyless.Message.Request.{Request, Shows, no_request}
use keyless.Message.Bytes.{RequestBytes}
use keyless.Keys.Operate.{key_store, key_store-KeyStoreLaws}
use keyless.Core.{kssl_error, kssl_operate}
use keyless.Core.Reacts.{Answered}
use keyless.Core.Answer.{answer-Answered}
use keyless.Core.Respond.{IsErrorFor, kssl_error-IsErrorFor}
use keyless.Core.Oversize.{ping_items, kssl_operate-Oversize}
use keyless.Wire.Encoding.{encode}
use keyless.Core.Serve.{Served, response_header, kssl_operate-Served}
use keyless.Tests.Sample.{toy, toy-OpensslLaws, two_keys, two_keys-IsValid}

abbrev pub store_of_two : KeyStore
store_of_two = key_store toy toy-OpensslLaws two_keys

pub store_of_two-KeyStoreLaws : KeyStoreLaws store_of_two
store_of_two-KeyStoreLaws = key_store-KeyStoreLaws toy toy-OpensslLaws two_keys two_keys-IsValid

abbrev sign_operation : Operation
sign_operation = record zero_operation {
  is_opcode_set = true;
  opcode = Op.rsa_sign_sha256;
  is_payload_set = true;
  payload = some (1 ∷ 2 ∷ 3 ∷ 4 ∷ []);
  payload_len = 4;
  is_ski_set = true;
  ski = some (replicate 20 1);
}

abbrev sign_request : Request
sign_request = record no_request {
  opcode = some Op.rsa_sign_sha256;
  payload = some (1 ∷ 2 ∷ 3 ∷ 4 ∷ []);
  ski = some (replicate 20 1);
}

sign_operation-Shows : Shows sign_operation sign_request
unfolding load
sign_operation-Shows = record {
  opcode = refl;
  payload = refl;
  ski = refl;
  digest = refl;
  client_ip = refl;
}

sign_request-RequestBytes : RequestBytes sign_request
sign_request-RequestBytes = record {
  payload = ground arith;
  ski = ground arith;
  digest = tt;
  client_ip = tt;
}

answer-Answered_example : Answered store_of_two true sign_operation sign_request
answer-Answered_example =
    answer-Answered store_of_two store_of_two-KeyStoreLaws true sign_operation sign_request
      sign_operation-Shows sign_request-RequestBytes refl

kssl_error-IsErrorFor_example :
    (out : List ℕ) × (kssl_error true true 77 (error_byte key_not_found)
      ≡ some (record { code = no_error; bytes = some out; len = 1027 }))
    × IsErrorFor 77 (error_byte key_not_found) out (response_header 0) zero_operation
unfolding error_byte
kssl_error-IsErrorFor_example =
    kssl_error-IsErrorFor 77 (error_byte key_not_found) (response_header 0) zero_operation
      (omega arith) (omega arith)

-- An opcode item (ping) and a payload of two bytes.
abbrev pub ping_bytes : List ℕ
ping_bytes = Tag.opcode ∷ 0 ∷ 1 ∷ Op.ping ∷ Tag.payload ∷ 0 ∷ 2 ∷ 5 ∷ 6 ∷ []

abbrev pub ping_header : Header
ping_header = record { version_maj = 1; version_min = 0; length = 9; id = 77 }

pub ping_bytes-IsByte : All IsByte ping_bytes
ping_bytes-IsByte = ground arith

kssl_operate-Served_example : Served store_of_two true ping_header ping_bytes
kssl_operate-Served_example =
    kssl_operate-Served store_of_two true ping_header ping_bytes store_of_two-KeyStoreLaws
      ping_bytes-IsByte (omega arith)

abbrev long_payload : List ℕ
long_payload = replicate 65526 5

abbrev long_header : Header
long_header = record {
  version_maj = 1;
  version_min = 0;
  length = length (encode (ping_items long_payload));
  id = 77;
}

long_payload-length : length long_payload ≡ 65526
long_payload-length = length-replicate {A = ℕ} 65526 5

kssl_operate-Oversize_example :
    (out : List ℕ) × (len : ℕ) × (kssl_operate store_of_two true true long_header
        (some (encode (ping_items long_payload)))
      ≡ some (record { code = no_error; bytes = some out; len = length long_payload + 18 }))
    × (parse_header (some out) (some ping_header)
        ≡ some (no_error, some (record (response_header 77) { length = len })))
    × (length (drop header_size out) ≡ len + 65536)
kssl_operate-Oversize_example =
    kssl_operate-Oversize store_of_two true long_header long_payload ping_header
      (omega (arith, long_payload-length)) (omega (arith, long_payload-length)) refl (omega arith)
