-- ===== src/Core/Respond.antt =====
-- kssl_error: the error message that it makes, and what a client reads from it.
use keyless.Prelude.{
  ℕ, ◌+◌, ◌-◌, ◌%◌, ◌≡◌, arith, Option, some, List, [], ◌∷◌, ◌++◌, true, drop, length,
}
use keyless.Protocol.{Header, IsByte, IsDword, no_error, header_size, version_maj, version_min}
use keyless.Protocol.Tag
use keyless.Protocol.Op
use keyless.Wire.{parse_header}
use keyless.Wire.Encoding.{
  Tlv, zeros, encode, encode_item, encode_header, flatten_header-zeros, flatten_item_byte-zeros,
  add_padding-zeros,
}
use keyless.Message.{Operation, parse_message_payload}
use keyless.Message.Request.{Request, Shows, no_request, request_of, apply}
use keyless.Message.RoundTrip.{parse_header-encode, parse-encode}
use keyless.Core.{kssl_error, flatten_error}

abbrev pub error_header : ℕ → Header
error_header id = record {
  version_maj = version_maj;
  version_min = version_min;
  length = 1019;
  id = id;
}

abbrev pub error_items : ℕ → List Tlv
error_items error =
    (Tag.opcode, Op.op_error ∷ [])
    ∷ (Tag.payload, error % 256 ∷ [])
    ∷ (Tag.padding, zeros 1008)
    ∷ []

abbrev pub error_message : ℕ → ℕ → List ℕ
error_message id error = encode_header (error_header id) ++ encode (error_items error)

error_bytes :
    (id error padding : ℕ)
    → (c : Option ℕ) × (flatten_error
          (error_header id)
          error
          padding
          (some (zeros (16 + (3 + padding))))
        ≡ some (
          some (
              ((encode_header (error_header id) ++ encode_item (Tag.opcode, Op.op_error ∷ []))
                ++ encode_item (Tag.payload, error % 256 ∷ []))
              ++ encode_item (Tag.padding, zeros padding)),
          c,
        ))
unfolding flatten_error
error_bytes id error padding =
    let n : ℕ = 16 + (3 + padding) in
    let d0 : List ℕ = encode_header (error_header id) in
    let d1 : List ℕ = d0 ++ encode_item (Tag.opcode, Op.op_error ∷ []) in
    let d2 : List ℕ = d1 ++ encode_item (Tag.payload, error % 256 ∷ []) in
    let e : n - 8 - 4 - 4 ≡ 3 + padding = omega arith in
    (
      some (length d2 + 3),
      rw (
        flatten_header-zeros (error_header id) [] n (omega arith),
        flatten_item_byte-zeros Tag.opcode Op.op_error d0 (n - 8) (omega arith),
        flatten_item_byte-zeros Tag.payload error d1 (n - 8 - 4) (omega arith),
        e,
        add_padding-zeros padding d2,
      ),
    )

-- kssl_error stays inside its buffer, and makes a message of 1027 bytes: the header with the id
-- given, the error opcode, the error as a byte, and 1008 bytes of padding.
pub kssl_error-message :
    (id error : ℕ)
    → kssl_error true true id error
      ≡ some (record { code = no_error; bytes = some (error_message id error); len = 1027 })
unfolding kssl_error
kssl_error-message id error = let (c, e) = error_bytes id error 1008 in rw e

-- What a client reads from an error message: version 1.0, the id given, and an operation that has
-- the error opcode and one byte of payload, the error, and no other field.
pub record IsErrorFor (id error : ℕ) (out : List ℕ) (hb : Header) (ob : Operation) : Type 0 where
  pub header : parse_header (some out) (some hb) ≡ some (no_error, some (error_header id))
  pub operation : Operation
  pub payload :
      parse_message_payload (some (drop header_size out)) 1019 (some ob)
      ≡ some (no_error, some operation)
  pub shows :
      Shows operation (record no_request { opcode = some Op.op_error; payload = some (error ∷ []) })

request_of-error_items :
    (error : ℕ)
    → IsByte error
    → request_of (error_items error) no_request
      ≡ record no_request { opcode = some Op.op_error; payload = some (error ∷ []) }
unfolding request_of apply
request_of-error_items error h = let e : error % 256 ≡ error = omega arith in rw e

pub error_message-IsErrorFor :
    (id error : ℕ) (hb : Header) (ob : Operation)
    → IsDword id
    → IsByte error
    → IsErrorFor id error (error_message id error) hb ob
error_message-IsErrorFor id error hb ob hi he =
    let r : Request = record no_request {
      opcode = some Op.op_error;
      payload = some (error ∷ []);
    } in
    let (op, p, s) =
      parse-encode (error_items error) r ob (omega arith) (request_of-error_items error he) in
    record {
      header =
          parse_header-encode (error_header id) hb (encode (error_items error)) (omega arith)
            (omega arith) (omega arith) hi;
      operation = op;
      payload = p;
      shows = s;
    }

-- kssl_error succeeds where it has memory, for every id and every byte, and a client that reads the
-- 1027 bytes finds the id, the error opcode and the byte.
pub kssl_error-IsErrorFor :
    (id error : ℕ) (hb : Header) (ob : Operation)
    → IsDword id
    → IsByte error
    → (out : List ℕ) × (kssl_error true true id error
        ≡ some (record { code = no_error; bytes = some out; len = 1027 }))
      × IsErrorFor id error out hb ob
kssl_error-IsErrorFor id error hb ob hi he = (
  error_message id error,
  kssl_error-message id error,
  error_message-IsErrorFor id error hb ob hi he,
)
