-- ===== src/Tests/Messages.antt =====
-- Reading and writing messages, at a ping with the payload 1, 2, 3 and a key's SKI.
use keyless.Prelude.{
  ℕ, ◌+◌, ◌-◌, ◌<◌, ◌≡◌, ◌⊎◌, refl, arith, none, some, List, [], ◌∷◌, ◌++◌, true, length, replicate,
  All, if◌then◌else◌,
}
use keyless.Protocol.{Header, ErrorCode, IsByte, no_error, format, header_size}
use keyless.Protocol.Tag
use keyless.Protocol.Op
use keyless.Wire.{load}
use keyless.Wire.Encoding.{Tlv, encode}
use keyless.Message.{
  Operation, zero_operation, items_size, padding_size, flatten_operation, parse_message_payload,
}
use keyless.Message.Request.{Request, Shows, no_request, request_of, apply, is_complete}
use keyless.Message.Flatten.{message, message_size, sent_header, flatten_operation-message}
use keyless.Message.Parse.{parse_message_payload-encode}
use keyless.Message.Accepts.{Accepted, parse_message_payload_total}
use keyless.Message.RoundTrip.{Received, flatten_operation-Received}

abbrev ping_items : List Tlv
ping_items =
    (Tag.opcode, Op.ping ∷ [])
    ∷ (Tag.ski, replicate 20 7)
    ∷ (Tag.payload, 1 ∷ 2 ∷ 3 ∷ [])
    ∷ (Tag.digest, 9 ∷ [])
    ∷ []

abbrev ping_request : Request
ping_request = record {
  opcode = some Op.ping;
  payload = some (1 ∷ 2 ∷ 3 ∷ []);
  ski = some (replicate 20 7);
  digest = none;
  client_ip = none;
}

-- The digest item of one byte is passed over.
ping_items-request : request_of ping_items no_request ≡ ping_request
unfolding request_of apply
ping_items-request = refl

abbrev ping_operation : Operation
ping_operation = record zero_operation {
  is_opcode_set = true;
  opcode = Op.ping;
  is_payload_set = true;
  payload = some (1 ∷ 2 ∷ 3 ∷ []);
  payload_len = 3;
  is_ski_set = true;
  ski = some (replicate 20 7);
}

ping_operation-Shows : Shows ping_operation ping_request
unfolding load
ping_operation-Shows = record {
  opcode = refl;
  payload = refl;
  ski = refl;
  digest = refl;
  client_ip = refl;
}

abbrev ping_header : Header
ping_header = record { version_maj = 1; version_min = 0; length = 0; id = 77 }

flatten_operation-message_example :
    flatten_operation true true (some ping_header) (some ping_operation)
    ≡ some (record {
      code = no_error;
      bytes = some (
          message
            (sent_header ping_header ping_operation)
            ping_request
            (padding_size (header_size + items_size ping_operation)));
      len = message_size ping_operation;
    })
flatten_operation-message_example =
    flatten_operation-message ping_header ping_operation ping_request ping_operation-Shows

small : message_size ping_operation - header_size < 65536
unfolding items_size padding_size
small = omega arith

flatten_operation-Received_example :
    (out : List ℕ) × (flatten_operation true true (some ping_header) (some ping_operation)
      ≡ some (record { code = no_error; bytes = some out; len = message_size ping_operation }))
    × Received ping_header ping_operation ping_request out ping_header zero_operation
flatten_operation-Received_example =
    flatten_operation-Received ping_header ping_operation ping_request ping_header zero_operation
      (omega arith) (omega arith) (omega arith) (omega arith) small ping_operation-Shows

parse_message_payload-encode_example :
    (op : Operation) × (parse_message_payload
        (some (encode ping_items ++ 255 ∷ []))
        (length (encode ping_items))
        (some ping_operation)
      ≡ some
          ((if is_complete (request_of ping_items no_request) then no_error else format), some op))
    × Shows op (request_of ping_items no_request)
parse_message_payload-encode_example =
    parse_message_payload-encode ping_items (255 ∷ []) ping_operation
      (omega arith, (omega arith, (omega arith, (omega arith, tt))))

-- The length of the second item is cut short.
abbrev cut_short : List ℕ
cut_short = Tag.opcode ∷ 0 ∷ 1 ∷ Op.ping ∷ Tag.payload ∷ 0 ∷ []

cut_short-IsByte : All IsByte cut_short
cut_short-IsByte =
    (omega arith, (omega arith, (omega arith, (omega arith, (omega arith, (omega arith, tt))))))

parse_message_payload_total_example :
    (e : ErrorCode) × (op : Operation) × (parse_message_payload
        (some cut_short)
        6
        (some ping_operation)
      ≡ some (e, some op))
    × ((e ≡ format) ⊎ ((e ≡ no_error) × Accepted cut_short 6 op))
parse_message_payload_total_example =
    parse_message_payload_total cut_short 6 ping_operation cut_short-IsByte (omega arith)
