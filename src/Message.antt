-- ===== src/Message.antt =====
-- kssl_helpers.c: an operation, and the functions that write one as a message and read one from a
-- message's payload.
pub mod Request
pub mod Flatten
pub mod Items
pub mod Parse
pub mod Accepts
pub mod Bytes
pub mod RoundTrip
use keyless.Prelude.{
  ℕ, zero, suc, ◌+◌, ◌-◌, ◌%◌, Option, none, some, List, [], Bool, true, false, ◌||◌, not, ltb,
  ◌==◌, if◌then◌else◌, get_elem?, replicate,
}
use keyless.Protocol.{
  Pointer, Header, Item, ErrorCode, no_error, internal, format, header_size, item_header_size,
  opcode_item_size, ski_size, digest_size, pad_to, ◌>>=◌,
}
use keyless.Protocol.Tag
use keyless.Wire.{Written, parse_item, flatten_header, flatten_item_byte, flatten_item, add_padding}

-- kssl_operation; the flags are the source's ints
pub record Operation : Type 0 where
  pub is_opcode_set : Bool
  pub opcode : ℕ
  pub is_ski_set : Bool
  pub ski : Pointer
  pub is_digest_set : Bool
  pub digest : Pointer
  pub is_payload_set : Bool
  pub payload_len : ℕ
  pub payload : Pointer
  pub is_ip_set : Bool
  pub ip_len : ℕ
  pub ip : Pointer

abbrev pub zero_operation : Operation
zero_operation = record {
  is_opcode_set = false;
  opcode = 0;
  is_ski_set = false;
  ski = none;
  is_digest_set = false;
  digest = none;
  is_payload_set = false;
  payload_len = 0;
  payload = none;
  is_ip_set = false;
  ip_len = 0;
  ip = none;
}

-- The bytes that the items of an operation take, the padding not counted.
unfoldable pub items_size : Operation → ℕ
items_size op =
    (if op.is_opcode_set then opcode_item_size else 0)
    + (if op.is_payload_set then item_header_size + op.payload_len else 0)
    + (if op.is_ski_set then item_header_size + ski_size else 0)
    + (if op.is_digest_set then item_header_size + digest_size else 0)
    + (if op.is_ip_set then item_header_size + op.ip_len else 0)

unfoldable pub padding_size : ℕ → ℕ
padding_size n = if ltb n pad_to then pad_to - n else 0

-- A serialised message; `bytes` is NULL and `len` 0, as the callers set them, where none was made.
pub record Output : Type 0 where
  pub code : ErrorCode
  pub bytes : Pointer
  pub len : ℕ

abbrev pub no_output : ErrorCode → Output
no_output e = record { code = e; bytes = none; len = 0 }

-- A write in a chain of writes to one buffer: the code is not looked at.
abbrev pub Chain : Type 0
Chain = Pointer × Option ℕ

abbrev pub written : Written → Chain
written (c, b, o) = (b, o)

abbrev pub write_if : Bool → (Pointer → Option ℕ → Option Written) → Chain → Option Chain
write_if true f (b, o) = f b o >>= λ w. some (written w)
write_if false f c = some c

-- The calls that fill the buffer, in the source's order.
unfoldable pub flatten_all : Header → Operation → ℕ → Pointer → Option Chain
flatten_all header op padding b = do
  c ← write_if true (flatten_header (some header)) (b, some 0)
  c ← write_if op.is_opcode_set (flatten_item_byte Tag.opcode op.opcode) c
  c ← write_if op.is_payload_set (flatten_item Tag.payload op.payload op.payload_len) c
  c ← write_if op.is_ski_set (flatten_item Tag.ski op.ski ski_size) c
  c ← write_if op.is_digest_set (flatten_item Tag.digest op.digest digest_size) c
  c ← write_if op.is_ip_set (flatten_item Tag.client_ip op.ip op.ip_len) c
  write_if true (add_padding padding) c

-- `outs` says that neither out parameter is NULL, and `calloc_ok` that the allocation succeeds.
unfoldable pub flatten_operation : Bool → Bool → Option Header → Option Operation → Option Output
flatten_operation outs calloc_ok none op = some (no_output internal)
flatten_operation outs calloc_ok (some header) none = some (no_output internal)
flatten_operation false calloc_ok (some header) (some op) = some (no_output internal)
flatten_operation true false (some header) (some op) = some (no_output internal)
flatten_operation true true (some header) (some op) =
    let size = header_size + items_size op in
    let padding = padding_size size in
    let len = size + (item_header_size + padding) in
    let h : Header = record header { length = (len - header_size) % 65536 } in
    flatten_all h op padding (some (replicate len 0)) >>= λ c.
    some (record { code = no_error; bytes = c.0; len = len })

-- The switch over an item's tag. The read of the opcode's byte may fault.
unfoldable pub take_item : Item → Operation → Option Operation
take_item i op =
    if i.tag == Tag.opcode
    then if i.length == 1
      then (get_elem? i.contents 0 >>= λ v. some (record op { opcode = v; is_opcode_set = true }))
      else some op
    else if i.tag == Tag.ski
    then if i.length == ski_size
      then some (record op { ski = some i.contents; is_ski_set = true })
      else some op
    else if i.tag == Tag.digest
    then if i.length == digest_size
      then some (record op { digest = some i.contents; is_digest_set = true })
      else some op
    else if i.tag == Tag.payload
    then some
        (record op { payload_len = i.length; payload = some i.contents; is_payload_set = true })
    else if i.tag == Tag.client_ip
    then some (record op { ip_len = i.length; ip = some i.contents; is_ip_set = true })
    else some op

-- One round of the loop of parse_message_payload: an early return, or the next offset.
pub data Round : Type 0 where
  stop : ErrorCode → Operation → Round
  next : ℕ → Operation → Round

unfoldable pub taken : ℕ → Operation → ErrorCode × Option ℕ × Option Item → Option Round
taken len op (no_error, some offset, some item) =
    if ltb len offset
    then some (stop format op)
    else (take_item item op >>= λ op'. some (next offset op'))
taken len op _ = some (stop format op)

abbrev pub temp_item : Item
temp_item = record { tag = 0; length = 0; contents = [] }

unfoldable pub parse_round : List ℕ → ℕ → ℕ → Operation → Option Round
parse_round payload len offset op =
    if ltb (len - offset) item_header_size
    then some (stop format op)
    else (parse_item (some payload) (some offset) (some temp_item) >>= taken len op)

-- The loop, with fuel; `none` is a fault, or no fuel left.
unfoldable pub parse_loop : ℕ → List ℕ → ℕ → ℕ → Operation → Option (ErrorCode × Operation)
parse_loop zero payload len offset op = none
parse_loop (suc fuel) payload len offset op = elim (ltb offset len) [
  | false ↦ some (no_error, op)
  | true ↦ parse_round payload len offset op >>= λ r. elim r [
    | stop e op' ↦ some (e, op')
    | next offset' op' ↦ parse_loop fuel payload len offset' op'
  ]
]

-- What follows the loop.
unfoldable pub check_required : ErrorCode × Operation → ErrorCode × Operation
check_required (no_error, op) =
    if not op.is_opcode_set || not op.is_payload_set then (format, op) else (no_error, op)
check_required (e, op) = (e, op)

-- Each round moves the offset by 3 bytes at least, so that `len` rounds and the last test do.
unfoldable pub parse_message_payload :
    Pointer → ℕ → Option Operation → Option (ErrorCode × Option Operation)
parse_message_payload none len op = some (internal, op)
parse_message_payload (some payload) len none = some (internal, none)
parse_message_payload (some payload) len (some _) =
    parse_loop (len + 1) payload len 0 zero_operation >>= λ r.
    some ((check_required r).0, some (check_required r).1)
