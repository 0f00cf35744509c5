-- ===== src/Wire.antt =====
-- kssl_helpers.c: the READ_* and WRITE_* macros, and the functions that read and write one header
-- or one item at an offset of a buffer.
pub mod Encoding
use keyless.Prelude.{
  ℕ, ◌+◌, ◌*◌, ◌/◌, ◌%◌, Option, none, some, List, [], ◌∷◌, ◌++◌, ltb, leb, if◌then◌else◌, length,
  get_elem?, take, drop,
}
use keyless.Protocol.Tag
use keyless.Protocol.{Pointer, Header, Item, ErrorCode, no_error, internal, ◌>>=◌}

-- READ_BYTE, READ_WORD and READ_DWORD: the value, and the offset behind it
unfoldable pub read_byte : List ℕ → ℕ → Option (ℕ × ℕ)
read_byte b o = do v ← get_elem? b o; some (v, o + 1)

unfoldable pub read_word : List ℕ → ℕ → Option (ℕ × ℕ)
read_word b o = do hi ← get_elem? b o; lo ← get_elem? b (o + 1); some (hi * 256 + lo, o + 2)

unfoldable pub read_dword : List ℕ → ℕ → Option (ℕ × ℕ)
read_dword b o = do
  b3 ← get_elem? b o
  b2 ← get_elem? b (o + 1)
  b1 ← get_elem? b (o + 2)
  b0 ← get_elem? b (o + 3)
  some (((b3 * 256 + b2) * 256 + b1) * 256 + b0, o + 4)

-- The bytes that htons and htonl put into memory.
abbrev pub word_bytes : ℕ → List ℕ
word_bytes v = v / 256 % 256 ∷ v % 256 ∷ []

abbrev pub dword_bytes : ℕ → List ℕ
dword_bytes v = v / 16777216 % 256 ∷ v / 65536 % 256 ∷ v / 256 % 256 ∷ v % 256 ∷ []

-- A store of some bytes at an offset: the buffer, and the offset behind them.
unfoldable pub store : List ℕ → ℕ → List ℕ → Option (List ℕ × ℕ)
store b o vs =
    if leb (o + length vs) (length b)
    then some (take o b ++ (vs ++ drop (o + length vs) b), o + length vs)
    else none

-- WRITE_BYTE, WRITE_WORD and WRITE_DWORD
abbrev pub write_byte : List ℕ → ℕ → ℕ → Option (List ℕ × ℕ)
write_byte b o v = store b o (v % 256 ∷ [])

abbrev pub write_word : List ℕ → ℕ → ℕ → Option (List ℕ × ℕ)
write_word b o v = store b o (word_bytes v)

abbrev pub write_dword : List ℕ → ℕ → ℕ → Option (List ℕ × ℕ)
write_dword b o v = store b o (dword_bytes v)

-- The `n` bytes that memcpy reads from a pointer.
unfoldable pub load : Pointer → ℕ → Option (List ℕ)
load none n = none
load (some v) n = if leb n (length v) then some (take n v) else none

-- WRITE_BUFFER
unfoldable pub write_buffer : List ℕ → ℕ → Pointer → ℕ → Option (List ℕ × ℕ)
unfolding load
write_buffer b o v n = do vs ← load v n; store b o vs

-- The optional `int *offset` of these functions: where it is NULL they start at 0, and where it is
-- not, it is updated.
abbrev pub start_of : Option ℕ → ℕ
start_of none = 0
start_of (some o) = o

abbrev pub update_offset : Option ℕ → ℕ → Option ℕ
update_offset none o = none
update_offset (some _) o = some o

-- The `header` argument is the caller's structure, or `none` for NULL.
unfoldable pub parse_header : Pointer → Option Header → Option (ErrorCode × Option Header)
unfolding read_byte read_word read_dword
parse_header none header = some (internal, header)
parse_header (some b) none = some (internal, none)
parse_header (some b) (some _) = do
  (maj, o) ← read_byte b 0
  (min, o) ← read_byte b o
  (len, o) ← read_word b o
  (id, o) ← read_dword b o
  some (no_error, some (record { version_maj = maj; version_min = min; length = len; id = id }))

-- The bytes of the item are not copied: `contents` points into the stream.
unfoldable pub parse_item :
    Pointer → Option ℕ → Option Item → Option (ErrorCode × Option ℕ × Option Item)
unfolding read_byte read_word
parse_item none offset item = some (internal, offset, item)
parse_item (some b) offset none = some (internal, offset, none)
parse_item (some b) offset (some _) = do
  (tag, o) ← read_byte b (start_of offset)
  (len, o) ← read_word b o
  some (
    no_error,
    update_offset offset (o + len),
    some (record { tag = tag; length = len; contents = drop o b }),
  )

-- The functions that write return the buffer beside the code and the offset.
abbrev pub Written : Type 0
Written = ErrorCode × Pointer × Option ℕ

unfoldable pub flatten_header : Option Header → Pointer → Option ℕ → Option Written
flatten_header header none offset = some (internal, none, offset)
flatten_header none (some b) offset = some (internal, some b, offset)
flatten_header (some h) (some b) offset = do
  (b, o) ← write_byte b (start_of offset) h.version_maj
  (b, o) ← write_byte b o h.version_min
  (b, o) ← write_word b o h.length
  (b, o) ← write_dword b o h.id
  some (no_error, some b, update_offset offset o)

unfoldable pub flatten_item_byte : ℕ → ℕ → Pointer → Option ℕ → Option Written
flatten_item_byte tag payload none offset = some (internal, none, offset)
flatten_item_byte tag payload (some b) offset = do
  (b, o) ← write_byte b (start_of offset) tag
  (b, o) ← write_word b o 1
  (b, o) ← write_byte b o payload
  some (no_error, some b, update_offset offset o)

unfoldable pub flatten_item : ℕ → Pointer → ℕ → Pointer → Option ℕ → Option Written
flatten_item tag payload payload_len none offset = some (internal, none, offset)
flatten_item tag payload payload_len (some b) offset = do
  (b, o) ← write_byte b (start_of offset) tag
  (b, o) ← write_word b o payload_len
  (b, o) ← if ltb 0 payload_len then write_buffer b o payload payload_len else some (b, o)
  some (no_error, some b, update_offset offset o)

-- Only the item's header is written: the padding itself is what calloc left in the buffer.
unfoldable pub add_padding : ℕ → Pointer → Option ℕ → Option Written
add_padding size none offset = some (internal, none, offset)
add_padding size (some b) offset = do
  (b, o) ← write_byte b (start_of offset) Tag.padding
  (b, o) ← write_word b o size
  some (no_error, some b, update_offset offset o)
