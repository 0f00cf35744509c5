-- ===== src/Message/Flatten.antt =====
-- flatten_operation writes the header, the items of the request and the padding, and nothing else.
use keyless.Prelude.{
  ℕ, ◌+◌, ◌-◌, ◌%◌, ◌≤◌, ◌≡◌, arith, Option, none, some, List, [], ◌∷◌, ◌++◌, append_assoc,
  append-nil, length, Bool, true, false, if◌then◌else◌, length-append, ap, sym, ◌∙◌, Option-cases,
  inl, inr, refl,
}
use keyless.Protocol.{
  Pointer, Header, no_error, header_size, item_header_size, opcode_item_size, ski_size, digest_size,
}
use keyless.Protocol.Tag
use keyless.Wire.{load, flatten_item_byte, flatten_item}
use keyless.Wire.Encoding.{
  Tlv, zeros, encode_item, encode, encode_header, flatten_header-zeros, flatten_item_byte-zeros,
  flatten_item-zeros, add_padding-zeros, length-load,
}
use keyless.Message.{
  Operation, Chain, write_if, flatten_all, flatten_operation, items_size, padding_size,
}
use keyless.Message.Request.{Request, Shows, field, item_of, opcode_item, items_of}

abbrev chain : List ℕ → ℕ → Option Chain
chain done n = some (some (done ++ zeros n), some (length done))

pub field-true :
    (p : Pointer) (k : ℕ) (o : Option (List ℕ))
    → field true p k ≡ some o
    → (d : List ℕ) × (load p k ≡ some d) × (o ≡ some d)
field-true p k o h = elim (Option-cases (load p k)) [
  | inl e ↦ absurd (ground arith)
  | inr (d, e) ↦ (d, e, ground arith)
]

field-zeros :
    (flag : Bool) (tag : ℕ) (p : Pointer) (k : ℕ) (o : Option (List ℕ)) (done : List ℕ) (n : ℕ)
    → field flag p k ≡ some o
    → (if flag then 3 + k else 0) ≤ n
    → write_if flag (flatten_item tag p k) (some (done ++ zeros n), some (length done))
      ≡ chain (done ++ encode (item_of (tag % 256) o)) (n - (if flag then 3 + k else 0))
field-zeros false tag p k none done n hf h = let e : n - 0 ≡ n = omega arith in rw (append-nil, e)
field-zeros false tag p k (some d) done n hf h = cc
field-zeros true tag p k o done n hf h =
    let (d, e, e') = field-true p k o hf in
    rw (e', flatten_item-zeros tag p k d done n e h, append-nil)

opcode-zeros :
    (flag : Bool) (v : ℕ) (o : Option ℕ) (done : List ℕ) (n : ℕ)
    → o ≡ (if flag then some v else none)
    → (if flag then opcode_item_size else 0) ≤ n
    → write_if flag (flatten_item_byte Tag.opcode v) (some (done ++ zeros n), some (length done))
      ≡ chain (done ++ encode (opcode_item o)) (n - (if flag then opcode_item_size else 0))
opcode-zeros false v o done n ho h = let e : n - 0 ≡ n = omega arith in rw (ho, append-nil, e)
opcode-zeros true v o done n ho h = rw (ho, flatten_item_byte-zeros Tag.opcode v done n h)

pub encode-append : (is js : List Tlv) → encode (is ++ js) ≡ encode is ++ encode js
encode-append [] js = refl
encode-append (i ∷ is) js = simp (encode-append is js, append_assoc)

-- The whole message: what flatten_operation puts into the buffer.
abbrev pub message : Header → Request → ℕ → List ℕ
message h r padding = encode_header h ++ encode (items_of r ++ (Tag.padding, zeros padding) ∷ [])

regroup :
    (h a b c d e p : List ℕ)
    → (((((h ++ a) ++ b) ++ c) ++ d) ++ e) ++ p ≡ h ++ ((a ++ (b ++ (c ++ (d ++ e)))) ++ p)
regroup h a b c d e p = simp append_assoc

message-append :
    (h : Header) (r : Request) (padding : ℕ)
    → (((((encode_header h ++ encode (opcode_item r.opcode))
                ++ encode (item_of Tag.payload r.payload))
              ++ encode (item_of Tag.ski r.ski))
            ++ encode (item_of Tag.digest r.digest))
          ++ encode (item_of Tag.client_ip r.client_ip))
        ++ encode_item (Tag.padding, zeros padding)
      ≡ message h r padding
message-append h r padding =
    regroup (encode_header h) (encode (opcode_item r.opcode))
      (encode (item_of Tag.payload r.payload)) (encode (item_of Tag.ski r.ski))
      (encode (item_of Tag.digest r.digest)) (encode (item_of Tag.client_ip r.client_ip))
      (encode_item (Tag.padding, zeros padding))
    ∙ ap (λ t. encode_header h ++ t) (sym split)
  where
    split :
        encode (items_of r ++ (Tag.padding, zeros padding) ∷ [])
        ≡ (encode (opcode_item r.opcode)
            ++ (encode (item_of Tag.payload r.payload)
                ++ (encode (item_of Tag.ski r.ski)
                    ++ (encode (item_of Tag.digest r.digest)
                        ++ encode (item_of Tag.client_ip r.client_ip)))))
          ++ encode_item (Tag.padding, zeros padding)
    split = rw (
      encode-append (items_of r) ((Tag.padding, zeros padding) ∷ []),
      encode-append (opcode_item r.opcode) _,
      encode-append (item_of Tag.payload r.payload) _,
      encode-append (item_of Tag.ski r.ski) _,
      encode-append (item_of Tag.digest r.digest) (item_of Tag.client_ip r.client_ip),
      append-nil,
    )

flatten_all-message :
    (h : Header) (op : Operation) (r : Request) (padding : ℕ)
    → Shows op r
    → (c : Option ℕ) × (flatten_all h op padding (some (zeros (8 + items_size op + (3 + padding))))
        ≡ some (some (message h r padding), c))
unfolding flatten_all items_size
flatten_all-message h op r padding s =
    let s1 : ℕ = if op.is_opcode_set then 4 else 0 in
    let s2 : ℕ = if op.is_payload_set then 3 + op.payload_len else 0 in
    let s3 : ℕ = if op.is_ski_set then 23 else 0 in
    let s4 : ℕ = if op.is_digest_set then 35 else 0 in
    let s5 : ℕ = if op.is_ip_set then 3 + op.ip_len else 0 in
    let n : ℕ = 8 + (s1 + s2 + s3 + s4 + s5) + (3 + padding) in
    let d0 : List ℕ = encode_header h in
    let d1 : List ℕ = d0 ++ encode (opcode_item r.opcode) in
    let d2 : List ℕ = d1 ++ encode (item_of Tag.payload r.payload) in
    let d3 : List ℕ = d2 ++ encode (item_of Tag.ski r.ski) in
    let d4 : List ℕ = d3 ++ encode (item_of Tag.digest r.digest) in
    let d5 : List ℕ = d4 ++ encode (item_of Tag.client_ip r.client_ip) in
    let e : n - 8 - s1 - s2 - s3 - s4 - s5 ≡ 3 + padding = omega arith in
    (
      some (length d5 + 3),
      rw
          (
            flatten_header-zeros h [] n (omega arith),
            opcode-zeros op.is_opcode_set op.opcode r.opcode d0 (n - 8) s.opcode (omega arith),
            field-zeros op.is_payload_set Tag.payload op.payload op.payload_len r.payload d1
                (n - 8 - s1) s.payload (omega arith),
            field-zeros op.is_ski_set Tag.ski op.ski ski_size r.ski d2 (n - 8 - s1 - s2) s.ski
                (omega arith),
            field-zeros op.is_digest_set Tag.digest op.digest digest_size r.digest d3
                (n - 8 - s1 - s2 - s3) s.digest (omega arith),
            field-zeros op.is_ip_set Tag.client_ip op.ip op.ip_len r.client_ip d4
                (n - 8 - s1 - s2 - s3 - s4) s.client_ip (omega arith),
            e,
            add_padding-zeros padding d5,
          )
          (ap (λ (x : List ℕ). some (some x, some (length d5 + 3))) (message-append h r padding)),
    )

-- The length of a message, the padding included.
abbrev pub message_size : Operation → ℕ
message_size op =
    header_size + items_size op + (item_header_size + padding_size (header_size + items_size op))

-- The header that is sent: its length is that of the rest of the message, as a WORD.
abbrev pub sent_header : Header → Operation → Header
sent_header h op = record h { length = (message_size op - header_size) % 65536 }

-- Whenever the set fields can be read, flatten_operation stays inside its buffer and returns the
-- header, the items of the request in their order, and one padding item of zero bytes, in a buffer
-- of the size that it computed beforehand.
pub flatten_operation-message :
    (h : Header) (op : Operation) (r : Request)
    → Shows op r
    → flatten_operation true true (some h) (some op)
      ≡ some (record {
        code = no_error;
        bytes = some (message (sent_header h op) r (padding_size (header_size + items_size op)));
        len = message_size op;
      })
unfolding flatten_operation
flatten_operation-message h op r s =
    let (c, e) =
      flatten_all-message (sent_header h op) op r (padding_size (header_size + items_size op)) s in
    rw e

pub length-field :
    (flag : Bool) (tag : ℕ) (p : Pointer) (k : ℕ) (o : Option (List ℕ))
    → field flag p k ≡ some o
    → length (encode (item_of tag o)) ≡ (if flag then 3 + k else 0)
length-field false tag p k none h = refl
length-field false tag p k (some d) h = cc
length-field true tag p k o h =
    let (d, e, e') = field-true p k o h in rw (e', append-nil) (omega (arith, length-load p k d e))

length-opcode_item :
    (flag : Bool) (v : ℕ) (o : Option ℕ)
    → o ≡ (if flag then some v else none)
    → length (encode (opcode_item o)) ≡ (if flag then opcode_item_size else 0)
length-opcode_item false v o h = rw h
length-opcode_item true v o h = rw h

-- items_size is the number of bytes that the items take.
pub length-encode-items_of :
    (op : Operation) (r : Request) → Shows op r → length (encode (items_of r)) ≡ items_size op
unfolding items_size
length-encode-items_of op r s =
    rw
      (
        encode-append (opcode_item r.opcode) _,
        encode-append (item_of Tag.payload r.payload) _,
        encode-append (item_of Tag.ski r.ski) _,
        encode-append (item_of Tag.digest r.digest) (item_of Tag.client_ip r.client_ip),
        length-append,
        length-append,
        length-append,
        length-append,
        length-opcode_item op.is_opcode_set op.opcode r.opcode s.opcode,
        length-field op.is_payload_set Tag.payload op.payload op.payload_len r.payload s.payload,
        length-field op.is_ski_set Tag.ski op.ski ski_size r.ski s.ski,
        length-field op.is_digest_set Tag.digest op.digest digest_size r.digest s.digest,
        length-field op.is_ip_set Tag.client_ip op.ip op.ip_len r.client_ip s.client_ip,
      )
      (omega arith)
