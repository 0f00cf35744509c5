-- ===== src/Core/Oversize.antt =====
-- kssl_operate on a ping whose payload is as long as a request can carry.
use keyless.Prelude.{
  ℕ, ◌+◌, ◌≤◌, ◌<◌, ◌≡◌, sym, ap, ◌∙◌, arith, none, some, List, [], ◌∷◌, Bool, true, length, ne→==,
  some-eq-some, Bool-cases, inl, inr, drop,
}
use keyless.Protocol.{Header, IsDword, no_error, header_size}
use keyless.Protocol.Tag
use keyless.Protocol.Op
use keyless.Wire.{parse_header, load}
use keyless.Wire.Encoding.{Tlv, encode, length-load}
use keyless.KeyStore.{KeyStore}
use keyless.Message.{Operation, zero_operation, items_size, padding_size, parse_message_payload}
use keyless.Message.Flatten.{message_size, field-true}
use keyless.Message.RoundTrip.{parse-encode, length-body}
use keyless.Message.Request.{Request, Shows, no_request, request_of, apply}
use keyless.Core.{answer, kssl_operate, response_with, is_reply}
use keyless.Core.Reacts.{response-Shows, field-unset}
use keyless.Core.Serve.{
  response_header, send_lem, operate_by, reply_accepted, answer_bytes, answer_length,
  answer_bytes-header,
}

abbrev pub ping_items : List ℕ → List Tlv
ping_items d = (Tag.opcode, Op.ping ∷ []) ∷ (Tag.payload, d) ∷ []

abbrev ping_request : List ℕ → Request
ping_request d = record no_request { opcode = some Op.ping; payload = some d }

-- An operation that shows a ping has its opcode and its payload.
Shows-opcode : (op : Operation) (d : List ℕ) → Shows op (ping_request d) → op.opcode ≡ Op.ping
Shows-opcode op d s = elim (Bool-cases op.is_opcode_set) [
  | inl y ↦ sym (some-eq-some (rw y at s.opcode))
  | inr n ↦ absurd (missing (rw n at s.opcode))
]
  where
    missing : some Op.ping ≡ none → ⊥
    missing h = cc

Shows-payload :
    (op : Operation) (d : List ℕ)
    → Shows op (ping_request d)
    → load op.payload op.payload_len ≡ some d
Shows-payload op d s = elim (Bool-cases op.is_payload_set) [
  | inl y ↦
      let (d', e, e') = field-true op.payload op.payload_len (some d) (rw y at s.payload) in
      rw (some-eq-some e') e
  | inr n ↦ absurd (missing (field-unset op.payload op.payload_len (some d) (rw n at s.payload)))
]
  where
    missing : some d ≡ none → ⊥
    missing h = cc

abbrev pong_of : Operation → Operation
pong_of op = response_with Op.pong op.payload_len op.payload

answer-ping :
    (ks : KeyStore) (malloc_ok : Bool) (op : Operation)
    → op.opcode ≡ Op.ping
    → answer ks malloc_ok op ≡ some (no_error, pong_of op)
unfolding answer is_reply
answer-ping ks malloc_ok op h = rw h

pong-message_size :
    (op : Operation) → 1024 ≤ op.payload_len → message_size (pong_of op) ≡ op.payload_len + 18
unfolding items_size padding_size
pong-message_size op h = ground arith

-- The payload is too long for a SKI or a digest, and for an opcode.
request_of-ping_items :
    (d : List ℕ) → 33 ≤ length d → request_of (ping_items d) no_request ≡ ping_request d
unfolding request_of apply
request_of-ping_items [] h = absurd (omega arith)
request_of-ping_items (x ∷ []) h = absurd (omega arith)
request_of-ping_items (x ∷ y ∷ d) h =
    rw (ne→== (length (x ∷ y ∷ d)) 20 (omega arith), ne→== (length (x ∷ y ∷ d)) 32 (omega arith))

-- A client may send a ping with a payload of 65526 to 65528 bytes. Then kssl_operate succeeds, but
-- more than 65535 bytes stand behind the header of its answer, and the length that a client reads
-- from that header is their number less 65536.
pub kssl_operate-Oversize :
    (ks : KeyStore) (malloc_ok : Bool) (header : Header) (d : List ℕ) (hb : Header)
    → 65526 ≤ length d
    → length d < 65529
    → header.length ≡ length (encode (ping_items d))
    → IsDword header.id
    → (out : List ℕ) × (len : ℕ) × (kssl_operate ks malloc_ok true header
          (some (encode (ping_items d)))
        ≡ some (record { code = no_error; bytes = some out; len = length d + 18 }))
      × (parse_header (some out) (some hb)
          ≡ some (no_error, some (record (response_header header.id) { length = len })))
      × (length (drop header_size out) ≡ len + 65536)
kssl_operate-Oversize ks malloc_ok header d hb low high hl hid =
    let b : List ℕ = encode (ping_items d) in
    let (op, e, s) =
      parse-encode (ping_items d) (ping_request d) zero_operation (omega arith, (omega arith, tt))
        (request_of-ping_items d (omega arith)) in
    let hd : load op.payload op.payload_len ≡ some d = Shows-payload op d s in
    let n : length d ≡ op.payload_len = length-load op.payload op.payload_len d hd in
    let shows = response-Shows Op.pong op.payload_len op.payload d hd in
    let size : message_size (pong_of op) ≡ op.payload_len + 18 =
      pong-message_size op (omega arith) in
    let shown : Request = record no_request { opcode = some Op.pong; payload = some d } in
    let parsed : parse_message_payload (some b) header.length (some zero_operation)
        ≡ some (no_error, some op) =
      ap (λ k. parse_message_payload (some b) k (some zero_operation)) hl ∙ e in
    let run =
      operate_by ks malloc_ok header b true (no_error, some op) no_error (pong_of op) parsed
        (reply_accepted ks malloc_ok header b op
          ∙ answer-ping ks malloc_ok op (Shows-opcode op d s))
      ∙ send_lem header no_error (pong_of op) shown shows in
    let same : message_size (pong_of op) ≡ length d + 18 = omega arith in
    (
      answer_bytes header.id no_error (pong_of op) shown,
      answer_length no_error (pong_of op),
      run
          ∙ ap
              (λ n. some (record {
                code = no_error;
                bytes = some (answer_bytes header.id no_error (pong_of op) shown);
                len = n;
              }))
              same,
      answer_bytes-header header.id no_error (pong_of op) shown hb hid,
      length-body (pong_of op) shown shows ∙ omega arith,
    )
