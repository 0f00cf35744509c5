-- ===== src/Core/Serve.antt =====
-- kssl_operate as a whole: every message gets one answer, which carries its id.
use keyless.Prelude.{
  ℕ, ◌+◌, ◌-◌, ◌%◌, ◌≤◌, ◌≡◌, sym, ap, ◌++◌, take, drop, take-append-drop, length-take,
  if◌then◌else◌, false, refl, ◌∙◌, arith, Option, some, List, Bool, true, length, All, inl, inr,
  ◌&&◌,
}
use keyless.Protocol.{
  Header, ErrorCode, IsByte, IsDword, no_error, format, error_byte, header_size, version_maj,
  version_min,
}
use keyless.Wire.{parse_header}
use keyless.KeyStore.{KeyStore, KeyStoreLaws}
use keyless.Message.{Operation, zero_operation, items_size, padding_size, parse_message_payload}
use keyless.Message.Accepts.{Accepted, parse_message_payload_total}
use keyless.Message.Bytes.{Accepted-RequestBytes}
use keyless.Message.Flatten.{message, message_size, sent_header, flatten_operation-message}
use keyless.Wire.Encoding.{Tlv, encode}
use keyless.Message.Parse.{parse_message_payload-encode}
use keyless.Message.Request.{Fits, is_complete, Request, Shows, no_request, request_of, has}
use keyless.Message.RoundTrip.{parse_header-encode}
use keyless.Core.Reacts.{zero-Shows, Reacts}
use keyless.Core.Answer.{answer-Answered}
use keyless.Core.Respond.{error_header, error_message, kssl_error-message}
use keyless.Core.{answer, reply_to, send, kssl_operate}

-- The header of a response, before its length is set.
abbrev pub response_header : ℕ → Header
response_header id = record {
  version_maj = version_maj;
  version_min = version_min;
  length = 0;
  id = id;
}

-- The bytes of an answer: an error message for the message's id, or the response operation.
abbrev pub answer_bytes : ℕ → ErrorCode → Operation → Request → List ℕ
answer_bytes id no_error response shown =
    message (sent_header (response_header id) response) shown
      (padding_size (header_size + items_size response))
answer_bytes id e response shown = error_message id (error_byte e)

abbrev pub answer_size : ErrorCode → Operation → ℕ
answer_size no_error response = message_size response
answer_size e response = 1027

pub send_lem :
    (header : Header) (e : ErrorCode) (response : Operation) (shown : Request)
    → Shows response shown
    → send true header (e, response)
      ≡ some (record {
        code = no_error;
        bytes = some (answer_bytes header.id e response shown);
        len = answer_size e response;
      })
unfolding send
send_lem header no_error response shown s =
    flatten_operation-message (response_header header.id) response shown s
send_lem header e response shown s = kssl_error-message header.id (error_byte e)

-- How the server came to its answer: the payload is the encoding of items that make a request with an
-- opcode and a payload, and the answer is the protocol's answer to that; or it is no such encoding.
pub data Verdict (ks : KeyStore) (malloc_ok : Bool) (b : List ℕ) (len : ℕ)
    : ErrorCode → Request → Type 0 where
  malformed :
      ((items : List Tlv)
        → All Fits items
        → take len b ≡ encode items
        → is_complete (request_of items no_request) ≡ false)
      → Verdict ks malloc_ok b len format no_request
  reaction :
      {e : ErrorCode} {shown : Request} (op : Operation) (a : Accepted b len op)
      → Reacts ks malloc_ok op (request_of a.items no_request) e shown
      → Verdict ks malloc_ok b len e shown

-- The answer to the message with this header and payload.
pub record Served (ks : KeyStore) (malloc_ok : Bool) (header : Header) (b : List ℕ) : Type 0 where
  pub code : ErrorCode
  pub response : Operation
  pub shown : Request
  pub shows : Shows response shown
  pub verdict : Verdict ks malloc_ok b header.length code shown
  pub result :
      kssl_operate ks malloc_ok true header (some b)
      ≡ some (record {
        code = no_error;
        bytes = some (answer_bytes header.id code response shown);
        len = answer_size code response;
      })

module _ (ks : KeyStore) (malloc_ok : Bool) (header : Header) (b : List ℕ) where
  -- kssl_operate, when the parse and the switch have their results.
  pub operate_by :
      (calloc_ok : Bool) (parsed : ErrorCode × Option Operation) (e : ErrorCode)
      (response : Operation)
      → parse_message_payload (some b) header.length (some zero_operation) ≡ some parsed
      → reply_to ks malloc_ok parsed ≡ some (e, response)
      → kssl_operate ks malloc_ok calloc_ok header (some b) ≡ send calloc_ok header (e, response)
  unfolding kssl_operate
  operate_by calloc_ok parsed e response hp hr = rw (hp, hr)

  pub complete_payload :
      (r : Request) → (has r.opcode && has r.payload) ≡ true → has r.payload ≡ true
  complete_payload r h = ground arith

  pub reply_accepted :
      (op : Operation) → reply_to ks malloc_ok (no_error, some op) ≡ answer ks malloc_ok op
  unfolding reply_to
  reply_accepted op = refl

  reply_malformed :
      (op : Option Operation) → reply_to ks malloc_ok (format, op) ≡ some (format, zero_operation)
  unfolding reply_to
  reply_malformed op = refl

  -- The parser refuses no encoding of items that make a request.
  no_encoding :
      (op : Option Operation)
      → header.length ≤ length b
      → parse_message_payload (some b) header.length (some zero_operation) ≡ some (format, op)
      → (items : List Tlv) → All Fits items
      → take header.length b ≡ encode items
      → is_complete (request_of items no_request) ≡ false
  no_encoding op h hp items fit is =
      let (op', run, _) =
        parse_message_payload-encode items (drop header.length b) zero_operation fit in
      let n : header.length ≡ length (encode items) =
        omega (arith, length-take header.length b, ap length is) in
      let bytes : encode items ++ drop header.length b ≡ b =
        ap (λ t. t ++ drop header.length b) (sym is) ∙ take-append-drop header.length b in
      let parsed : Option (ErrorCode × Option Operation) =
        some ((if is_complete (request_of items no_request) then no_error else format), some op') in
      let same : parsed ≡ some (format, op) = sym (rw (bytes, ← n) at run) ∙ hp in
      refused (is_complete (request_of items no_request)) (some op') op same
    where
      refused :
          (c : Bool) (x y : Option Operation)
          → ◌≡◌ {A = Option (ErrorCode × Option Operation)}
              (some ((if c then no_error else format), x))
              (some (format, y))
          → c ≡ false
      refused false x y e = refl
      refused true x y e = cc

  -- On any payload of the length that the header gives, over a key store that keeps its laws,
  -- kssl_operate never reads or writes outside a buffer. With memory for the response it always
  -- succeeds. If the payload encodes items that give an opcode and a payload, it sends the answer of
  -- the protocol to the request that they make, an error message for the header's id or a response;
  -- otherwise it sends KSSL_ERROR_FORMAT.
  pub kssl_operate-Served :
      KeyStoreLaws ks → All IsByte b → header.length ≤ length b → Served ks malloc_ok header b
  kssl_operate-Served laws w h =
      let (e, op, hp, v) = parse_message_payload_total b header.length zero_operation w h in
      elim v [
        | inl f ↦ record {
          code = format;
          response = zero_operation;
          shown = no_request;
          shows = zero-Shows;
          verdict = malformed (no_encoding (some op) h (rw f at hp));
          result =
              operate_by true (format, some op) format zero_operation (rw f at hp)
                (reply_malformed (some op))
              ∙ send_lem header format zero_operation no_request zero-Shows;
        }
        | inr (good, a) ↦
            let r : Request = request_of a.items no_request in
            let ans =
              answer-Answered ks laws malloc_ok op r a.shows
                (Accepted-RequestBytes b header.length op w a) (complete_payload r a.complete) in
            record {
              code = ans.code;
              response = ans.response;
              shown = ans.shown;
              shows = ans.shows;
              verdict = reaction op a ans.reacts;
              result =
                  operate_by true (no_error, some op) ans.code ans.response (rw good at hp)
                    (reply_accepted op ∙ ans.result)
                  ∙ send_lem header ans.code ans.response ans.shown ans.shows;
            }
      ]

abbrev pub answer_length : ErrorCode → Operation → ℕ
answer_length no_error response = (message_size response - header_size) % 65536
answer_length e response = 1019

pub answer_bytes-header :
    (id : ℕ) (e : ErrorCode) (response : Operation) (shown : Request) (hb : Header)
    → IsDword id
    → parse_header (some (answer_bytes id e response shown)) (some hb)
      ≡ some (no_error, some (record (response_header id) { length = answer_length e response }))
answer_bytes-header id no_error response shown hb h =
    parse_header-encode (sent_header (response_header id) response) hb _ (omega arith) (omega arith)
      (omega arith) h
answer_bytes-header id e response shown hb h =
    parse_header-encode (error_header id) hb _ (omega arith) (omega arith) (omega arith) h

-- Whatever the payload is, the client that sent a message finds its id, and version 1.0, in the
-- header of the answer.
pub kssl_operate-id :
    (ks : KeyStore) (malloc_ok : Bool) (header : Header) (b : List ℕ) (hb : Header)
    → KeyStoreLaws ks
    → All IsByte b
    → header.length ≤ length b
    → IsDword header.id
    → (out : List ℕ) × (len size : ℕ) × (kssl_operate ks malloc_ok true header (some b)
        ≡ some (record { code = no_error; bytes = some out; len = size }))
      × (parse_header (some out) (some hb)
          ≡ some (no_error, some (record (response_header header.id) { length = len })))
kssl_operate-id ks malloc_ok header b hb laws w h hid =
    let s = kssl_operate-Served ks malloc_ok header b laws w h in
    (
      answer_bytes header.id s.code s.response s.shown,
      answer_length s.code s.response,
      answer_size s.code s.response,
      s.result,
      answer_bytes-header header.id s.code s.response s.shown hb hid,
    )
