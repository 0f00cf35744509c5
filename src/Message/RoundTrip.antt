-- ===== src/Message/RoundTrip.antt =====
-- What flatten_operation sends is what parse_header and parse_message_payload read.
use keyless.Prelude.{
  ℕ, ◌+◌, ◌-◌, ◌*◌, ◌/◌, ◌%◌, ◌<◌, ◌≡◌, refl, sym, ap, ◌∙◌, arith, Option, none, some, List, [],
  ◌∷◌, ◌++◌, append-nil, length, drop, All, Bool, true, false, if◌then◌else◌, length-append,
}
use keyless.Protocol.{
  Pointer, Header, IsByte, IsWord, IsDword, no_error, format, header_size, ski_size, digest_size,
}
use keyless.Protocol.Tag
use keyless.Wire.{parse_header}
use keyless.Wire.Encoding.{
  Tlv, zeros, encode, encode_item, encode_header, length-zeros, length-load,
}
use keyless.Message.{Operation, flatten_operation, parse_message_payload, padding_size, items_size}
use keyless.Message.Flatten.{
  message, message_size, sent_header, flatten_operation-message, length-encode-items_of,
  encode-append, field-true,
}
use keyless.Message.Parse.{parse_message_payload-encode}
use keyless.Message.Request.{
  Request, Shows, field, apply, request_of, no_request, item_of, opcode_item, items_of, is_complete,
  Fits,
}

abbrev or_else {ℓ} : {A : Type ℓ} → Option A → Option A → Option A
or_else none o = o
or_else (some a) o = some a

or_else-none {ℓ} : {A : Type ℓ} (o : Option A) → or_else o none ≡ o
or_else-none none = refl
or_else-none (some a) = refl

request_of-append :
    (is js : List Tlv) (r : Request) → request_of (is ++ js) r ≡ request_of js (request_of is r)
unfolding request_of
request_of-append [] js r = refl
request_of-append (i ∷ is) js r = request_of-append is js (apply i r)

-- A field has the length that its item must have.
abbrev Sized : ℕ → Option (List ℕ) → Type 0
Sized n none = Unit {0}
Sized n (some d) = length d ≡ n

abbrev OpcodeFits : Option ℕ → Type 0
OpcodeFits none = Unit {0}
OpcodeFits (some v) = IsByte v

request_of-opcode_item :
    (o : Option ℕ) (r : Request)
    → OpcodeFits o
    → request_of (opcode_item o) r ≡ record r { opcode = or_else o r.opcode }
unfolding request_of apply
request_of-opcode_item none r h = refl
request_of-opcode_item (some v) r h = let e : v % 256 ≡ v = omega arith in ground arith

request_of-payload :
    (o : Option (List ℕ)) (r : Request)
    → request_of (item_of Tag.payload o) r ≡ record r { payload = or_else o r.payload }
unfolding request_of apply
request_of-payload none r = refl
request_of-payload (some d) r = ground arith

request_of-ski :
    (o : Option (List ℕ)) (r : Request)
    → Sized ski_size o
    → request_of (item_of Tag.ski o) r ≡ record r { ski = or_else o r.ski }
unfolding request_of apply
request_of-ski none r h = refl
request_of-ski (some d) r h = ground arith

request_of-digest :
    (o : Option (List ℕ)) (r : Request)
    → Sized digest_size o
    → request_of (item_of Tag.digest o) r ≡ record r { digest = or_else o r.digest }
unfolding request_of apply
request_of-digest none r h = refl
request_of-digest (some d) r h = ground arith

request_of-client_ip :
    (o : Option (List ℕ)) (r : Request)
    → request_of (item_of Tag.client_ip o) r ≡ record r { client_ip = or_else o r.client_ip }
unfolding request_of apply
request_of-client_ip none r = refl
request_of-client_ip (some d) r = ground arith

request_of-padding : (d : List ℕ) (r : Request) → request_of ((Tag.padding, d) ∷ []) r ≡ r
unfolding request_of apply
request_of-padding d r = ground arith

request_of-items_of :
    (r : Request) (d : List ℕ)
    → OpcodeFits r.opcode
    → Sized ski_size r.ski
    → Sized digest_size r.digest
    → request_of (items_of r ++ (Tag.padding, d) ∷ []) no_request ≡ r
request_of-items_of r d ho hs hd = rw (
  request_of-append (items_of r) ((Tag.padding, d) ∷ []) no_request,
  request_of-padding,
  request_of-append (opcode_item r.opcode),
  request_of-append (item_of Tag.payload r.payload),
  request_of-append (item_of Tag.ski r.ski),
  request_of-append (item_of Tag.digest r.digest),
  request_of-opcode_item r.opcode _ ho,
  request_of-payload,
  request_of-ski r.ski _ hs,
  request_of-digest r.digest _ hd,
  request_of-client_ip,
  or_else-none,
  or_else-none,
  or_else-none,
  or_else-none,
  or_else-none,
)

field-Sized :
    (flag : Bool) (p : Pointer) (n : ℕ) (o : Option (List ℕ)) → field flag p n ≡ some o → Sized n o
field-Sized flag p n none h = tt
field-Sized false p n (some d) h = cc
field-Sized true p n (some d) h =
    let (d', e, e') = field-true p n (some d) h in length-load p n d (e ∙ sym e')

opcode-Fits : (op : Operation) (r : Request) → Shows op r → IsByte op.opcode → OpcodeFits r.opcode
opcode-Fits op r s h = rw s.opcode (ground arith)

pub encode-Fits : (is : List Tlv) → length (encode is) < 65536 → All Fits is
encode-Fits [] h = tt
encode-Fits ((t, d) ∷ is) h =
    let l : length (encode ((t, d) ∷ is)) ≡ 3 + length d + length (encode is) =
      omega (arith, length-append d (encode is)) in
    (omega arith, encode-Fits is (omega arith))

pub parse_header-encode :
    (h before : Header) (rest : List ℕ)
    → IsByte h.version_maj
    → IsByte h.version_min
    → IsWord h.length
    → IsDword h.id
    → parse_header (some (encode_header h ++ rest)) (some before) ≡ some (no_error, some h)
unfolding parse_header
parse_header-encode h before rest h1 h2 h3 h4 =
    let e1 : h.version_maj % 256 ≡ h.version_maj = omega arith in
    let e2 : h.version_min % 256 ≡ h.version_min = omega arith in
    let e3 : h.length / 256 % 256 * 256 + h.length % 256 ≡ h.length = omega arith in
    let e4 : ((h.id / 16777216 % 256 * 256 + h.id / 65536 % 256) * 256 + h.id / 256 % 256) * 256
          + h.id % 256
        ≡ h.id =
      omega arith in
    rw (e1, e2, e3, e4)

-- The bytes behind the header of a sent message.
abbrev pub body : Operation → Request → List ℕ
body op r =
    encode (items_of r ++ (Tag.padding, zeros (padding_size (header_size + items_size op))) ∷ [])

pub length-body :
    (op : Operation) (r : Request) → Shows op r → length (body op r) ≡ message_size op - header_size
length-body op r s =
    let n : ℕ = padding_size (header_size + items_size op) in
    rw (encode-append (items_of r) ((Tag.padding, zeros n) ∷ []), append-nil)
      (omega (
        arith,
        length-append (encode (items_of r)) (encode_item (Tag.padding, zeros n)),
        length-encode-items_of op r s,
        length-zeros n,
      ))

pub parse-encode :
    (is : List Tlv) (r : Request) (ob : Operation)
    → All Fits is
    → request_of is no_request ≡ r
    → (op : Operation) × (parse_message_payload (some (encode is)) (length (encode is)) (some ob)
        ≡ some ((if is_complete r then no_error else format), some op))
      × Shows op r
parse-encode is r ob w same = rw (append-nil, same) at (parse_message_payload-encode is [] ob w)

-- What has been received: the header that was sent, with the length of what follows it, and from
-- that many bytes an operation that shows the same request.
pub record Received (h : Header) (op : Operation) (r : Request) (out : List ℕ) (hb : Header)
    (ob : Operation) : Type 0 where
  pub header : parse_header (some out) (some hb) ≡ some (no_error, some (sent_header h op))
  pub operation : Operation
  pub payload :
      parse_message_payload (some (drop header_size out)) (sent_header h op).length (some ob)
      ≡ some ((if is_complete r then no_error else format), some operation)
  pub shows : Shows operation r

pub message-Received :
    (h : Header) (op : Operation) (r : Request) (hb : Header) (ob : Operation)
    → IsByte h.version_maj
    → IsByte h.version_min
    → IsDword h.id
    → IsByte op.opcode
    → message_size op - header_size < 65536
    → Shows op r
    → Received h op r
        (message (sent_header h op) r (padding_size (header_size + items_size op)))
        hb
        ob
message-Received h op r hb ob h1 h2 h4 ho hl s =
    let n : ℕ = padding_size (header_size + items_size op) in
    let is : List Tlv = items_of r ++ (Tag.padding, zeros n) ∷ [] in
    let l : (message_size op - header_size) % 65536 ≡ length (encode is) =
      omega (arith, length-body op r s) in
    let same : request_of is no_request ≡ r =
      request_of-items_of r (zeros n) (opcode-Fits op r s ho)
        (field-Sized op.is_ski_set op.ski ski_size r.ski s.ski)
        (field-Sized op.is_digest_set op.digest digest_size r.digest s.digest) in
    let (op', e, s') =
      parse-encode is r ob (encode-Fits is (omega (arith, length-body op r s))) same in
    record {
      header = parse_header-encode (sent_header h op) hb (encode is) h1 h2 (omega arith) h4;
      operation = op';
      payload = ap (λ k. parse_message_payload (some (encode is)) k (some ob)) l ∙ e;
      shows = s';
    }

-- A message that flatten_operation makes, if its length fits the header's WORD, is read back: the
-- header with its version, id and length, and an operation with the same fields as the one sent.
pub flatten_operation-Received :
    (h : Header) (op : Operation) (r : Request) (hb : Header) (ob : Operation)
    → IsByte h.version_maj
    → IsByte h.version_min
    → IsDword h.id
    → IsByte op.opcode
    → message_size op - header_size < 65536
    → Shows op r
    → (out : List ℕ) × (flatten_operation true true (some h) (some op)
        ≡ some (record { code = no_error; bytes = some out; len = message_size op }))
      × Received h op r out hb ob
flatten_operation-Received h op r hb ob h1 h2 h4 ho hl s = (
  message (sent_header h op) r (padding_size (header_size + items_size op)),
  flatten_operation-message h op r s,
  message-Received h op r hb ob h1 h2 h4 ho hl s,
)
