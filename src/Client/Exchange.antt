-- ===== src/Client/Exchange.antt =====
-- What the test client reads in an answer of the server.
use keyless.Prelude.{
  ℕ, ◌+◌, ◌%◌, ◌≤◌, ◌<◌, ◌≡◌, refl, sym, ◌∙◌, arith, Option, none, some, List, [], ◌∷◌, ◌++◌, Bool,
  true, false, if◌then◌else◌, some-eq-some, length, length-append, append-nil, length-take,
}
use keyless.Protocol.{
  Header, ErrorCode, no_error, crypto_failed, key_not_found, bad_opcode, unexpected_opcode, format,
  internal, error_byte, IsByte, IsDword, version_maj,
}
use keyless.Protocol.Tag
use keyless.Protocol.Op
use keyless.Wire.Encoding.{encode, encode_header}
use keyless.KeyStore.{KeyStore}
use keyless.Connection.Spec.{IsHeader}
use keyless.Message.{Operation, items_size, padding_size, parse_message_payload}
use keyless.Message.Flatten.{message_size, sent_header, encode-append, length-encode-items_of}
use keyless.Message.Request.{Request, Shows, no_request, item_of, opcode_item, is_complete, has}
use keyless.Message.RoundTrip.{body, length-body, message-Received}
use keyless.Core.Reacts.{
  Reacts, unexpected, pong, unnamed, unknown_key, no_memory, failed, operated, unknown_opcode,
}
use keyless.Core.Respond.{error_header, error_items, error_message, error_message-IsErrorFor}
use keyless.Core.Serve.{answer_bytes, response_header}
use keyless.Client.Laws.{record_limit}

-- What an answer with this code shows: the error, or the response.
abbrev pub seen : ErrorCode → Request → Request
seen no_error shown = shown
seen e shown = record no_request { opcode = some Op.op_error; payload = some (error_byte e ∷ []) }

-- `out` is one message of this version, with this id, and its payload parses as the request `r`.
pub record IsAnswer (id : ℕ) (resp : Operation) (out : List ℕ) (r : Request) : Type 0 where
  pub header : Header
  pub payload : List ℕ
  pub bytes : out ≡ encode_header header ++ payload
  pub fits : IsHeader header
  pub maj : header.version_maj ≡ version_maj
  pub same_id : header.id ≡ id
  pub some_length : 0 < header.length
  pub sized : length payload ≡ header.length
  pub operation : Operation
  pub parses :
      parse_message_payload (some payload) header.length (some resp)
      ≡ some (no_error, some operation)
  pub shows : Shows operation r
  pub short : length out ≤ record_limit

error_byte-IsByte : (e : ErrorCode) → IsByte (error_byte e)
unfolding error_byte
error_byte-IsByte e = ground arith

pub error_message-IsAnswer :
    (id : ℕ) (resp : Operation) (e : ErrorCode)
    → IsDword id
    → IsAnswer id resp
        (error_message id (error_byte e))
        (record no_request { opcode = some Op.op_error; payload = some (error_byte e ∷ []) })
error_message-IsAnswer id resp e h =
    let r =
      error_message-IsErrorFor id (error_byte e) (error_header id) resp h (error_byte-IsByte e) in
    record {
      header = error_header id;
      payload = encode (error_items (error_byte e));
      bytes = refl;
      fits = record { maj = omega arith; min = omega arith; len = omega arith; num = h };
      maj = refl;
      same_id = refl;
      some_length = omega arith;
      sized = refl;
      operation = r.operation;
      parses = r.payload;
      shows = r.shows;
      short = omega arith;
    }

response-IsAnswer :
    (id : ℕ) (resp response : Operation) (shown : Request)
    → IsDword id
    → IsByte response.opcode
    → message_size response ≤ record_limit
    → is_complete shown ≡ true
    → Shows response shown
    → IsAnswer id resp (answer_bytes id no_error response shown) shown
response-IsAnswer id resp response shown h ho hl c s =
    let r =
      message-Received (response_header id) response shown (response_header id) resp (omega arith)
        (omega arith) h ho (omega (arith, hl)) s in
    record {
      header = sent_header (response_header id) response;
      payload = body response shown;
      bytes = refl;
      fits = record { maj = omega arith; min = omega arith; len = omega arith; num = h };
      maj = refl;
      same_id = refl;
      some_length = omega (arith, hl);
      sized = length-body response shown s ∙ omega (arith, hl);
      operation = r.operation;
      parses = rw c at r.payload;
      shows = r.shows;
      short = omega (arith, length-body response shown s, hl);
    }

-- The bytes that a field takes.
abbrev item_size : Option (List ℕ) → ℕ
item_size none = 0
item_size (some d) = 3 + length d

abbrev opcode_size : Option ℕ → ℕ
opcode_size none = 0
opcode_size (some v) = 4

length-item_of : (tag : ℕ) (o : Option (List ℕ)) → length (encode (item_of tag o)) ≡ item_size o
length-item_of tag none = refl
length-item_of tag (some d) = rw append-nil (omega arith)

length-opcode_item : (o : Option ℕ) → length (encode (opcode_item o)) ≡ opcode_size o
length-opcode_item none = refl
length-opcode_item (some v) = refl

items_size_lem :
    (op : Operation) (r : Request)
    → Shows op r
    → items_size op
      ≡ opcode_size r.opcode
        + (item_size r.payload + (item_size r.ski + (item_size r.digest + item_size r.client_ip)))
items_size_lem op r s =
    sym (length-encode-items_of op r s)
    ∙ rw
        (
          encode-append (opcode_item r.opcode) _,
          encode-append (item_of Tag.payload r.payload) _,
          encode-append (item_of Tag.ski r.ski) _,
          encode-append (item_of Tag.digest r.digest) (item_of Tag.client_ip r.client_ip),
          length-append,
          length-append,
          length-append,
          length-append,
          length-opcode_item r.opcode,
          length-item_of Tag.payload r.payload,
          length-item_of Tag.ski r.ski,
          length-item_of Tag.digest r.digest,
          length-item_of Tag.client_ip r.client_ip,
        )
        refl

padded :
    (a b : Operation)
    → items_size a ≤ items_size b
    → message_size b ≤ record_limit
    → message_size a ≤ record_limit
unfolding padding_size
padded a b h k = ground arith

within : (a : Operation) → items_size a ≤ 5000 → message_size a ≤ record_limit
unfolding padding_size
within a h = ground arith

complete_parts :
    (r : Request) → is_complete r ≡ true → (has r.opcode ≡ true) × (has r.payload ≡ true)
complete_parts r h = ground arith

opcode_there : (o : Option ℕ) → has o ≡ true → opcode_size o ≡ 4
opcode_there none h = cc
opcode_there (some v) h = refl

pub opcode-Shows :
    (op : Operation) (r : Request) (v : ℕ) → Shows op r → r.opcode ≡ some v → op.opcode ≡ v
opcode-Shows op r v s e = elim_opcode op.is_opcode_set (sym e ∙ s.opcode)
  where
    elim_opcode : (b : Bool) → some v ≡ (if b then some op.opcode else none) → op.opcode ≡ v
    elim_opcode true h = sym (some-eq-some h)
    elim_opcode false h = cc

module _ (ks : KeyStore) (malloc_ok : Bool)
    (small : (k room : ℕ) → ks.size k ≡ some room → room ≤ 4096) (op : Operation) (r : Request)
    (s : Shows op r) (complete : is_complete r ≡ true) (fits : message_size op ≤ record_limit)
    (id : ℕ) (is_id : IsDword id) (resp response : Operation) where
  -- A client can read any answer of the server: an error of the code, or the response's fields.
  pub answer-IsAnswer :
      {op' : Operation} {e : ErrorCode} {shown : Request}
      → Reacts ks malloc_ok op' r e shown
      → Shows response shown
      → IsAnswer id resp (answer_bytes id e response shown) (seen e shown)
  answer-IsAnswer (unexpected y) t = error_message-IsAnswer id resp unexpected_opcode is_id
  answer-IsAnswer (unnamed y e1 e2) t = error_message-IsAnswer id resp format is_id
  answer-IsAnswer (unknown_key y f) t = error_message-IsAnswer id resp key_not_found is_id
  answer-IsAnswer (no_memory k y f m) t = error_message-IsAnswer id resp internal is_id
  answer-IsAnswer (failed k room out y f e) t = error_message-IsAnswer id resp crypto_failed is_id
  answer-IsAnswer (unknown_opcode n1 n2 n3) t = error_message-IsAnswer id resp bad_opcode is_id
  answer-IsAnswer (pong y) t =
      let o = opcode-Shows response _ Op.pong t refl in
      response-IsAnswer id resp response _ is_id (omega (arith, o))
        (padded response op
          (omega (
            arith,
            items_size_lem response _ t,
            items_size_lem op r s,
            opcode_there r.opcode (complete_parts r complete).0,
          ))
          fits)
        (complete_parts r complete).1 t
  answer-IsAnswer (operated k room out y f h l e) t =
      let o = opcode-Shows response _ Op.response t refl in
      response-IsAnswer id resp response _ is_id (omega (arith, o))
        (within response (
          omega (
            arith,
            items_size_lem response _ t,
            length-take (length out % 65536) out,
            l,
            small k room h,
          )))
        refl t
