-- ===== src/Message/Bytes.antt =====
-- The requests that are read from bytes have fields of bytes.
use keyless.Prelude.{
  ℕ, Option, none, some, List, [], ◌∷◌, ◌==◌, All, All-append, All-take, if_both, length,
}
use keyless.Protocol.{IsByte, ski_size, digest_size}
use keyless.Protocol.Tag
use keyless.Wire.Encoding.{Tlv, encode, encode_item}
use keyless.Message.{Operation}
use keyless.Message.Accepts.{Accepted}
use keyless.Message.Request.{Request, pick, apply, request_of, no_request}

-- Every field of the request is made of bytes.
abbrev pub FieldBytes : Option (List ℕ) → Type 0
FieldBytes none = Unit {0}
FieldBytes (some d) = All IsByte d

pub record RequestBytes (r : Request) : Type 0 where
  pub payload : FieldBytes r.payload
  pub ski : FieldBytes r.ski
  pub digest : FieldBytes r.digest
  pub client_ip : FieldBytes r.client_ip

apply-RequestBytes :
    (i : Tlv) (r : Request) → All IsByte i.1 → RequestBytes r → RequestBytes (apply i r)
unfolding apply
apply-RequestBytes i r w b = record {
  payload = picked Tag.payload r.payload b.payload;
  ski =
      if_both FieldBytes (length i.1 == ski_size) (pick Tag.ski i r.ski) r.ski
        (picked Tag.ski r.ski b.ski) b.ski;
  digest =
      if_both FieldBytes (length i.1 == digest_size) (pick Tag.digest i r.digest) r.digest
        (picked Tag.digest r.digest b.digest) b.digest;
  client_ip = picked Tag.client_ip r.client_ip b.client_ip;
}
  where
    picked : (tag : ℕ) (f : Option (List ℕ)) → FieldBytes f → FieldBytes (pick tag i f)
    picked tag f h = if_both FieldBytes (i.0 == tag) (some i.1) f w h

pub request_of-RequestBytes :
    (is : List Tlv) (r : Request)
    → All IsByte (encode is)
    → RequestBytes r
    → RequestBytes (request_of is r)
unfolding request_of
request_of-RequestBytes [] r w b = b
request_of-RequestBytes (i ∷ is) r w b =
    let (wi, ws) = All-append IsByte (encode_item i) (encode is) w in
    request_of-RequestBytes is (apply i r) ws (apply-RequestBytes i r wi.1.1.1 b)

pub Accepted-RequestBytes :
    (b : List ℕ) (len : ℕ) (op : Operation)
    → All IsByte b
    → (a : Accepted b len op) → RequestBytes (request_of a.items no_request)
Accepted-RequestBytes b len op w a =
    request_of-RequestBytes a.items no_request (rw a.bytes at (All-take IsByte len b w))
      (record { payload = tt; ski = tt; digest = tt; client_ip = tt })
