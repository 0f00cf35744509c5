-- ===== src/Client/Sends.antt =====
-- testclient.c: kssl_write against the server.
use keyless.Prelude.{
  ℕ, ◌+◌, ◌≡◌, refl, ◌∙◌, arith, some, List, [], ◌∷◌, ◌++◌, ◌≤◌, Bool, true, ==_iff, length,
}
use keyless.Protocol.{Header, ErrorCode, no_error, IsByte, IsDword, header_size, version_maj}
use keyless.KeyStore.{KeyStore}
use keyless.Connection.Spec.{IsHeader}
use keyless.Message.{Operation, zero_operation, items_size, padding_size, flatten_operation}
use keyless.Message.Bytes.{RequestBytes}
use keyless.Message.Flatten.{message, message_size, sent_header, flatten_operation-message}
use keyless.Message.Request.{Request, Shows, is_complete}
use keyless.Message.RoundTrip.{body, length-body, message-Received}
use keyless.Core.Answer.{answer-Answered}
use keyless.Core.Reacts.{Reacts}
use keyless.Core.Serve.{operate_by, reply_accepted, complete_payload, send_lem, answer_bytes}
use keyless.Client.{Outcome, returns, Peer, Session, request_bytes, kssl_write}
use keyless.Client.Laws.{ServerAt, record_limit}
use keyless.Client.Exchange.{seen, IsAnswer, answer-IsAnswer}

-- A request that a message can carry. It makes the same message as `alike`, which is the request
-- itself, but that a payload without bytes may be NULL, of no more than 16384 bytes. That shows `r`, which has an opcode, a
-- payload and bytes in its fields.
pub record CanSend (op : Operation) (r : Request) : Type 0 where
  pub alike : Operation
  pub same :
      (h : Header)
      → flatten_operation true true (some h) (some op)
        ≡ flatten_operation true true (some h) (some alike)
  pub shows : Shows alike r
  pub opcode : IsByte alike.opcode
  pub bytes : RequestBytes r
  pub complete : is_complete r ≡ true
  pub fits : message_size alike ≤ record_limit

-- What a header's sender sets. The length is set by flatten_operation.
pub record CanHead (k : Header) : Type 0 where
  pub min : IsByte k.version_min
  pub num : IsDword k.id

sent-IsHeader :
    (k : Header) (op : Operation) → CanHead k → IsByte k.version_maj → IsHeader (sent_header k op)
sent-IsHeader k op w v = record { maj = v; min = w.min; len = omega arith; num = w.num }

module _ (p : Peer) (ks : KeyStore) (malloc_ok : Bool) (fuel : ℕ)
    (server : ServerAt p ks malloc_ok fuel) where
  open server use {pending}

  -- `result` has sent a request that is answered by `out`.
  pub record HasSent (s : Session p) (out : List ℕ) (result : Outcome (Session p)) : Type 0 where
    pub after : Session p
    pub ends : result ≡ returns after
    pub queued : pending after.ssl ≡ pending s.ssl ++ out ∷ []
    pub tests : after.tests ≡ s.tests

  -- kssl_write, by what flatten_operation makes and SSL_write takes
  write-HasSent :
      (s : Session p) (k : Header) (op like : Operation) (r : Request) (out : List ℕ)
      → ((h : Header)
          → flatten_operation true true (some h) (some op)
            ≡ flatten_operation true true (some h) (some like))
      → Shows like r
      → (let sent = message (sent_header k like) r (padding_size (header_size + items_size like)) in
          ((p.write s.ssl sent).0 ≡ some (length sent))
          × (pending (p.write s.ssl sent).1 ≡ pending s.ssl ++ out ∷ []))
      → HasSent s out (kssl_write p s k op)
  unfolding kssl_write request_bytes
  write-HasSent s k op like r out same shows (w, q) =
      let n : ℕ = padding_size (header_size + items_size like) in
      let sent : List ℕ = message (sent_header k like) r n in
      let size : length sent ≡ message_size like = omega (arith, length-body like r shows) in
      record {
        after = record s { ssl = (p.write s.ssl sent).1 };
        ends = rw (
          server.calloc_good s.ssl,
          same k,
          flatten_operation-message k like r shows,
          w,
          (==_iff (length sent) (message_size like)).1 size,
        );
        queued = q;
        tests = refl;
      }

  -- What the server makes of a request, and that the client can read it.
  pub record IsServed (k : Header) (r : Request) (resp : Operation) (out : List ℕ) : Type 0 where
    pub code : ErrorCode
    pub shown : Request
    pub request : Operation
    pub requests : Shows request r
    pub reacts : Reacts ks malloc_ok request r code shown
    pub answer : IsAnswer k.id resp out (seen code shown)

  pub kssl_write-HasSent :
      (s : Session p) (k : Header) (op : Operation) (r : Request) (resp : Operation)
      → k.version_maj ≡ version_maj
      → CanHead k
      → CanSend op r
      → (out : List ℕ) × IsServed k r resp out × HasSent s out (kssl_write p s k op)
  kssl_write-HasSent s k op r resp v w c =
      let m =
        message-Received k c.alike r k zero_operation (omega (arith, v)) w.min w.num c.opcode
          (omega (arith, c.fits)) c.shows in
      let h : Header = sent_header k c.alike in
      let b : List ℕ = body c.alike r in
      let a =
        answer-Answered ks server.store_laws malloc_ok m.operation r m.shows c.bytes
          (complete_payload ks malloc_ok h b r c.complete) in
      let result =
        operate_by ks malloc_ok h b true (no_error, some m.operation) a.code a.response
          (rw c.complete at m.payload) (reply_accepted ks malloc_ok h b m.operation ∙ a.result)
        ∙ send_lem h a.code a.response a.shown a.shows in
      let out : List ℕ = answer_bytes k.id a.code a.response a.shown in
      let l : length b ≡ h.length = omega (arith, length-body c.alike r c.shows, c.fits) in
      let answer =
        answer-IsAnswer ks malloc_ok server.small c.alike r c.shows c.complete c.fits k.id w.num
          resp a.response a.reacts a.shows in
      (
        out,
        record {
          code = a.code;
          shown = a.shown;
          request = m.operation;
          requests = m.shows;
          reacts = a.reacts;
          answer = answer;
        },
        write-HasSent s k op c.alike r out c.same c.shows (
            server.answers s.ssl h b out _ (sent-IsHeader k c.alike w (omega (arith, v))) v
              (omega (arith, c.fits)) l result answer.short),
      )
