-- ===== src/Client/Talk.antt =====
-- testclient.c: kssl and kssl_read against the server.
use keyless.Prelude.{ℕ, ◌≡◌, ap, ◌∙◌, some, List, [], ◌∷◌, ◌++◌, Bool}
use keyless.Protocol.{Pointer, Header, ErrorCode, no_error, version_maj}
use keyless.KeyStore.{KeyStore}
use keyless.Message.{Operation, parse_message_payload}
use keyless.Message.Request.{Request, Shows}
use keyless.Core.Reacts.{Reacts}
use keyless.Client.{Outcome, returns, Peer, Session, ReturnedHeader, kssl_write, kssl, read_reply}
use keyless.Client.Laws.{ServerAt}
use keyless.Client.Exchange.{seen, IsAnswer}
use keyless.Client.Reads.{read_reply-HasRead}
use keyless.Client.Sends.{CanSend, CanHead, HasSent, kssl_write-HasSent}

module _ (p : Peer) (ks : KeyStore) (malloc_ok : Bool) (fuel : ℕ)
    (server : ServerAt p ks malloc_ok fuel) where
  open server use {pending}

  -- `result` has the header of an answer that shows `r`, and its payload parses so.
  pub record HasReply (s : Session p) (id : ℕ) (resp : Operation) (r : Request)
      (rest : List (List ℕ)) (result : Outcome (ReturnedHeader × Session p)) : Type 0 where
    pub reply : ReturnedHeader
    pub after : Session p
    pub ends : result ≡ returns (reply, after)
    pub maj : reply.header.version_maj ≡ version_maj
    pub same_id : reply.header.id ≡ id
    pub operation : Operation
    pub parses :
        parse_message_payload reply.contents reply.header.length (some resp)
        ≡ some (no_error, some operation)
    pub shows : Shows operation r
    pub left : pending after.ssl ≡ rest
    pub tests : after.tests ≡ s.tests

  pub read_reply-HasReply :
      (contents : Pointer) (s : Session p) (k : Header) (resp : Operation) (r : Request)
      (out : List ℕ) (rest : List (List ℕ))
      → IsAnswer k.id resp out r
      → pending s.ssl ≡ out ∷ rest
      → HasReply s k.id resp r rest (read_reply p fuel contents k s)
  read_reply-HasReply contents s k resp r out rest a e =
      let t =
        read_reply-HasRead p ks malloc_ok fuel server contents s k a.header a.payload rest a.fits
          a.maj a.same_id a.some_length a.sized (e ∙ ap (λ t. t ∷ rest) a.bytes) in
      record {
        reply = record { header = a.header; contents = some a.payload };
        after = t.after;
        ends = t.ends;
        maj = a.maj;
        same_id = a.same_id;
        operation = a.operation;
        parses = a.parses;
        shows = a.shows;
        left = t.left;
        tests = t.tests;
      }

  kssl_by :
      (s s' : Session p) (k : Header) (op : Operation)
      → kssl_write p s k op ≡ returns s'
      → kssl p fuel s k op ≡ read_reply p fuel p.unset.contents k s'
  unfolding kssl
  kssl_by s s' k op e = rw e

  kssl-HasReply :
      (s : Session p) (k : Header) (op : Operation) (resp : Operation) (r : Request) (out : List ℕ)
      → pending s.ssl ≡ []
      → IsAnswer k.id resp out r
      → HasSent p ks malloc_ok fuel server s out (kssl_write p s k op)
      → HasReply s k.id resp r [] (kssl p fuel s k op)
  kssl-HasReply s k op resp r out e a w =
      let q : pending w.after.ssl ≡ out ∷ [] = w.queued ∙ ap (λ t. t ++ out ∷ []) e in
      let t = read_reply-HasReply p.unset.contents w.after k resp r out [] a q in
      record {
        reply = t.reply;
        after = t.after;
        ends = kssl_by s w.after k op w.ends ∙ t.ends;
        maj = t.maj;
        same_id = t.same_id;
        operation = t.operation;
        parses = t.parses;
        shows = t.shows;
        left = t.left;
        tests = t.tests ∙ w.tests;
      }

  -- What the client gets for a request that shows `r`.
  pub record Exchanged (s : Session p) (k : Header) (r : Request) (resp : Operation)
      (result : Outcome (ReturnedHeader × Session p)) : Type 0 where
    pub code : ErrorCode
    pub shown : Request
    pub request : Operation
    pub requests : Shows request r
    pub reacts : Reacts ks malloc_ok request r code shown
    pub reply : HasReply s k.id resp (seen code shown) [] result

  -- Against a server with some keys, on a connection where nothing is left to read: kssl with any
  -- request that a message of no more than 16384 bytes, the limit of a TLS record, can carry returns. The header has the id of the request, and the payload
  -- parses as the protocol's reaction to the very request that was sent: the response, or an error
  -- with its code. Nothing is left to read, and no assertion is counted.
  pub kssl-Exchanged :
      (s : Session p) (k : Header) (op : Operation) (r : Request) (resp : Operation)
      → pending s.ssl ≡ []
      → k.version_maj ≡ version_maj
      → CanHead k
      → CanSend op r
      → Exchanged s k r resp (kssl p fuel s k op)
  kssl-Exchanged s k op r resp e v w c =
      let (out, served, sent) = kssl_write-HasSent p ks malloc_ok fuel server s k op r resp v w c in
      record {
        code = served.code;
        shown = served.shown;
        request = served.request;
        requests = served.requests;
        reacts = served.reacts;
        reply = kssl-HasReply s k op resp (seen served.code served.shown) out e served.answer sent;
      }
