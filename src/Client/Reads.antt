-- ===== src/Client/Reads.antt =====
-- testclient.c: the loops around SSL_read in kssl and kssl_read, against the server.
use keyless.Prelude.{
  ℕ, zero, suc, ◌<◌, ◌≡◌, refl, sym, ap, ◌∙◌, arith, some, List, [], ◌∷◌, ◌++◌, append-nil, Bool,
  true, Option, ==_iff, length, take, drop, length-append, take-append, drop-append, lt→ltb,
}
use keyless.Protocol.{Pointer, Header, ErrorCode, no_error, header_size, version_maj}
use keyless.Wire.{parse_header}
use keyless.Wire.Encoding.{encode_header}
use keyless.KeyStore.{KeyStore}
use keyless.Connection.{ReadResult, got, want_read, want_write, zero_return, other_error}
use keyless.Connection.Spec.{IsHeader}
use keyless.Message.RoundTrip.{parse_header-encode}
use keyless.Client.{
  Outcome, returns, Peer, Session, read_exactly, read_payload, checked_reply, read_reply,
}
use keyless.Client.Laws.{is_wait, with_left, gives, has_to_wait, ServerAt}

module _ (p : Peer) (ks : KeyStore) (malloc_ok : Bool) (fuel : ℕ)
    (server : ServerAt p ks malloc_ok fuel) where
  open server use {pending, delay}

  -- `result` has read `value`, and `rest` is still to be read.
  pub record HasRead {ℓ} {A : Type ℓ} (s : Session p) (value : A) (rest : List (List ℕ))
      (result : Outcome (A × Session p)) : Type ℓ where
    pub after : Session p
    pub ends : result ≡ returns (value, after)
    pub left : pending after.ssl ≡ rest
    pub tests : after.tests ≡ s.tests

  read_exactly_step :
      (k n : ℕ) (s : Session p) (b : List ℕ)
      → (p.read s.ssl n).0 ≡ got b
      → length b ≡ n
      → read_exactly p (suc k) n s ≡ returns (b, record s { ssl = (p.read s.ssl n).1 })
  unfolding read_exactly
  read_exactly_step k n s b e l = rw (e, (==_iff (length b) n).1 l, read_exactly)

  again_if_wait :
      (k n : ℕ) (s : Session p) (r : ReadResult)
      → (p.read s.ssl n).0 ≡ r
      → is_wait r ≡ true
      → read_exactly p (suc k) n s ≡ read_exactly p k n (record s { ssl = (p.read s.ssl n).1 })
  unfolding read_exactly
  again_if_wait k n s (got b) e h = cc
  again_if_wait k n s want_read e h = rw (e, read_exactly)
  again_if_wait k n s want_write e h = rw (e, read_exactly)
  again_if_wait k n s zero_return e h = cc
  again_if_wait k n s other_error e h = cc

  read_exactly-HasRead :
      (k n : ℕ) (s : Session p) (b more : List ℕ) (rest : List (List ℕ))
      → delay s.ssl < k
      → 0 < n
      → length b ≡ n
      → pending s.ssl ≡ (b ++ more) ∷ rest
      → HasRead s b (with_left more rest) (read_exactly p k n s)
  read_exactly-HasRead zero n s b more rest d lt l e = absurd (omega (arith, d))
  read_exactly-HasRead (suc k) n s b more rest d lt l e =
      elim (server.reads s.ssl n (b ++ more) rest e lt (omega (arith, l, length-append b more))) [
        | gives g left ↦
            let t : take n (b ++ more) ≡ b = rw (← l) (take-append b more) in
            let dr : drop n (b ++ more) ≡ more =
              rw (← l) (ap (λ i. drop i (b ++ more)) (omega arith) ∙ drop-append b more 0) in
            record {
              after = record s { ssl = (p.read s.ssl n).1 };
              ends = read_exactly_step k n s b (g ∙ ap got t) l;
              left = left ∙ ap (λ x. with_left x rest) dr;
              tests = refl;
            }
        | has_to_wait g left less ↦
            let r =
              read_exactly-HasRead k n (record s { ssl = (p.read s.ssl n).1 }) b more rest
                (omega arith) lt l (left ∙ e) in
            record {
              after = r.after;
              ends = again_if_wait k n s (p.read s.ssl n).0 refl g ∙ r.ends;
              left = r.left;
              tests = r.tests;
            }
      ]

  bytes_left : (b : List ℕ) (rest : List (List ℕ)) → 0 < length b → with_left b rest ≡ b ∷ rest
  bytes_left [] rest h = absurd (omega (arith, h))
  bytes_left (x ∷ b) rest h = refl

  read_payload-HasRead :
      (contents : Pointer) (s : Session p) (h : Header) (b : List ℕ) (rest : List (List ℕ))
      → 0 < h.length
      → length b ≡ h.length
      → pending s.ssl ≡ b ∷ rest
      → HasRead s (record { header = h; contents = some b }) rest (read_payload p fuel contents h s)
  unfolding read_payload
  read_payload-HasRead contents s h b rest lt l e =
      let r =
        read_exactly-HasRead fuel h.length s b [] rest (server.patient s.ssl) lt l
          (e ∙ ap (λ x. x ∷ rest) (sym (append-nil b))) in
      record {
        after = r.after;
        ends = rw (lt→ltb 0 h.length lt, server.payload_good s.ssl h.length, r.ends);
        left = r.left;
        tests = r.tests;
      }

  checked_reply_lem :
      (contents : Pointer) (s : Session p) (k h : Header) (e : ErrorCode)
      → h.version_maj ≡ version_maj
      → h.id ≡ k.id
      → checked_reply p fuel contents k (e, some h) s ≡ read_payload p fuel contents h s
  unfolding checked_reply
  checked_reply_lem contents s k h e v i = rw (
    (==_iff h.version_maj version_maj).1 v,
    (==_iff k.id h.id).1 (sym i),
    server.header_good s.ssl,
  )

  read_reply_by :
      (contents : Pointer) (k : Header) (s s' : Session p) (buf : List ℕ)
      (parsed : ErrorCode × Option Header)
      → read_exactly p fuel header_size s ≡ returns (buf, s')
      → parse_header (some buf) (some p.unset.header) ≡ some parsed
      → read_reply p fuel contents k s ≡ checked_reply p fuel contents k parsed s'
  unfolding read_reply
  read_reply_by contents k s s' buf parsed e1 e2 = rw (e1, e2)

  -- The first of the messages that the server has sent is returned whole, if it has the version and
  -- the id that are expected.
  pub read_reply-HasRead :
      (contents : Pointer) (s : Session p) (k h : Header) (b : List ℕ) (rest : List (List ℕ))
      → IsHeader h
      → h.version_maj ≡ version_maj
      → h.id ≡ k.id
      → 0 < h.length
      → length b ≡ h.length
      → pending s.ssl ≡ (encode_header h ++ b) ∷ rest
      → HasRead s (record { header = h; contents = some b }) rest (read_reply p fuel contents k s)
  read_reply-HasRead contents s k h b rest w v i lt l e =
      let r =
        read_exactly-HasRead fuel header_size s (encode_header h) b rest (server.patient s.ssl)
          (omega arith) refl e in
      let there = bytes_left b rest (omega (arith, lt, l)) in
      let parsed = parse_header-encode h p.unset.header [] w.maj w.min w.len w.num in
      let t = read_payload-HasRead contents r.after h b rest lt l (r.left ∙ there) in
      record {
        after = t.after;
        ends =
            read_reply_by contents k s r.after (encode_header h) (no_error, some h) r.ends parsed
            ∙ checked_reply_lem contents r.after k h no_error v i
            ∙ t.ends;
        left = t.left;
        tests = t.tests ∙ r.tests;
      }
