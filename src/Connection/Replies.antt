-- ===== src/Connection/Replies.antt =====
-- do_ssl where nothing is lost: there is memory, and SSL_write takes something of what it is given.
use keyless.Prelude.{
  ℕ, ◌<◌, ◌≡◌, inl, inr, refl, sym, ap, ◌∙◌, arith, Option, some, List, [], ◌∷◌, ◌++◌, Bool, true,
  false, length, All, append_assoc, append-nil,
}
use mathlib.Core.Path.{subst}
use keyless.Protocol.{Header, ErrorCode, error_byte}
use keyless.Wire.Encoding.{encode_header}
use keyless.Core.Respond.{error_message}
use keyless.Core.Serve.{Served, answer_bytes, answer_size}
use keyless.Queue.{Queue, Queued}
use keyless.Queue.Holds.{Holds}
use keyless.Queue.Drain.{pending, is_wrote}
use keyless.Connection.{Surroundings, World, Message, Handshake, do_ssl}
use keyless.Connection.Spec.{SurroundingsLaws, IsReady, IsMessage, wire}
use keyless.Connection.Line.{
  Line, Writes, Outputs, nothing, replied, lost, Told, told, not_told, nothing_told,
}
use keyless.Connection.Turns.{Starved, Reason, code_of}
use keyless.Connection.Loop.{Ending, early, kept, dropped, may_read, do_ssl-Serves}

module _ (env : Surroundings) where
  -- The protocol's answers to messages, in their order
  pub data Replied : List Message → List ℕ → Type 0 where
    no_messages : Replied [] []
    more_replies :
        {m : Message} {ms : List Message} {out : List ℕ} (i : ℕ)
        (s : Served env.keys (env.output_ok i) m.header m.payload)
        → Replied ms out
        → Replied (m ∷ ms) (answer_bytes m.header.id s.code s.response s.shown ++ out)

  -- What is queued where the client was told of a header that is not followed: its error, if any.
  pub data Left : Queue → Type 0 where
    all_sent : {s : Queue} → Holds s [] → Left s
    error_left :
        {s : Queue} (h : Header) (code : ErrorCode) (reason : Reason env h)
        → code_of reason ≡ some code
        → Holds s (
            record {
              start = error_message h.id (error_byte code);
              send = error_message h.id (error_byte code);
              len = 1027;
            }
            ∷ [])
        → Left s

module _ (env : Surroundings) (memory : (i : ℕ) → env.calloc_ok i ≡ true)
    (flows : (i call : ℕ) (b : List ℕ) (n : ℕ)
      → 0 < n
      → is_wrote (env.write i call b n) ≡ true) where
  record Flowed (a b : Line) (ms : List Message) : Type 0 where
    empty : b.items ≡ []
    out : List ℕ
    replies : Replied env ms out
    sent : b.sent ≡ a.sent ++ out

  all_written : {i : ℕ} {a b : Line} → Writes (env.write i) a b → b.items ≡ []
  all_written {i} w = elim w.why [
    | inl e ↦ e
    | inr s ↦ cc (flows i s.call s.bytes s.len s.some_bytes, s.blocks)
  ]

  Outputs-Flowed :
      {a b : Line} {ms : List Message} → Outputs env a ms b → a.items ≡ [] → Flowed a b ms
  Outputs-Flowed {a} nothing e = record {
    empty = e;
    out = [];
    replies = no_messages;
    sent = sym (append-nil a.sent);
  }
  Outputs-Flowed (replied {a} {b} {c} {m} {ms} i s y r w o) e =
      let gone : b.items ≡ [] = all_written w in
      let f = Outputs-Flowed o gone in
      let answer : List ℕ = answer_bytes m.header.id s.code s.response s.shown in
      let taken : answer ≡ w.taken =
        sym (append-nil answer)
        ∙ ap
            (λ t. pending (
              t
              ++ record { start = answer; send = answer; len = answer_size s.code s.response }
                ∷ []))
            (sym e)
        ∙ w.in_order
        ∙ ap (λ t. w.taken ++ pending t) gone
        ∙ append-nil w.taken in
      record {
        empty = f.empty;
        out = answer ++ f.out;
        replies = more_replies i s f.replies;
        sent =
            f.sent
            ∙ ap (λ t. t ++ f.out) (w.sent ∙ ap (λ t. a.sent ++ t) (sym taken))
            ∙ append_assoc a.sent answer f.out;
      }
  Outputs-Flowed (lost i (inl n) w o) e = cc (memory i, n)
  Outputs-Flowed (lost i (inr l) w o) e = absurd (omega (arith, l, ap length e))

  module _ (laws : SurroundingsLaws env) where
    open laws use {unread}

    -- What of the stream is not answered: the part of a message of which SSL_read gives no more, all
    -- of it where the loop is not reached, or a header that is not followed and what stands behind it.
    pub data Rest (reading : Bool) (ms : List Message) (after : World env) : List ℕ → Type 0 where
      unfinished :
          (part : List ℕ)
          → IsReady after.connection part
          → Starved env laws after
          → Rest reading ms after (part ++ unread after.ssl)
      not_reached :
          (part : List ℕ)
          → IsReady after.connection part
          → reading ≡ false
          → ms ≡ []
          → Rest reading ms after (part ++ unread after.ssl)
      not_followed :
          (h : Header) (lost : List ℕ)
          → Reason env h
          → Rest reading ms after (encode_header h ++ (lost ++ unread after.ssl))

    -- What do_ssl does with the stream `input`: messages that it has the answers to sent, in order,
    -- and behind them at most the error of a header that it does not follow.
    pub record Replies (reading : Bool) (input : List ℕ) (before : World env)
        (result : Option (Bool × World env)) : Type 0 where
      pub returns : Bool
      pub after : World env
      pub ends : result ≡ some (returns, after)
      pub messages : List Message
      pub are_messages : All IsMessage messages
      pub rest : List ℕ
      pub split : input ≡ wire messages ++ rest
      pub why : Rest reading messages after rest
      pub out : List ℕ
      pub replies : Replied env messages out
      pub sent : after.sent ≡ before.sent ++ out
      pub left : Left env after.connection.queue

    outcome-Left :
        {h : Header} {o : Option ErrorCode} {a b : Line} {s : Queue} (reason : Reason env h)
        → code_of reason ≡ o
        → a.items ≡ []
        → Told env h o a b
        → Holds s b.items
        → (b.sent ≡ a.sent) × Left env s
    outcome-Left {h} {o} {a} {s} reason r e (told i code is m lt) holds = (
      refl,
      error_left h code reason (r ∙ is) (
          subst
            (λ (xs : List Queued). Holds s (
              xs
              ++ record {
                start = error_message h.id (error_byte code);
                send = error_message h.id (error_byte code);
                len = 1027;
              }
                ∷ []))
            e holds),
    )
    outcome-Left {s} reason r e (not_told i why) holds = (refl, all_sent (subst (Holds s) e holds))
    outcome-Left {s} reason r e (nothing_told n) holds = (refl, all_sent (subst (Holds s) e holds))

    ending-Replies :
        {reading : Bool} {input : List ℕ} {w : World env} {start : Line}
        {result : Option (Bool × World env)} {ms : List Message} {r : Bool} {x : World env}
        → result ≡ some (r, x)
        → All IsMessage ms
        → start.items ≡ []
        → start.sent ≡ w.sent
        → Ending env laws reading input start ms r x
        → Replies reading input w result
    ending-Replies {start} ends ok e same (early {r} {w = x} part ready n z split l) = record {
      returns = r;
      after = x;
      ends = ends;
      messages = [];
      are_messages = tt;
      rest = part ++ unread x.ssl;
      split = split;
      why = not_reached part ready n refl;
      out = [];
      replies = no_messages;
      sent = ap (λ l. l.sent) l ∙ same ∙ sym (append-nil _);
      left =
          all_sent (subst (Holds x.connection.queue) (ap (λ l. l.items) l ∙ e) ready.queue.holds);
    }
    ending-Replies ends ok e same (kept {r} {w = x} part ready b split o) =
        let f = Outputs-Flowed o e in
        record {
          returns = r;
          after = x;
          ends = ends;
          messages = _;
          are_messages = ok;
          rest = part ++ unread x.ssl;
          split = split;
          why = unfinished part ready b;
          out = f.out;
          replies = f.replies;
          sent = f.sent ∙ ap (λ t. t ++ f.out) same;
          left = all_sent (subst (Holds x.connection.queue) f.empty ready.queue.holds);
        }
    ending-Replies ends ok e same (dropped {w = x} h gone reason ready split o t) =
        let f = Outputs-Flowed o e in
        let (still, left) = outcome-Left reason refl f.empty t ready.queue.holds in
        record {
          returns = true;
          after = x;
          ends = ends;
          messages = _;
          are_messages = ok;
          rest = encode_header h ++ (gone ++ unread x.ssl);
          split = split;
          why = not_followed h gone reason;
          out = f.out;
          replies = f.replies;
          sent = still ∙ f.sent ∙ ap (λ t. t ++ f.out) same;
          left = left;
        }

    -- Where there is always memory for answers and SSL_write always takes some of what it is given, on
    -- a connection with no buffers queued, with fuel for more turns than bytes are unread: do_ssl
    -- ends without a fault, and the client was sent the protocol's answers to the messages that the
    -- stream begins with, in order. Behind these messages stands the part of one of which SSL_read
    -- gave no more, or a header that is not followed, or there are none and the handshake is not
    -- finished. At most the error of a header that is not followed waits to be sent.
    pub do_ssl-Replies :
        (fuel : ℕ) (init_finished : Bool) (handshake : Handshake) (w : World env) (part : List ℕ)
        (ready : IsReady w.connection part)
        → ready.queue.items ≡ []
        → length (unread w.ssl) < fuel
        → Replies
            (may_read w.connection.connected init_finished handshake)
            (part ++ unread w.ssl)
            w
            (do_ssl env fuel init_finished handshake w)
    do_ssl-Replies fuel init_finished handshake w part ready e lt =
        let s = do_ssl-Serves env laws fuel init_finished handshake w part ready lt in
        ending-Replies s.ends s.are_messages e refl s.ending
