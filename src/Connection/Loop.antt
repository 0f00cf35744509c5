-- ===== src/Connection/Loop.antt =====
-- do_ssl as a whole: it cuts the stream into messages, and answers each of them.
use keyless.Prelude.{
  ℕ, zero, suc, ◌+◌, ◌<◌, ◌≡◌, inl, inr, refl, sym, ap, ◌∙◌, arith, Option, some, List, [], ◌∷◌,
  ◌++◌, Bool, true, false, length, All, append_assoc, append-nil, lt→ltb, Bool-cases,
}
use keyless.Protocol.{Header, ◌>>=◌}
use keyless.Wire.Encoding.{encode_header}
use keyless.Connection.{
  Surroundings, World, Turn, again, done, Message, one_turn, ssl_loop, do_ssl, Handshake, finished,
  in_progress, broken,
}
use keyless.Connection.Spec.{Reading-others, SurroundingsLaws, IsReady, IsMessage, wire}
use mathlib.Core.Path.{subst}
use keyless.Connection.Line.{Line, line_of, Outputs, nothing, Outputs-append, Told}
use keyless.Connection.Turns.{After, Starved, continues, waits, refuses, Reason, code_of}
use keyless.Connection.Steps.{All-join}
use keyless.Connection.Run.{turn-Goes}

-- Whether do_ssl comes to its loop: the TLS handshake has been finished.
abbrev pub may_read : Bool → Bool → Handshake → Bool
may_read true init_finished handshake = true
may_read false true handshake = true
may_read false false finished = true
may_read false false in_progress = false
may_read false false broken = false

module _ (env : Surroundings) (laws : SurroundingsLaws env) where
  open env use {Ssl}
  open laws use {unread}

  -- Where the stream ends after some messages: with the part of a message that is kept, where SSL_read
  -- gives no more or where `reading` is not reached, or behind a header that is not followed, and what
  -- was dropped after it. The client gets what was `start` before, and the answers to the messages
  -- behind it, and then the error of such a header.
  pub data Ending (reading : Bool) (input : List ℕ) (start : Line) (ms : List Message)
      : Bool → World env → Type 0 where
    early :
        {r : Bool} {w : World env} (part : List ℕ) (ready : IsReady w.connection part)
        → reading ≡ false
        → ms ≡ []
        → input ≡ part ++ unread w.ssl
        → line_of w.sent ready.queue ≡ start
        → Ending reading input start ms r w
    kept :
        {r : Bool} {w : World env} (part : List ℕ) (ready : IsReady w.connection part)
        → Starved env laws w
        → input ≡ wire ms ++ (part ++ unread w.ssl)
        → Outputs env start ms (line_of w.sent ready.queue)
        → Ending reading input start ms r w
    dropped :
        {w : World env} {l : Line} (h : Header) (lost : List ℕ) (reason : Reason env h)
        (ready : IsReady w.connection [])
        → input ≡ wire ms ++ (encode_header h ++ (lost ++ unread w.ssl))
        → Outputs env start ms l
        → Told env h (code_of reason) l (line_of w.sent ready.queue)
        → Ending reading input start ms true w

  -- What do_ssl does with the stream `input`, after `before` was handled.
  pub record Serves (reading : Bool) (input : List ℕ) (before : List Message) (start : Line)
      (result : Option (Bool × World env)) : Type 0 where
    pub returns : Bool
    pub after : World env
    pub ends : result ≡ some (returns, after)
    pub messages : List Message
    pub are_messages : All IsMessage messages
    pub handled : after.handled ≡ before ++ messages
    pub ending : Ending reading input start messages returns after

  wire-append : (ms ns : List Message) → wire (ms ++ ns) ≡ wire ms ++ wire ns
  wire-append [] ns = refl
  wire-append (m ∷ ms) ns =
      ap (λ t. (encode_header m.header ++ m.payload) ++ t) (wire-append ms ns)
      ∙ sym (append_assoc (encode_header m.header ++ m.payload) (wire ms) (wire ns))

  more_input :
      (input tail end : List ℕ) (ms ns : List Message)
      → input ≡ wire ms ++ tail
      → tail ≡ wire ns ++ end
      → input ≡ wire (ms ++ ns) ++ end
  more_input input tail end ms ns e1 e2 =
      e1
      ∙ ap (λ t. wire ms ++ t) e2
      ∙ sym (append_assoc (wire ms) (wire ns) end)
      ∙ ap (λ t. t ++ end) (sym (wire-append ms ns))

  later-Ending :
      (reading : Bool) (input tail : List ℕ) {start l : Line} (ms ns : List Message) (r : Bool)
      (w : World env)
      → input ≡ wire ms ++ tail
      → Outputs env start ms l
      → Ending true tail l ns r w
      → Ending reading input start (ms ++ ns) r w
  later-Ending reading input tail ms ns r w e o (early part ready n z s l) = cc
  later-Ending reading input tail ms ns r w e o (kept part ready b s p) =
      kept part ready b (more_input input tail (part ++ unread w.ssl) ms ns e s)
        (Outputs-append env o p)
  later-Ending reading input tail ms ns r w e o (dropped h lost reason ready s p t) =
      dropped h lost reason ready
        (more_input input tail (encode_header h ++ (lost ++ unread w.ssl)) ms ns e s)
        (Outputs-append env o p) t

  -- What the loop does with a turn.
  abbrev on_turn : ℕ → Turn env → Option (Bool × World env)
  on_turn fuel t = elim t [ done r w' ↦ some (r, w') | again w' ↦ ssl_loop env fuel w' ]

  turn-Serves :
      (reading : Bool) (fuel : ℕ) (input : List ℕ) (left : ℕ) (before : List Message) (start : Line)
      {t : Turn env}
      → ((w : World env) (part : List ℕ) (ready : IsReady w.connection part)
          → length (unread w.ssl) < fuel
          → Serves true
              (part ++ unread w.ssl)
              w.handled
              (line_of w.sent ready.queue)
              (ssl_loop env fuel w))
      → left < suc fuel
      → After env laws input left before start t
      → Serves reading input before start (on_turn fuel t)
  turn-Serves reading fuel input left before start ih lt
        (continues {w} part ms ready ok handled split less o) =
      let s = ih w part ready (omega arith) in
      record {
        returns = s.returns;
        after = s.after;
        ends = s.ends;
        messages = ms ++ s.messages;
        are_messages = All-join IsMessage ms s.messages ok s.are_messages;
        handled = s.handled ∙ ap (λ t. t ++ s.messages) handled ∙ append_assoc before ms s.messages;
        ending =
            later-Ending reading input (part ++ unread w.ssl) ms s.messages s.returns s.after split
              o s.ending;
      }
  turn-Serves reading fuel input left before start ih lt
        (waits {r} {w} part ready handled split same block) =
      record {
        returns = r;
        after = w;
        ends = refl;
        messages = [];
        are_messages = tt;
        handled = handled ∙ sym (append-nil before);
        ending = kept part ready block split (subst (Outputs env start []) (sym same) nothing);
      }
  turn-Serves reading fuel input left before start ih lt
        (refuses {w} h lost reason ready handled split error) =
      record {
        returns = true;
        after = w;
        ends = refl;
        messages = [];
        are_messages = tt;
        handled = handled ∙ sym (append-nil before);
        ending = dropped h lost reason ready split nothing error;
      }

  ssl_loop-Serves :
      (reading : Bool) (fuel : ℕ) (w : World env) (part : List ℕ)
      (ready : IsReady w.connection part)
      → length (unread w.ssl) < fuel
      → Serves reading
          (part ++ unread w.ssl)
          w.handled
          (line_of w.sent ready.queue)
          (ssl_loop env fuel w)
  unfolding ssl_loop one_turn
  ssl_loop-Serves reading zero w part ready lt = absurd (omega (arith, lt))
  ssl_loop-Serves reading (suc fuel) w part ready lt =
      let g =
        turn-Goes env laws (suc fuel) (record w { turn = w.turn + 1 }) part
          (env.read w.ssl w.connection.need).0 ready (omega arith) refl in
      rw (lt→ltb 0 w.connection.need ready.more, ssl_loop)
        (rw (g.result, ◌>>=◌)
          (turn-Serves reading fuel (part ++ unread w.ssl) (length (unread w.ssl)) w.handled
            (line_of w.sent ready.queue)
            (λ w' part' ready' lt'. ssl_loop-Serves true fuel w' part' ready' lt') lt g.after))

  -- A run that ends before it reads.
  unread_yet :
      (w : World env) (part : List ℕ) (r : Bool) (ready : IsReady w.connection part)
      → Serves false (part ++ unread w.ssl) w.handled (line_of w.sent ready.queue) (some (r, w))
  unread_yet w part r ready = record {
    returns = r;
    after = w;
    ends = refl;
    messages = [];
    are_messages = tt;
    handled = sym (append-nil w.handled);
    ending = early part ready refl refl refl refl;
  }

  pub do_ssl-Serves :
      (fuel : ℕ) (init_finished : Bool) (handshake : Handshake) (w : World env) (part : List ℕ)
      (ready : IsReady w.connection part)
      → length (unread w.ssl) < fuel
      → Serves
          (may_read w.connection.connected init_finished handshake)
          (part ++ unread w.ssl)
          w.handled
          (line_of w.sent ready.queue)
          (do_ssl env fuel init_finished handshake w)
  unfolding do_ssl
  do_ssl-Serves fuel init_finished handshake w part ready lt =
      elim (Bool-cases w.connection.connected) [
        | inl y ↦ rw (y, do_ssl) (ssl_loop-Serves true fuel w part ready lt)
        | inr n ↦ rw (n, do_ssl) (handshaken init_finished handshake)
      ]
    where
      now : World env
      now = record w { connection = record w.connection { connected = true } }

      go :
          Serves true
            (part ++ unread w.ssl)
            w.handled
            (line_of w.sent ready.queue)
            (ssl_loop env fuel now)
      go =
          ssl_loop-Serves true fuel now part
            (record {
              queue = ready.queue;
              reading = Reading-others w.connection w.connection.queue true part ready.reading;
              more = ready.more;
            })
            lt

      handshaken :
          (b : Bool) (h : Handshake)
          → Serves
              (may_read false b h)
              (part ++ unread w.ssl)
              w.handled
              (line_of w.sent ready.queue)
              (elim b [
                | true ↦ ssl_loop env fuel now
                | false ↦ elim h [
                  | finished ↦ ssl_loop env fuel now
                  | in_progress ↦ some (true, w)
                  | broken ↦ some (false, w)
                ]
              ])
      handshaken true h = go
      handshaken false finished = go
      handshaken false in_progress = unread_yet w part true ready
      handshaken false broken = unread_yet w part false ready
