-- ===== src/Connection/Turns.antt =====
-- What a turn of the loop may lead to, and the turns that end it after a header.
use keyless.Prelude.{
  ℕ, zero, suc, ◌<◌, ◌≡◌, ◌≢◌, refl, sym, ap, ◌∙◌, arith, Option, none, some, List, [], ◌++◌, Bool,
  true, false, length, All, length-append, append_assoc,
}
use mathlib.Core.Path.{subst}
use keyless.Protocol.{Header, ErrorCode, version_mismatch, internal, header_size, version_maj}
use keyless.Wire.Encoding.{encode_header}
use keyless.ConnectionState.{Connection, reset, set_get_header_state, free_read_state}
use keyless.Connection.{
  Surroundings, World, Turn, again, done, Message, ReadResult, got, want_read, want_write,
  zero_return, other_error, clear_read_queue, refuse, give_up,
}
use keyless.Connection.Spec.{
  SurroundingsLaws, IsQueue, Reading, reading_header, IsReady, IsMessage, wire, is_got,
}
use keyless.Connection.Line.{Line, line_of, Outputs, Told, nothing_told, write_error-Told}

-- Why a header is not followed by its payload.
pub data Reason (env : Surroundings) (h : Header) : Type 0 where
  other_version : h.version_maj ≢ version_maj → Reason env h
  no_payload : h.length ≡ 0 → Reason env h
  no_memory : (i : ℕ) → env.malloc i h.length ≡ none → Reason env h

-- What the client is told for that.
abbrev pub code_of : {env : Surroundings} {h : Header} → Reason env h → Option ErrorCode
code_of (other_version n) = some version_mismatch
code_of (no_payload z) = none
code_of (no_memory i m) = some internal

pub reset-Reading : (c : Connection) → length c.wire_header ≡ header_size → Reading (reset c) []
unfolding set_get_header_state free_read_state
reset-Reading c s = reading_header (record {
  phase = refl;
  start = refl;
  place = refl;
  sized = s;
  offset = refl;
  written = refl;
  need = omega arith;
  bytes = tt;
})

pub reset-more : (c : Connection) → 0 < (reset c).need
unfolding set_get_header_state
reset-more c = omega arith

-- A connection that waits for the next message
unfoldable pub ready_again :
    (c : Connection) → IsQueue c.queue → length c.wire_header ≡ header_size → IsReady (reset c) []
unfolding set_get_header_state free_read_state
ready_again c q s = record { queue = q; reading = reset-Reading c s; more = reset-more c }

module _ (env : Surroundings) (laws : SurroundingsLaws env) where
  open env use {Ssl}
  open laws use {unread}

  -- What is left after clear_read_queue.
  pub record Cleared (ssl : Ssl) (r : Option Ssl) : Type 0 where
    pub after : Ssl
    pub result : r ≡ some after
    pub dropped : List ℕ
    pub split : unread ssl ≡ dropped ++ unread after

  clear_done :
      (fuel : ℕ) (ssl : Ssl)
      → is_got (env.read ssl 1024).0 ≡ false
      → clear_read_queue env (suc fuel) ssl ≡ some (env.read ssl 1024).1
      → Cleared ssl (clear_read_queue env (suc fuel) ssl)
  clear_done fuel ssl g r = record {
    after = (env.read ssl 1024).1;
    result = r;
    dropped = [];
    split = sym (laws.waits ssl 1024 g);
  }

  clear_by :
      (fuel : ℕ) (ssl : Ssl) (a : ReadResult)
      → ((s : Ssl) → length (unread s) < fuel → Cleared s (clear_read_queue env fuel s))
      → length (unread ssl) < suc fuel
      → (env.read ssl 1024).0 ≡ a
      → Cleared ssl (clear_read_queue env (suc fuel) ssl)
  unfolding clear_read_queue
  clear_by fuel ssl (got b) ih lt e =
      let ssl' : Ssl = (env.read ssl 1024).1 in
      let (p, _, s) = laws.reads ssl 1024 b (omega arith) e in
      let c = ih ssl' (omega (arith, ap length s, length-append b (unread ssl'))) in
      record {
        after = c.after;
        result = rw (e, clear_read_queue) c.result;
        dropped = b ++ c.dropped;
        split = s ∙ ap (λ t. b ++ t) c.split ∙ sym (append_assoc b c.dropped (unread c.after));
      }
  clear_by fuel ssl want_read ih lt e = clear_done fuel ssl (ap is_got e) (rw (e, clear_read_queue))
  clear_by fuel ssl want_write ih lt e =
      clear_done fuel ssl (ap is_got e) (rw (e, clear_read_queue))
  clear_by fuel ssl zero_return ih lt e =
      clear_done fuel ssl (ap is_got e) (rw (e, clear_read_queue))
  clear_by fuel ssl other_error ih lt e =
      clear_done fuel ssl (ap is_got e) (rw (e, clear_read_queue))

  clear_read_queue-Cleared :
      (fuel : ℕ) (ssl : Ssl)
      → length (unread ssl) < fuel
      → Cleared ssl (clear_read_queue env fuel ssl)
  clear_read_queue-Cleared zero ssl lt = absurd (omega (arith, lt))
  clear_read_queue-Cleared (suc fuel) ssl lt =
      clear_by fuel ssl (env.read ssl 1024).0 (λ s l. clear_read_queue-Cleared fuel s l) lt refl

  -- The loop called SSL_read for the bytes that it needs, and got nothing.
  pub record Starved (w : World env) : Type 0 where
    pub asked : Ssl
    pub nothing_read : is_got (env.read asked w.connection.need).0 ≡ false
    pub left : w.ssl ≡ (env.read asked w.connection.need).1

  -- A turn on the stream `input`, of which `left` bytes were unread, with `before` handled already.
  -- It goes on, with whole messages handled and fewer bytes unread; or it returns where SSL_read gives
  -- nothing, and keeps the part of a message that it has; or it returns after a header that it does not follow, and drops
  -- what could be read behind it. What the client gets was `start` before the turn.
  pub data After (input : List ℕ) (left : ℕ) (before : List Message) (start : Line)
      : Turn env → Type 0 where
    continues :
        {w : World env} (part : List ℕ) (ms : List Message) (ready : IsReady w.connection part)
        → All IsMessage ms
        → w.handled ≡ before ++ ms
        → input ≡ wire ms ++ (part ++ unread w.ssl)
        → length (unread w.ssl) < left
        → Outputs env start ms (line_of w.sent ready.queue)
        → After input left before start (again w)
    waits :
        {r : Bool} {w : World env} (part : List ℕ) (ready : IsReady w.connection part)
        → w.handled ≡ before
        → input ≡ part ++ unread w.ssl
        → line_of w.sent ready.queue ≡ start
        → Starved w
        → After input left before start (done r w)
    refuses :
        {w : World env} (h : Header) (dropped : List ℕ) (reason : Reason env h)
        (ready : IsReady w.connection [])
        → w.handled ≡ before
        → input ≡ encode_header h ++ (dropped ++ unread w.ssl)
        → Told env h (code_of reason) start (line_of w.sent ready.queue)
        → After input left before start (done true w)

  pub record Goes (input : List ℕ) (left : ℕ) (before : List Message) (start : Line)
      (r : Option (Turn env)) : Type 0 where
    pub turn : Turn env
    pub result : r ≡ some turn
    pub after : After input left before start turn

  module _ (input : List ℕ) (left : ℕ) (w : World env) (reason : Reason env w.connection.header)
      (q : IsQueue w.connection.queue) (s : length w.connection.wire_header ≡ header_size)
      (split : input ≡ encode_header w.connection.header ++ unread w.ssl) where
    pub refuse-Goes :
        (fuel : ℕ) (e : ErrorCode)
        → length (unread w.ssl) < fuel
        → code_of reason ≡ some e
        → Goes input left w.handled (line_of w.sent q) (refuse env fuel e w)
    unfolding refuse ready_again
    refuse-Goes fuel e lt is =
        let t = write_error-Told env w.turn e w.connection (line_of w.sent q) q.holds q.full in
        let c = clear_read_queue-Cleared fuel w.ssl lt in
        record {
          turn = done true (record w {
            connection = reset (record w.connection { queue = t.after });
            ssl = c.after;
          });
          result = rw (t.result, c.result);
          after =
              refuses w.connection.header c.dropped reason
                (ready_again (record w.connection { queue = t.after })
                  (record { items = t.items; holds = t.holds; full = t.full }) s)
                refl (split ∙ ap (λ t. encode_header w.connection.header ++ t) c.split)
                (subst
                  (λ o.
                    Told env w.connection.header o (line_of w.sent q)
                      (record { sent = w.sent; items = t.items }))
                  (sym is) t.outcome);
        }

    pub give_up-After :
        code_of reason ≡ none → After input left w.handled (line_of w.sent q) (give_up env w)
    unfolding give_up ready_again
    give_up-After e =
        refuses w.connection.header [] reason (ready_again w.connection q s) refl split
          (nothing_told e)
