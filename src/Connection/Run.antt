-- ===== src/Connection/Run.antt =====
-- A turn of the loop of do_ssl, by the answer of SSL_read.
use keyless.Prelude.{
  ℕ, ◌+◌, ◌-◌, ◌≤◌, ◌<◌, ◌≡◌, inl, inr, refl, sym, ap, ◌∙◌, arith, some, List, [], ◌++◌, Bool, true,
  false, length, All, length-append, append_assoc, append-nil, ltb, ltb→lt, ltb→le, Bool-cases,
  All-append,
}
use mathlib.Core.Path.{subst}
use keyless.Protocol.{IsByte, ◌>>=◌}
use keyless.ConnectionState.{Connection, receive}
use keyless.Connection.{
  Surroundings, World, again, done, ReadResult, got, want_read, want_write, zero_return,
  other_error, complete, turn_by,
}
use keyless.Connection.Spec.{
  SurroundingsLaws, IsQueue, Reading, reading_header, reading_payload, IsReady, is_got,
}
use keyless.Connection.Bytes.{store-Filled}
use keyless.Queue.Holds.{Holds}
use keyless.Connection.Line.{line_of, nothing}
use keyless.Connection.Turns.{continues, waits, Goes}
use keyless.Connection.Steps.{All-join, header_read-Goes, message_read-Goes}

-- The connection after some bytes were received.
record Receives (c : Connection) (part b : List ℕ) : Type 0 where
  after : Connection
  result : receive c b ≡ some after
  reading : Reading after (part ++ b)
  need : after.need ≡ c.need - length b
  queue : after.queue ≡ c.queue

receive-Receives :
    (c : Connection) (part b : List ℕ)
    → Reading c part
    → All IsByte b
    → length b ≤ c.need
    → Receives c part b
unfolding receive
receive-Receives c part b (reading_header {read} i) w l =
    let f =
      store-Filled c.wire_header read b c.offset i.offset i.written
        (omega (arith, i.need, i.sized)) in
    record {
      after = record c {
        wire_header = f.buffer;
        offset = c.offset + length b;
        need = c.need - length b;
      };
      result = rw (i.place, f.result);
      reading = reading_header (record {
        phase = i.phase;
        start = i.start;
        place = i.place;
        sized = f.size ∙ i.sized;
        offset = omega (arith, i.offset, length-append read b);
        written = f.written;
        need = omega (arith, i.need);
        bytes = All-join IsByte read b i.bytes w;
      });
      need = refl;
      queue = refl;
    }
receive-Receives c part b (reading_payload {read} i) w l =
    let f =
      store-Filled i.memory read b c.offset i.offset i.written (omega (arith, i.need, i.room)) in
    record {
      after = record c {
        payload = some f.buffer;
        offset = c.offset + length b;
        need = c.need - length b;
      };
      result = rw (i.place, i.is, f.result);
      reading = reading_payload (record {
        phase = i.phase;
        start = i.start;
        place = i.place;
        sized = i.sized;
        memory = f.buffer;
        is = refl;
        room = f.size ∙ i.room;
        offset = omega (arith, i.offset, length-append read b);
        written = f.written;
        need = omega (arith, i.need);
        bytes = All-join IsByte read b i.bytes w;
        fits = i.fits;
        version = i.version;
        some_length = i.some_length;
      });
      need = refl;
      queue = refl;
    }

module _ (env : Surroundings) (laws : SurroundingsLaws env) where
  open env use {Ssl}
  open laws use {unread}

  complete-Goes :
      (input : List ℕ) (left fuel : ℕ) (w : World env) (part : List ℕ)
      → (q : IsQueue w.connection.queue) → length (unread w.ssl) < left
      → left ≤ fuel
      → w.connection.need ≡ 0
      → Reading w.connection part
      → input ≡ part ++ unread w.ssl
      → Goes env laws input left w.handled (line_of w.sent q) (complete env fuel w)
  unfolding complete
  complete-Goes input left fuel w part q less enough ended (reading_header {read} i) split =
      rw (i.phase, complete)
        (header_read-Goes env laws input left fuel w q read less enough ended i split)
  complete-Goes input left fuel w part q less enough ended (reading_payload {read} i) split =
      rw (i.phase, complete)
        (message_read-Goes env laws input left fuel w q read less enough ended i split)

  -- The turn after SSL_read gave some bytes.
  got-Goes :
      (fuel : ℕ) (w : World env) (part b : List ℕ) (ssl : Ssl)
      → (ready : IsReady w.connection part) → All IsByte b
      → 0 < length b
      → length b ≤ w.connection.need
      → unread w.ssl ≡ b ++ unread ssl
      → length (unread w.ssl) ≤ fuel
      → Goes env laws
          (part ++ unread w.ssl)
          (length (unread w.ssl))
          w.handled
          (line_of w.sent ready.queue)
          (turn_by env fuel (record w { ssl = ssl }) (got b))
  unfolding turn_by
  got-Goes fuel w part b ssl ready wb some_read fits split enough =
      let v = receive-Receives w.connection part b ready.reading wb fits in
      let input : part ++ unread w.ssl ≡ (part ++ b) ++ unread ssl =
        ap (λ t. part ++ t) split ∙ sym (append_assoc part b (unread ssl)) in
      let less : length (unread ssl) < length (unread w.ssl) =
        omega (arith, ap length split, length-append b (unread ssl)) in
      let q : IsQueue v.after.queue = record {
        items = ready.queue.items;
        holds = subst (λ s. Holds s ready.queue.items) (sym v.queue) ready.queue.holds;
        full = ready.queue.full;
      } in
      let next : World env = record w { connection = v.after; ssl = ssl } in
      elim (Bool-cases (ltb 0 v.after.need)) [
        | inl more ↦
            rw (v.result, ◌>>=◌)
              (rw (more, turn_by)
                (record {
                  turn = again next;
                  result = refl;
                  after =
                      continues (part ++ b) []
                        (record {
                          queue = q;
                          reading = v.reading;
                          more = ltb→lt 0 v.after.need more;
                        })
                        tt (sym (append-nil w.handled)) input less nothing;
                }))
        | inr all ↦
            rw (v.result, ◌>>=◌)
              (rw (all, turn_by)
                (complete-Goes (part ++ unread w.ssl) (length (unread w.ssl)) fuel next (part ++ b)
                  q less enough (omega (arith, ltb→le 0 v.after.need all)) v.reading input))
      ]

  idle :
      (w : World env) (part : List ℕ) (r : Bool)
      → (ready : IsReady w.connection part) → is_got (env.read w.ssl w.connection.need).0 ≡ false
      → Goes env laws
          (part ++ unread w.ssl)
          (length (unread w.ssl))
          w.handled
          (line_of w.sent ready.queue)
          (some (done r (record w { ssl = (env.read w.ssl w.connection.need).1 })))
  idle w part r ready g = record {
    turn = done r (record w { ssl = (env.read w.ssl w.connection.need).1 });
    result = refl;
    after =
        waits part ready refl (ap (λ t. part ++ t) (sym (laws.waits w.ssl w.connection.need g)))
          refl (record { asked = w.ssl; nothing_read = g; left = refl });
  }

  -- Any turn, by the answer of SSL_read.
  pub turn-Goes :
      (fuel : ℕ) (w : World env) (part : List ℕ) (a : ReadResult)
      → (ready : IsReady w.connection part) → length (unread w.ssl) ≤ fuel
      → (env.read w.ssl w.connection.need).0 ≡ a
      → Goes env laws
          (part ++ unread w.ssl)
          (length (unread w.ssl))
          w.handled
          (line_of w.sent ready.queue)
          (turn_by env fuel (record w { ssl = (env.read w.ssl w.connection.need).1 }) a)
  unfolding turn_by
  turn-Goes fuel w part (got b) ready enough e =
      let (p, l, s) = laws.reads w.ssl w.connection.need b ready.more e in
      let wb = All-append IsByte b _ (subst (All IsByte) s (laws.bytes w.ssl)) in
      got-Goes fuel w part b (env.read w.ssl w.connection.need).1 ready wb.0 p l s enough
  turn-Goes fuel w part want_read ready enough e = idle w part true ready (ap is_got e)
  turn-Goes fuel w part want_write ready enough e = idle w part true ready (ap is_got e)
  turn-Goes fuel w part zero_return ready enough e = idle w part false ready (ap is_got e)
  turn-Goes fuel w part other_error ready enough e = idle w part false ready (ap is_got e)
