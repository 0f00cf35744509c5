-- ===== src/Connection/Answers.antt =====
-- What the client gets for a message that was read whole.
use keyless.Prelude.{
  ℕ, ◌<◌, ◌≡◌, refl, sym, ap, ◌∙◌, arith, Option, some, List, [], ◌∷◌, ◌++◌, true, length, All,
  append_assoc, append-nil, take-all,
}
use keyless.Core.Serve.{Served, answer_bytes, answer_size, kssl_operate-Served}
use keyless.Queue.{Queued}
use keyless.Queue.Holds.{Holds}
use keyless.Queue.Enqueue.{queue_write-Pushed}
use keyless.Queue.Drain.{IsPending, pending}
use keyless.Queue.Fuel.{drain-Drains}
use keyless.ConnectionState.{
  Connection, at_start, queue_output, set_get_header_state, free_read_state,
}
use keyless.Connection.{Surroundings, World, Turn, again, message_read, queue_answer}
use keyless.Connection.Spec.{SurroundingsLaws, InPayload}
use keyless.Connection.Outputs.{answer_bytes-length, All-snoc}

pending-append : (xs : List Queued) (e : Queued) → pending (xs ++ e ∷ []) ≡ pending xs ++ e.send
pending-append [] e = append-nil e.send
pending-append (x ∷ xs) e =
    ap (λ t. x.send ++ t) (pending-append xs e) ∙ sym (append_assoc x.send (pending xs) e.send)

module _ (env : Surroundings) (laws : SurroundingsLaws env) where
  -- The turn goes on; the bytes that SSL_write has taken, with those that are queued still, are those
  -- from before with the protocol's answer to the message behind them.
  pub record Answers (w : World env) (items : List Queued) (payload : List ℕ)
      (result : Option (Turn env)) : Type 0 where
    pub after : World env
    pub ends : result ≡ some (again after)
    pub served : Served env.keys (env.output_ok w.turn) w.connection.header payload
    pub left : List Queued
    pub holds : Holds after.connection.queue left
    pub in_order :
        after.sent ++ pending left
        ≡ w.sent
          ++ (pending items
              ++ answer_bytes w.connection.header.id served.code served.response served.shown)
    pub handled :
        after.handled ≡ w.handled ++ record { header = w.connection.header; payload = payload } ∷ []

  -- On a connection that has read the whole payload, with memory for the answer and fewer than 15
  -- buffers queued, none of them empty, the rest of the turn ends without a fault, and what the
  -- client gets is what it would have got before, and then the protocol's answer to the message.
  pub message_read-Answers :
      (w : World env) (payload : List ℕ) (items : List Queued)
      → InPayload w.connection payload
      → w.connection.need ≡ 0
      → Holds w.connection.queue items
      → All IsPending items
      → length items < 15
      → env.calloc_ok w.turn ≡ true
      → Answers w items payload (message_read env w)
  unfolding message_read at_start queue_answer queue_output set_get_header_state free_read_state
  message_read-Answers w payload items i ended h full room memory =
      let c : Connection = w.connection in
      let same : i.memory ≡ payload =
        sym (take-all c.offset i.memory (omega (arith, i.need, i.room, ended))) ∙ i.written in
      let s =
        kssl_operate-Served env.keys (env.output_ok w.turn) c.header payload laws.store_laws i.bytes
          (omega (arith, i.need, i.offset, ended)) in
      let b : List ℕ = answer_bytes c.header.id s.code s.response s.shown in
      let len : ℕ = answer_size s.code s.response in
      let (l, some_bytes) = answer_bytes-length c.header.id s.code s.response s.shown s.shows in
      let e : Queued = record { start = b; send = b; len = len } in
      let p = queue_write-Pushed c.queue items b len h in
      let pushed : Holds p.after (items ++ e ∷ []) = rw (p.room.1 room) at p.holds in
      let d =
        drain-Drains (env.write w.turn) p.after (items ++ e ∷ []) (laws.writes w.turn) pushed
          (All-snoc IsPending items e full (some_bytes, sym l)) in
      record {
        after = record w {
          connection = set_get_header_state (free_read_state (record c { queue = d.after }));
          sent = w.sent ++ d.taken;
          handled = w.handled ++ record { header = c.header; payload = payload } ∷ [];
        };
        ends = rw (i.start, i.is, same, memory, s.result, p.result, d.ends) refl;
        served = s;
        left = d.left;
        holds = d.holds;
        in_order =
            append_assoc w.sent d.taken (pending d.left)
            ∙ ap (λ t. w.sent ++ t) (sym d.in_order ∙ pending-append items e);
        handled = refl;
      }
