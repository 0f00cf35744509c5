-- ===== src/Worker/Callbacks.antt =====
-- read_cb on a connection of the list, and close_cb on one that waits for it.
use keyless.Prelude.{
  ℕ, ◌+◌, ◌<◌, ◌≡◌, ◌⊎◌, inl, inr, refl, sym, ap, some-eq-some, Option, some, List, [], ◌∷◌, ◌++◌,
  Bool, true, false, length,
}
use mathlib.Core.Path.{subst}
use keyless.Protocol.{◌>>=◌, >>=-eq-some}
use keyless.Queue.Fuel.{drain-Drains}
use keyless.ConnectionState.{Connection, get_header, get_payload, terminating}
use keyless.Connection.{Surroundings, World}
use keyless.Connection.Spec.{
  SurroundingsLaws, IsQueue, IsReady, IsReady-others, Reading, reading_header, reading_payload,
}
use keyless.Connection.Line.{Line}
use keyless.Connection.Loop.{Ending, early, kept, dropped, do_ssl-Serves}
use keyless.Worker.{Cell, Worker, Shutdown, Call, Nread, readable, ended, after_ssl, read_cb}
use keyless.Worker.Insert.{connection_at}
use keyless.Worker.State.{IsServing, ready, ending, Serving, IsWorker}
use keyless.Worker.Release.{
  then_lem, Runs, stays, All-at, modify-Kept, connection_terminate-Runs, try_shutdown-Runs,
}

Reading-phase :
    (c : Connection) (part : List ℕ)
    → Reading c part
    → (c.phase ≡ get_header) ⊎ (c.phase ≡ get_payload)
Reading-phase c part (reading_header i) = inl i.phase
Reading-phase c part (reading_payload i) = inr i.phase

module _ (env : Surroundings) (laws : SurroundingsLaws env) where
  open laws use {unread}

  Ending-IsServing :
      {reading : Bool} {input : List ℕ} {start : Line} {ms : List _} {r : Bool} {x : World env}
      → Ending env laws reading input start ms r x
      → (part : List ℕ) × IsReady x.connection part
  Ending-IsServing (early part r n z e l) = (part, r)
  Ending-IsServing (kept part r b e o) = (part, r)
  Ending-IsServing (dropped h lost why r e o t) = ([], r)

  module _ (xs : List ℕ) (p : ℕ) (ys closed : List ℕ) where
    after_ssl-Runs :
        (s : Shutdown) (w : Worker) (c : Connection) (b : Bool) (x : World env) (part : List ℕ)
        → IsWorker w (xs ++ p ∷ ys) closed
        → connection_at w p ≡ some c
        → IsReady x.connection part
        → Runs xs p ys closed (after_ssl env s p w (b, x))
    unfolding after_ssl
    after_ssl-Runs s w c true x part i h r =
        let d =
          drain-Drains (env.write (x.turn + 1)) x.connection.queue r.queue.items
            (laws.writes (x.turn + 1)) r.queue.holds r.queue.full in
        let q : IsQueue d.after = record {
          items = d.left;
          holds = d.holds;
          full = d.all_pending;
        } in
        let y : Connection = record x.connection { queue = d.after } in
        let k =
          modify-Kept xs p ys closed w (λ _. y) c i h
            (ready part (IsReady-others x.connection d.after x.connection.connected part q r)) in
        record {
          after = (false, k.after);
          result = then_lem _ d.ends (then_lem _ k.result refl);
          outcome = stays k.worker;
        }
    after_ssl-Runs s w c false x part i h r =
        let k = modify-Kept xs p ys closed w (λ _. x.connection) c i h (ready part r) in
        let t =
          connection_terminate-Runs xs p ys closed s k.after x.connection k.worker k.own r.queue in
        record { after = t.after; result = then_lem _ k.result t.result; outcome = t.outcome }

    read_ready :
        (call : Call env) (s : Shutdown) (w : Worker) (c : Cell) (part : List ℕ)
        → IsWorker w (xs ++ p ∷ ys) closed
        → w.cell p ≡ some c
        → IsReady c.connection part
        → length (unread call.ssl) < call.fuel
        → (n : Nread) → Runs xs p ys closed (read_cb env call s n p w)
    unfolding read_cb
    read_ready call s w c part i e r lt ended =
        let t =
          connection_terminate-Runs xs p ys closed s w c.connection i
            (ap (λ (o : Option Cell). o >>= λ c. some c.connection) e) r.queue in
        elim (Reading-phase c.connection part r.reading) [
          | inl a ↦ rw (e, read_cb) (rw (a, read_cb) t)
          | inr a ↦ rw (e, read_cb) (rw (a, read_cb) t)
        ]
    read_ready call s w c part i e r lt readable =
        let at : World env = record {
          connection = c.connection;
          ssl = call.ssl;
          turn = 0;
          sent = [];
          handled = [];
        } in
        let d = do_ssl-Serves env laws call.fuel call.init_finished call.handshake at part r lt in
        let (part', r') = Ending-IsServing d.ending in
        let t =
          after_ssl-Runs s w c.connection d.returns d.after part' i
            (ap (λ (o : Option Cell). o >>= λ c. some c.connection) e) r' in
        elim (Reading-phase c.connection part r.reading) [
          | inl a ↦ rw (e, read_cb) (rw (a, read_cb) (rw (d.ends, read_cb) t))
          | inr a ↦ rw (e, read_cb) (rw (a, read_cb) (rw (d.ends, read_cb) t))
        ]

    read_ending :
        (call : Call env) (s : Shutdown) (n : Nread) (w : Worker) (c : Cell)
        → IsWorker w (xs ++ p ∷ ys) closed
        → w.cell p ≡ some c
        → c.connection.phase ≡ terminating
        → IsQueue c.connection.queue
        → Runs xs p ys closed (read_cb env call s n p w)
    unfolding read_cb
    read_ending call s n w c i e t q =
        rw (e, read_cb)
          (rw (t, read_cb)
            (try_shutdown-Runs xs p ys closed s w c.connection i
              (ap (λ (o : Option Cell). o >>= λ c. some c.connection) e) t q))

    -- read_cb of any connection of the list, with fuel for more turns than bytes are unread, ends
    -- without a fault, whatever OpenSSL says. The connection stays in the list, or it has left it
    -- and waits for close_cb; every other connection can be worked on as before.
    pub read_cb-Runs :
        (call : Call env) (s : Shutdown) (n : Nread) (w : Worker)
        → IsWorker w (xs ++ p ∷ ys) closed
        → length (unread call.ssl) < call.fuel
        → Runs xs p ys closed (read_cb env call s n p w)
    read_cb-Runs call s n w i lt =
        let at = All-at (Serving w) xs p ys i.serving in
        let (c, e, e') = >>=-eq-some (w.cell p) _ at.there in
        let serves : IsServing c.connection = subst IsServing (sym (some-eq-some e')) at.serves in
        elim serves [
          | ready part r ↦ read_ready call s w c part i e r lt n
          | ending t q ↦ read_ending call s n w c i e t q
        ]
