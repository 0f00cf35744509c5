-- ===== src/Worker/Reach.antt =====
-- The runs of a worker thread: its callbacks in any order that libuv may call them in.
use keyless.Prelude.{
  ℕ, ◌<◌, ◌≡◌, ◌≢◌, refl, sym, ap, ◌∙◌, Option, none, some, some-eq-some, List, [], ◌∷◌, ◌++◌, Bool,
  true, false, length, ne→==,
}
use mathlib.Core.Path.{subst}
use keyless.Protocol.{◌>>=◌, >>=-eq-some}
use keyless.Connection.{Surroundings}
use keyless.Connection.Spec.{SurroundingsLaws}
use keyless.Worker.{
  Cell, Worker, update, modify, write_prev, initialize_state, Shutdown, Call, Nread, read_cb,
  close_cb, Opening, opened, no_handshake, Opened, closing, make_state, new_connection_cb, accepted,
  allocate_state,
}
use keyless.Worker.Linked.{update_self, update_other}
use keyless.Worker.State.{IsWorker}
use keyless.Worker.Release.{Runs, Outcome, stays, leaves}
use keyless.Worker.Callbacks.{read_cb-Runs}
use keyless.Worker.Closing.{close_cb-Freed}
use keyless.Worker.Accept.{IsMemory, listed, outcome_of, new_connection_cb-Accepts, make_state-Made}

abbrev pub no_connections : Worker
no_connections = record { active = none; cell = λ _. none }

no_connections-IsWorker : IsWorker no_connections [] []
no_connections-IsWorker = record {
  list = record { linked = refl; distinct = tt };
  serving = tt;
  waiting = tt;
  apart = tt;
  once = tt;
}

module _ (env : Surroundings) (laws : SurroundingsLaws env) where
  open laws use {unread}

  -- The workers that are reached, with the states of the list and those whose handles are closed, where
  -- malloc gives memory. A client that is closed with a state in the list is left out: uv_read_start or
  -- the first SSL_do_handshake failed, and close_cb would free that state.
  pub data Reaches : Worker → List ℕ → List ℕ → Type 0 where
    start : Reaches no_connections [] []
    opens :
        {w w' : Worker} {live closed : List ℕ} (o : Opening) (p : ℕ) (m : Cell)
        → Reaches w live closed
        → w.cell p ≡ none
        → IsMemory m
        → new_connection_cb o true p (some m) w ≡ some (outcome_of w p m live closed o, w')
        → outcome_of w p m live closed o ≢ closing p
        → Reaches w' (listed w p m live closed (outcome_of w p m live closed o)) closed
    reads :
        {w w' : Worker} {closed : List ℕ} (xs : List ℕ) (p : ℕ) (ys : List ℕ) (call : Call env)
        (s : Shutdown) (n : Nread)
        → Reaches w (xs ++ p ∷ ys) closed
        → length (unread call.ssl) < call.fuel
        → read_cb env call s n p w ≡ some (false, w')
        → Reaches w' (xs ++ p ∷ ys) closed
    ends :
        {w w' : Worker} {closed : List ℕ} (xs : List ℕ) (p : ℕ) (ys : List ℕ) (call : Call env)
        (s : Shutdown) (n : Nread)
        → Reaches w (xs ++ p ∷ ys) closed
        → length (unread call.ssl) < call.fuel
        → read_cb env call s n p w ≡ some (true, w')
        → Reaches w' (xs ++ ys) (p ∷ closed)
    closes :
        {w w' : Worker} {live : List ℕ} (cs : List ℕ) (p : ℕ) (ds : List ℕ)
        → Reaches w live (cs ++ p ∷ ds)
        → close_cb p w ≡ some w'
        → Reaches w' live (cs ++ ds)

  -- The worker that is meant by an outcome of read_cb.
  Meant : (xs : List ℕ) (p : ℕ) (ys closed : List ℕ) → Bool × Worker → Type 0
  Meant xs p ys closed (false, w) = IsWorker w (xs ++ p ∷ ys) closed
  Meant xs p ys closed (true, w) = IsWorker w (xs ++ ys) (p ∷ closed)

  Outcome-Meant :
      {xs : List ℕ} {p : ℕ} {ys closed : List ℕ} {r : Bool × Worker}
      → Outcome xs p ys closed r
      → Meant xs p ys closed r
  unfolding Meant
  Outcome-Meant (stays i) = i
  Outcome-Meant (leaves i) = i

  Runs-Meant :
      (xs : List ℕ) (p : ℕ) (ys closed : List ℕ) (r : Option (Bool × Worker)) (b : Bool × Worker)
      → Runs xs p ys closed r
      → r ≡ some b
      → Meant xs p ys closed b
  Runs-Meant xs p ys closed r b h e =
      subst (Meant xs p ys closed) (some-eq-some (sym h.result ∙ e)) (Outcome-Meant h.outcome)

  -- Every worker that is reached, with memory and without a client whose uv_read_start or first
  -- SSL_do_handshake fails, keeps the invariant: its list is whole, every connection in it can be
  -- worked on, and every state that waits for close_cb is allocated and in no list.
  pub Reaches-IsWorker :
      {w : Worker} {live closed : List ℕ} → Reaches w live closed → IsWorker w live closed
  unfolding Meant
  Reaches-IsWorker start = no_connections-IsWorker
  Reaches-IsWorker (opens {w} {w'} {live} {closed} o p m r e h n _) =
      let a = new_connection_cb-Accepts w p m live closed o e h (Reaches-IsWorker r) in
      let same : a.after ≡ w' =
        ap (λ (y : Opened × Worker). y.1) (some-eq-some (sym a.result ∙ n)) in
      subst (λ y. IsWorker y (listed w p m live closed (outcome_of w p m live closed o)) closed)
        same a.worker
  Reaches-IsWorker (reads {w} {w'} {closed} xs p ys call s n r lt e) =
      Runs-Meant xs p ys closed (read_cb env call s n p w) (false, w')
        (read_cb-Runs env laws xs p ys closed call s n w (Reaches-IsWorker r) lt) e
  Reaches-IsWorker (ends {w} {w'} {closed} xs p ys call s n r lt e) =
      Runs-Meant xs p ys closed (read_cb env call s n p w) (true, w')
        (read_cb-Runs env laws xs p ys closed call s n w (Reaches-IsWorker r) lt) e
  Reaches-IsWorker (closes {w} {w'} {live} cs p ds r e) =
      let f = close_cb-Freed w p live cs ds (Reaches-IsWorker r) in
      subst (λ y. IsWorker y live (cs ++ ds)) (some-eq-some (sym f.result ∙ e)) f.worker

-- A client whose first handshake fails, its close_cb, and the next client
unfoldable pub open_after_failure : ℕ → Cell → ℕ → Cell → Worker → Option (Opened × Worker)
unfolding new_connection_cb close_cb
open_after_failure p m q m' w = new_connection_cb no_handshake true p (some m) w >>= λ a.
    close_cb p a.1 >>= λ w'. new_connection_cb opened true q (some m') w'

dangling_lem :
    (p q : ℕ) (w : Worker) (c : Cell)
    → w.active ≡ some p
    → w.cell p ≡ none
    → w.cell q ≡ some c
    → q ≢ p
    → initialize_state q w ≡ none
unfolding initialize_state modify write_prev
dangling_lem p q w c a gone e n = rw (e, a, ne→== p q (λ s. n (sym s)), gone) refl

-- A state stays in the list when its client's first handshake fails, though close_cb frees it: the
-- next client whose state is at another address has initialize_state write to what was freed.
pub open_after_failure-faults :
    (p : ℕ) (m : Cell) (q : ℕ) (m' : Cell) (w : Worker) (live closed : List ℕ)
    → w.cell p ≡ none
    → IsMemory m
    → IsWorker w live closed
    → q ≢ p
    → open_after_failure p m q m' w ≡ none
unfolding open_after_failure new_connection_cb accepted allocate_state close_cb make_state
open_after_failure-faults p m q m' w live closed e h i n =
    let d = make_state-Made w p m live closed e h i in
    let (c, there, _) = >>=-eq-some (d.after.cell p) _ d.worker.serving.0.there in
    let freed : ℕ → Option Cell = update d.after.cell p none in
    let dangles =
      dangling_lem p q (record d.after { cell = update freed q (some m') }) m'
        (some-eq-some d.worker.list.linked.0)
        (update_other freed q p (some m') (λ s. n (sym s)) ∙ update_self d.after.cell p none)
        (update_self freed q (some m')) n in
    rw (d.result, open_after_failure) (rw (there, close_cb) (rw dangles refl))
