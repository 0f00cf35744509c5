-- ===== src/Worker/Accept.antt =====
-- new_connection_cb: a new connection comes in front of the list.
use keyless.Prelude.{
  ℕ, ◌≡◌, ◌≢◌, refl, sym, ap, ◌∙◌, arith, Option, none, some, true, false, List, [], ◌∷◌, All,
  length,
}
use keyless.Protocol.{◌>>=◌, header_size}
use keyless.Queue.{queue_length}
use keyless.Queue.Holds.{Holds}
use keyless.ConnectionState.{Connection, set_get_header_state, free_read_state}
use keyless.Connection.Spec.{IsReady}
use keyless.Connection.Turns.{ready_again}
use keyless.Worker.{
  Cell, Worker, update, initial, Opening, no_connection, no_accept, no_ssl, no_read, no_handshake,
  opened, Opened, refused, turned_away, orphaned, closing, open_now, make_state, new_connection_cb,
  accepted, allocate_state,
}
use keyless.Worker.Linked.{IsFresh, update_self}
use keyless.Worker.Insert.{connection_at, initialize_state-Inserted}
use keyless.Worker.State.{
  Serving, Allocated, IsWorker, modify-Stored, Serving-same, Allocated-same, ready,
}
use keyless.Worker.Closing.{All-fresh, store-IsWorker}
use keyless.Worker.Release.{then_lem}

-- The memory that malloc gives for a state: its arrays have their lengths, whatever they hold.
pub record IsMemory (m : Cell) : Type 0 where
  pub header_sized : length m.connection.wire_header ≡ header_size
  pub queue_sized : length m.connection.queue.q ≡ queue_length

initial-IsReady : (m : Cell) → IsMemory m → IsReady (set_get_header_state (initial m.connection)) []
unfolding set_get_header_state free_read_state initial
initial-IsReady m h =
    let holds : Holds (record m.connection.queue { qr = 0; qw = 0 }) [] = record {
      sized = h.queue_sized;
      read_in = omega arith;
      write_in = omega arith;
      count = refl;
      item = λ k lt. absurd (omega (arith, lt));
    } in
    ready_again (initial m.connection) (record { items = []; holds = holds; full = tt })
      h.header_sized

-- Where nothing is allocated, no state of a list is.
fresh_lem {κ} :
    (w : Worker) (P : ℕ → Type κ) (p : ℕ) (ps : List ℕ)
    → ((q : ℕ) → P q → (c : Connection) × (connection_at w q ≡ some c))
    → w.cell p ≡ none
    → All P ps
    → IsFresh p ps
fresh_lem w P p [] f e h = tt
fresh_lem w P p (q ∷ qs) f e h = (
  (λ same.
      let (c, there) = f q h.0 in
      let gone : connection_at w q ≡ none =
        ap (connection_at w) same ∙ ap (λ (o : Option Cell). o >>= λ c. some c.connection) e in
      cc (sym gone ∙ there)),
  fresh_lem w P p qs f e h.1,
)

apart_from :
    (p : ℕ) (live closed : List ℕ)
    → IsFresh p closed
    → All (λ q. IsFresh q live) closed
    → All (λ q. IsFresh q (p ∷ live)) closed
apart_from p live [] f h = tt
apart_from p live (q ∷ qs) f h = (((λ e. f.0 (sym e)), h.0), apart_from p live qs f.1 h.1)

module _ (w : Worker) (p : ℕ) (m : Cell) (live closed : List ℕ) where
  longer : (xs : List ℕ) → p ∷ xs ≡ xs → ⊥
  longer xs h = let n = ap length h in absurd (omega (arith, n))

  pub record Made : Type 0 where
    pub after : Worker
    pub result : make_state p m w ≡ some after
    pub worker : IsWorker after (p ∷ live) closed

  pub make_state-Made : w.cell p ≡ none → IsMemory m → IsWorker w live closed → Made
  unfolding make_state
  make_state-Made e h i =
      let fl = fresh_lem w (Serving w) p live (λ q s. (s.connection, s.there)) e i.serving in
      let fc = fresh_lem w (Allocated w) p closed (λ q s. (s.connection, s.there)) e i.waiting in
      let w1 : Worker = record w { cell = update w.cell p (some m) } in
      let i1 = store-IsWorker w p (some m) live closed fl fc i in
      let n = initialize_state-Inserted w1 p m live (update_self w.cell p (some m)) fl i1.list in
      let t = modify-Stored n.after p set_get_header_state (initial m.connection) n.own in
      let same : (q : ℕ) → q ≢ p → connection_at t.after q ≡ connection_at w1 q =
        λ q d. t.others q d ∙ n.others q d in
      record {
        after = t.after;
        result = then_lem _ n.result t.result;
        worker = record {
          list = t.list (p ∷ live) n.list;
          serving = (
            record {
              connection = set_get_header_state (initial m.connection);
              there = t.own;
              serves = ready [] (initial-IsReady m h);
            },
            All-fresh (Serving w1) (Serving t.after) p live
                (λ q d. Serving-same w1 t.after q (same q d)) fl i1.serving,
          );
          waiting =
              All-fresh (Allocated w1) (Allocated t.after) p closed
                (λ q d. Allocated-same w1 t.after q (same q d)) fc i1.waiting;
          apart = apart_from p live closed fc i.apart;
          once = i.once;
        };
      }

  -- The list after new_connection_cb
  abbrev pub listed : Opened → List ℕ
  listed refused = live
  listed turned_away = live
  listed _ = p ∷ live

  -- What comes of how far new_connection_cb gets.
  abbrev pub outcome_of : Opening → Opened
  outcome_of no_connection = refused
  outcome_of no_accept = turned_away
  outcome_of no_ssl = orphaned
  outcome_of no_read = closing p
  outcome_of no_handshake = closing p
  outcome_of opened = open_now

  -- A run with memory for the client and the state, and the runs without one of them.
  pub record Accepts (o : Opening) : Type 0 where
    pub after : Worker
    pub result : new_connection_cb o true p (some m) w ≡ some (outcome_of o, after)
    pub worker : IsWorker after (listed (outcome_of o)) closed
    pub no_client : o ≢ no_connection → new_connection_cb o false p (some m) w ≡ none
    pub no_state : listed (outcome_of o) ≡ p ∷ live → new_connection_cb o true p none w ≡ none

  -- Under the invariant, where malloc gives the address of no state, new_connection_cb with memory for
  -- the client and the state ends without a fault, however far it comes. Before a connection it does
  -- nothing; where uv_accept fails it closes the client; in both cases the list is the same. Otherwise
  -- the new state is in front of the list: the connection is open and waits for a first message, or
  -- SSL_new failed and the client is closed without the state, or the client is closed with the state,
  -- which close_cb is to free. The invariant holds then, and the states that wait for close_cb are
  -- those from before, so that this last state is not among them. Where a malloc that is needed gives
  -- NULL, it faults.
  pub new_connection_cb-Accepts :
      (o : Opening) → w.cell p ≡ none → IsMemory m → IsWorker w live closed → Accepts o
  unfolding new_connection_cb accepted allocate_state
  new_connection_cb-Accepts no_connection e h i = record {
    after = w;
    result = refl;
    worker = i;
    no_client = λ n. absurd (n refl);
    no_state = λ s. absurd (longer live (sym s));
  }
  new_connection_cb-Accepts no_accept e h i = record {
    after = w;
    result = refl;
    worker = i;
    no_client = λ n. refl;
    no_state = λ s. absurd (longer live (sym s));
  }
  new_connection_cb-Accepts no_ssl e h i =
      let d = make_state-Made e h i in
      record {
        after = d.after;
        result = then_lem _ d.result refl;
        worker = d.worker;
        no_client = λ n. refl;
        no_state = λ s. refl;
      }
  new_connection_cb-Accepts no_read e h i =
      let d = make_state-Made e h i in
      record {
        after = d.after;
        result = then_lem _ d.result refl;
        worker = d.worker;
        no_client = λ n. refl;
        no_state = λ s. refl;
      }
  new_connection_cb-Accepts no_handshake e h i =
      let d = make_state-Made e h i in
      record {
        after = d.after;
        result = then_lem _ d.result refl;
        worker = d.worker;
        no_client = λ n. refl;
        no_state = λ s. refl;
      }
  new_connection_cb-Accepts opened e h i =
      let d = make_state-Made e h i in
      record {
        after = d.after;
        result = then_lem _ d.result refl;
        worker = d.worker;
        no_client = λ n. refl;
        no_state = λ s. refl;
      }
