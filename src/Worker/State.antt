-- ===== src/Worker/State.antt =====
-- The invariant of a worker: its list, the connections in it, and those whose clients are closed.
use keyless.Prelude.{
  ℕ, ◌≡◌, ◌≢◌, inl, inr, refl, ap, ◌∙◌, some, List, [], ◌∷◌, All, Bool-cases, ◌==◌, ==_iff,
}
use keyless.Protocol.{◌>>=◌, >>=-eq-some}
use keyless.ConnectionState.{Connection, terminating}
use keyless.Connection.Spec.{IsQueue, IsReady}
use keyless.Worker.{Link, head, next_of, Cell, Worker, update, modify}
use keyless.Worker.Linked.{deref, Linked, IsFresh, IsDistinct, IsList}
use keyless.Worker.Insert.{connection_at, modify_lem}
use keyless.Worker.Fields.{back_at, IsAt-back, back-IsAt, field_self, field_other, field_same}

-- A connection that can be worked on: between two messages or in one, or on its way to its end.
pub data IsServing (x : Connection) : Type 0 where
  ready : (part : List ℕ) → IsReady x part → IsServing x
  ending : x.phase ≡ terminating → IsQueue x.queue → IsServing x

pub record Serving (w : Worker) (p : ℕ) : Type 0 where
  pub connection : Connection
  pub there : connection_at w p ≡ some connection
  pub serves : IsServing connection

-- A state that is allocated
pub record Allocated (w : Worker) (p : ℕ) : Type 0 where
  pub connection : Connection
  pub there : connection_at w p ≡ some connection

-- The list holds the `live` states, which can be worked on. The states in `closed` wait for close_cb:
-- they are allocated, and not in the list.
pub record IsWorker (w : Worker) (live closed : List ℕ) : Type 0 where
  pub list : IsList w live
  pub serving : All (Serving w) live
  pub waiting : All (Allocated w) closed
  pub apart : All (λ q. IsFresh q live) closed
  pub once : IsDistinct closed

-- The list stands on the pointers alone.
pub Linked-same :
    (w w' : Worker)
    → ((k : Link) → deref w' k ≡ deref w k)
    → ((r : ℕ) → back_at w' r ≡ back_at w r)
    → (from : Link) (ps : List ℕ) → Linked w from ps
    → Linked w' from ps
Linked-same w w' d b from [] l = d from ∙ l
Linked-same w w' d b from (p ∷ ps) (l, i, rest) = (
  d from ∙ l,
  back-IsAt w' from p (b p ∙ IsAt-back w from p i),
  Linked-same w w' d b (next_of p) ps rest,
)

-- A store to the connection of a state.
pub record Stored (w : Worker) (p : ℕ) (f : Cell → Cell) (x : Connection) : Type 0 where
  pub after : Worker
  pub result : modify p f w ≡ some after
  pub list : (ps : List ℕ) → IsList w ps → IsList after ps
  pub own : connection_at after p ≡ some x
  pub others : (q : ℕ) → q ≢ p → connection_at after q ≡ connection_at w q

pub modify-Stored :
    (w : Worker) (p : ℕ) (g : Connection → Connection) (x : Connection)
    → connection_at w p ≡ some x
    → Stored w p (λ c. record c { connection = g c.connection }) (g x)
modify-Stored w p g x h =
    let (c, e, e') = >>=-eq-some (w.cell p) _ h in
    let f : Cell → Cell = λ c. record c { connection = g c.connection } in
    let w' : Worker = record w { cell = update w.cell p (some (f c)) } in
    record {
      after = w';
      result = modify_lem p f w c e;
      list = λ ps l. record {
        linked =
            Linked-same w w' (links c e) (field_same (λ c. c.prev) w p c (f c) e refl) head ps
              l.linked;
        distinct = l.distinct;
      };
      own = field_self (λ c. c.connection) w p (f c) ∙ ap (λ o. o >>= λ x. some (g x)) e';
      others = field_other (λ c. c.connection) w p (f c);
    }
  where
    links :
        (c : Cell)
        → w.cell p ≡ some c
        → (k : Link)
        → deref
            (record w { cell = update w.cell p (some (record c { connection = g c.connection })) })
            k
          ≡ deref w k
    links c e head = refl
    links c e (next_of r) =
        field_same (λ c. c.next) w p c (record c { connection = g c.connection }) e refl r

-- A list of states of which one has changed.
pub All-changed {κ} :
    (P Q : ℕ → Type κ) (p : ℕ) (ps : List ℕ)
    → ((q : ℕ) → q ≢ p → P q → Q q)
    → Q p
    → All P ps
    → All Q ps
All-changed P Q p [] f own h = tt
All-changed P Q p (q ∷ qs) f own h = (
  elim (Bool-cases (q == p)) [
    | inl y ↦ rw ((==_iff q p).0 y) own
    | inr n ↦ f q (λ e. cc (n, (==_iff q p).1 e)) h.0
  ],
  All-changed P Q p qs f own h.1,
)

pub Serving-same :
    (w w' : Worker) (q : ℕ) → connection_at w' q ≡ connection_at w q → Serving w q → Serving w' q
Serving-same w w' q e s = record {
  connection = s.connection;
  there = e ∙ s.there;
  serves = s.serves;
}

pub Allocated-same :
    (w w' : Worker) (q : ℕ)
    → connection_at w' q ≡ connection_at w q
    → Allocated w q
    → Allocated w' q
Allocated-same w w' q e s = record { connection = s.connection; there = e ∙ s.there }
