-- ===== src/Worker/Closing.antt =====
-- close_cb on a connection that has left the list.
use keyless.Prelude.{ℕ, ◌≡◌, ◌≢◌, refl, ap, Option, none, some, List, [], ◌∷◌, ◌++◌, All}
use keyless.Protocol.{◌>>=◌, >>=-eq-some}
use keyless.Worker.{Cell, Worker, update, close_cb}
use keyless.Worker.Linked.{IsFresh, Linked-Agree, Agree-update, update_self, update_other}
use keyless.Worker.Insert.{connection_at}
use keyless.Worker.Remove.{distinct-Parts}
use keyless.Worker.State.{Serving, Allocated, IsWorker, Serving-same, Allocated-same}
use keyless.Worker.Release.{All-at, All-without, not_in}

-- What holds of the states of a list holds after a change of a state that is not in it.
pub All-fresh {κ} :
    (P Q : ℕ → Type κ) (p : ℕ) (ps : List ℕ)
    → ((q : ℕ) → q ≢ p → P q → Q q)
    → IsFresh p ps
    → All P ps
    → All Q ps
All-fresh P Q p [] f n h = tt
All-fresh P Q p (q ∷ qs) f n h = (f q n.0 h.0, All-fresh P Q p qs f n.1 h.1)

-- The memory of a state that is neither in the list nor waited for may change.
pub store-IsWorker :
    (w : Worker) (p : ℕ) (c : Option Cell) (live closed : List ℕ)
    → IsFresh p live
    → IsFresh p closed
    → IsWorker w live closed
    → IsWorker (record w { cell = update w.cell p c }) live closed
store-IsWorker w p c live closed fl fc i =
    let w' : Worker = record w { cell = update w.cell p c } in
    let same : (q : ℕ) → q ≢ p → connection_at w' q ≡ connection_at w q =
      λ q n. ap (λ (o : Option Cell). o >>= λ c. some c.connection) (update_other w.cell p q c n) in
    record {
      list = record {
        linked = Linked-Agree w w' _ live refl (Agree-update w p c live fl) i.list.linked;
        distinct = i.list.distinct;
      };
      serving =
          All-fresh (Serving w) (Serving w') p live (λ q n. Serving-same w w' q (same q n)) fl
            i.serving;
      waiting =
          All-fresh (Allocated w) (Allocated w') p closed (λ q n. Allocated-same w w' q (same q n))
            fc i.waiting;
      apart = i.apart;
      once = i.once;
    }

pub record Freed (w : Worker) (p : ℕ) (live closed : List ℕ) : Type 0 where
  pub there : (c : Cell) × (w.cell p ≡ some c)
  pub after : Worker
  pub result : close_cb p w ≡ some after
  pub gone : after.cell p ≡ none
  pub others : (q : ℕ) → q ≢ p → after.cell q ≡ w.cell q
  pub worker : IsWorker after live closed

-- Under the invariant, close_cb of a connection that waits for it frees its memory, which was
-- allocated, and changes no other memory; the invariant then holds without that connection.
pub close_cb-Freed :
    (w : Worker) (p : ℕ) (live cs ds : List ℕ)
    → IsWorker w live (cs ++ p ∷ ds)
    → Freed w p live (cs ++ ds)
unfolding close_cb
close_cb-Freed w p live cs ds i =
    let (c, e, _) = >>=-eq-some (w.cell p) _ (All-at (Allocated w) cs p ds i.waiting).there in
    let left : IsWorker w live (cs ++ ds) = record {
      list = i.list;
      serving = i.serving;
      waiting = All-without (Allocated w) cs p ds i.waiting;
      apart = All-without (λ q. IsFresh q live) cs p ds i.apart;
      once = (distinct-Parts cs p ds i.once).both;
    } in
    record {
      there = (c, e);
      after = record w { cell = update w.cell p none };
      result = rw e;
      gone = update_self w.cell p none;
      others = λ q n. update_other w.cell p q none n;
      worker =
          store-IsWorker w p none live (cs ++ ds) (All-at (λ q. IsFresh q live) cs p ds i.apart)
            (not_in cs p ds i.once) left;
    }
