-- ===== src/Worker/Release.antt =====
-- try_shutdown and connection_terminate on a connection of the list.
use keyless.Prelude.{
  ℕ, zero, suc, ◌+◌, ◌%◌, ◌<◌, ◌≡◌, ◌≢◌, refl, sym, ap, ◌∙◌, arith, some-eq-some, Option, some,
  List, [], ◌∷◌, ◌++◌, Bool, true, false, All, length, ◌==◌, ==_iff, ne→==, get_elem?, All-append,
}
use keyless.Protocol.{◌>>=◌, >>=-eq-some}
use keyless.Queue.{Queue, Queued}
use keyless.Queue.Holds.{Holds}
use keyless.Queue.Enqueue.{step-mod}
use keyless.ConnectionState.{Connection, terminating}
use keyless.Connection.Spec.{IsQueue}
use keyless.Worker.{
  Worker, modify, free_queue, clean_up, Shutdown, complete, want_read, want_write, other_error,
  try_shutdown, connection_terminate,
}
use keyless.Worker.Linked.{IsFresh, IsDistinct}
use keyless.Worker.Insert.{connection_at}
use keyless.Worker.Remove.{unlink-Unlinked}
use keyless.Worker.State.{
  IsServing, ready, ending, Serving, Allocated, IsWorker, modify-Stored, All-changed, Serving-same,
  Allocated-same,
}

-- The queue without its first entry, whose buffer is freed.
freed-Holds :
    (s : Queue) (e : Queued) (xs : List Queued)
    → Holds s (e ∷ xs)
    → Holds (record s { qr = (s.qr + 1) % 16 }) xs
freed-Holds s e xs h = record {
  sized = h.sized;
  read_in = omega arith;
  write_in = h.write_in;
  count = omega (arith, h.count, h.read_in, h.write_in);
  item = λ k lt.
      let next : ((s.qr + 1) % 16 + k) % 16 ≡ (s.qr + suc k) % 16 = omega arith in
      ap (get_elem? s.q) next ∙ h.item (suc k) (omega arith);
}

-- The loop of try_shutdown ends with an empty queue.
free_queue-Holds :
    (fuel : ℕ) (s : Queue) (xs : List Queued)
    → Holds s xs
    → length xs < fuel
    → (s' : Queue) × (free_queue fuel s ≡ some s') × Holds s' []
unfolding free_queue
free_queue-Holds zero s xs h lt = absurd (omega (arith, lt))
free_queue-Holds (suc fuel) s [] h lt =
    let same : s.qr ≡ s.qw = omega (arith, h.count, h.read_in, h.write_in) in
    (s, rw ((==_iff s.qr s.qw).1 same, free_queue), h)
free_queue-Holds (suc fuel) s (e ∷ xs) h lt =
    let differ : (s.qr == s.qw) ≡ false =
      ne→== s.qr s.qw (omega (arith, h.count, h.read_in, h.write_in)) in
    let (s', r, h') =
      free_queue-Holds fuel (record s { qr = (s.qr + 1) % 16 }) xs (freed-Holds s e xs h)
        (omega arith) in
    (s', rw (differ, free_queue) (rw (step-mod s.qr h.read_in) r), h')

-- A chain of stores, step by step.
pub then_lem :
    {A B : Type 0} {m : Option A} {a : A} {r : Option B} (f : A → Option B)
    → m ≡ some a
    → f a ≡ r
    → (m >>= f) ≡ r
then_lem f e h = ap (λ o. o >>= f) e ∙ h

pub IsServing-queue : (x : Connection) → IsServing x → IsQueue x.queue
IsServing-queue x (ready part r) = r.queue
IsServing-queue x (ending e q) = q

-- What a callback does to the connection at `p`: it stays in the list, or it leaves the list and
-- waits for close_cb.
pub data Outcome (xs : List ℕ) (p : ℕ) (ys closed : List ℕ) : Bool × Worker → Type 0 where
  stays : {w : Worker} → IsWorker w (xs ++ p ∷ ys) closed → Outcome xs p ys closed (false, w)
  leaves : {w : Worker} → IsWorker w (xs ++ ys) (p ∷ closed) → Outcome xs p ys closed (true, w)

pub record Runs (xs : List ℕ) (p : ℕ) (ys closed : List ℕ) (r : Option (Bool × Worker))
    : Type 0 where
  pub after : Bool × Worker
  pub result : r ≡ some after
  pub outcome : Outcome xs p ys closed after

pub All-without {κ} :
    (P : ℕ → Type κ) (xs : List ℕ) (p : ℕ) (ys : List ℕ) → All P (xs ++ p ∷ ys) → All P (xs ++ ys)
All-without P [] p ys h = h.1
All-without P (x ∷ xs) p ys h = (h.0, All-without P xs p ys h.1)

pub All-at {κ} : (P : ℕ → Type κ) (xs : List ℕ) (p : ℕ) (ys : List ℕ) → All P (xs ++ p ∷ ys) → P p
All-at P xs p ys h = (All-append P xs (p ∷ ys) h).1.0

pub not_in : (xs : List ℕ) (p : ℕ) (ys : List ℕ) → IsDistinct (xs ++ p ∷ ys) → IsFresh p (xs ++ ys)
not_in [] p ys d = d.0
not_in (x ∷ xs) p ys d = ((λ e. All-at (λ z. z ≢ x) xs p ys d.0 (sym e)), not_in xs p ys d.1)

closed_apart :
    (xs : List ℕ) (p : ℕ) (ys closed : List ℕ)
    → All (λ q. IsFresh q (xs ++ p ∷ ys)) closed
    → IsFresh p closed × All (λ q. IsFresh q (xs ++ ys)) closed
closed_apart xs p ys [] h = (tt, tt)
closed_apart xs p ys (q ∷ qs) h =
    let r = closed_apart xs p ys qs h.1 in
    (
      ((λ e. All-at (λ z. z ≢ q) xs p ys h.0 (sym e)), r.0),
      (All-without (λ z. z ≢ q) xs p ys h.0, r.1),
    )

module _ (xs : List ℕ) (p : ℕ) (ys closed : List ℕ) where
  -- A store to the connection at `p` keeps the invariant, if the connection can be worked on still.
  pub record Kept (w : Worker) (x : Connection) (r : Option Worker) : Type 0 where
    pub after : Worker
    pub result : r ≡ some after
    pub worker : IsWorker after (xs ++ p ∷ ys) closed
    pub own : connection_at after p ≡ some x

  pub modify-Kept :
      (w : Worker) (g : Connection → Connection) (x : Connection)
      → IsWorker w (xs ++ p ∷ ys) closed
      → connection_at w p ≡ some x
      → IsServing (g x)
      → Kept w (g x) (modify p (λ c. record c { connection = g c.connection }) w)
  modify-Kept w g x i h s =
      let t = modify-Stored w p g x h in
      let a = closed_apart xs p ys closed i.apart in
      record {
        after = t.after;
        result = t.result;
        worker = record {
          list = t.list (xs ++ p ∷ ys) i.list;
          serving =
              All-changed (Serving w) (Serving t.after) p (xs ++ p ∷ ys)
                (λ q n v. Serving-same w t.after q (t.others q n) v)
                (record { connection = g x; there = t.own; serves = s }) i.serving;
          waiting =
              All-changed (Allocated w) (Allocated t.after) p closed
                (λ q n v. Allocated-same w t.after q (t.others q n) v)
                (record { connection = g x; there = t.own }) i.waiting;
          apart = i.apart;
          once = i.once;
        };
        own = t.own;
      }

  pub All-same {κ} : (P Q : ℕ → Type κ) (zs : List ℕ) → ((q : ℕ) → P q → Q q) → All P zs → All Q zs
  All-same P Q [] f h = tt
  All-same P Q (z ∷ zs) f h = (f z h.0, All-same P Q zs f h.1)

  -- The part of try_shutdown that cleans up takes the state out of the list.
  clean_up-leaves :
      (w : Worker) (x : Connection)
      → IsWorker w (xs ++ p ∷ ys) closed
      → connection_at w p ≡ some x
      → x.phase ≡ terminating
      → IsQueue x.queue
      → (w' : Worker) × (clean_up p w ≡ some w') × IsWorker w' (xs ++ ys) (p ∷ closed)
  unfolding clean_up
  clean_up-leaves w x i h t q =
      let (c, e, e') = >>=-eq-some (w.cell p) _ h in
      let (s, r, hs) = free_queue-Holds 16 x.queue q.items q.holds (omega (arith, q.holds.count)) in
      let k =
        modify-Kept w (λ y. record y { queue = s }) x i h
          (ending t (record { items = []; holds = hs; full = tt })) in
      let u = unlink-Unlinked k.after xs p ys k.worker.list in
      let same : c.connection ≡ x = some-eq-some e' in
      let a = closed_apart xs p ys closed i.apart in
      (
        u.after,
        then_lem _ e (
            then_lem _ (ap (λ (y : Connection). free_queue 16 y.queue) same ∙ r)
              (then_lem _ k.result u.result)),
        record {
          list = u.list;
          serving =
              All-same (Serving k.after) (Serving u.after) (xs ++ ys)
                (λ q. Serving-same k.after u.after q (u.connections q))
                (All-without (Serving k.after) xs p ys k.worker.serving);
          waiting = (
            record { connection = record x { queue = s }; there = u.connections p ∙ k.own },
            All-same (Allocated k.after) (Allocated u.after) closed
                (λ q. Allocated-same k.after u.after q (u.connections q)) k.worker.waiting,
          );
          apart = (not_in xs p ys i.list.distinct, a.1);
          once = (a.0, i.once);
        },
      )

  -- try_shutdown on a state of the list that is on its way to its end.
  pub try_shutdown-Runs :
      (s : Shutdown) (w : Worker) (x : Connection)
      → IsWorker w (xs ++ p ∷ ys) closed
      → connection_at w p ≡ some x
      → x.phase ≡ terminating
      → IsQueue x.queue
      → Runs xs p ys closed (try_shutdown s p w)
  unfolding try_shutdown
  try_shutdown-Runs want_read w x i h t q = record {
    after = (false, w);
    result = refl;
    outcome = stays i;
  }
  try_shutdown-Runs want_write w x i h t q = record {
    after = (false, w);
    result = refl;
    outcome = stays i;
  }
  try_shutdown-Runs complete w x i h t q =
      let (w', r, i') = clean_up-leaves w x i h t q in
      record { after = (true, w'); result = rw r; outcome = leaves i' }
  try_shutdown-Runs other_error w x i h t q =
      let (w', r, i') = clean_up-leaves w x i h t q in
      record { after = (true, w'); result = rw r; outcome = leaves i' }

  -- connection_terminate on any state of the list.
  pub connection_terminate-Runs :
      (s : Shutdown) (w : Worker) (x : Connection)
      → IsWorker w (xs ++ p ∷ ys) closed
      → connection_at w p ≡ some x
      → IsQueue x.queue
      → Runs xs p ys closed (connection_terminate s p w)
  unfolding connection_terminate
  connection_terminate-Runs s w x i h q =
      let k = modify-Kept w (λ y. record y { phase = terminating }) x i h (ending refl q) in
      let t =
        try_shutdown-Runs s k.after (record x { phase = terminating }) k.worker k.own refl q in
      record { after = t.after; result = rw k.result t.result; outcome = t.outcome }
