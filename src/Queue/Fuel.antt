-- ===== src/Queue/Fuel.antt =====
-- The fuel that drain gives to write_queued_messages is enough.
use keyless.Prelude.{
  ℕ, zero, suc, ◌+◌, ◌%◌, ◌≤◌, ◌≡◌, ap, arith, some, List, [], ◌∷◌, get_elem?, set, length, All,
  length-append, some-eq-some,
}
use keyless.Queue.{Queue, Queued, SslWrite, total, drain}
use keyless.Queue.Holds.{Holds}
use keyless.Queue.First.{rest_of, first, done-Holds}
use keyless.Queue.Drain.{IsPending, pending, Drains, TakesSome, write_queued_messages-Drains}

total-set :
    (q : List Queued) (i : ℕ) (e e' : Queued)
    → get_elem? q i ≡ some e
    → total (set q i e') + e.len ≡ total q + e'.len
total-set [] i e e' h = absurd (ground arith)
total-set (x ∷ q) zero e e' h =
    let same : x.len ≡ e.len = ap (λ (y : Queued). y.len) (some-eq-some h) in omega arith
total-set (x ∷ q) (suc i) e e' h = omega (arith, total-set q i e e' h)

-- What the queue still has to send is counted by its entries.
pub pending-total :
    (s : Queue) (xs : List Queued) → Holds s xs → All IsPending xs → length (pending xs) ≤ total s.q
pending-total s [] h p = omega arith
pending-total s (e ∷ xs) h p =
    let done : Queue = record {
      q = set s.q s.qr (rest_of e e.len);
      qr = (s.qr + 1) % 16;
      qw = s.qw;
    } in
    omega (
      arith,
      pending-total done xs (done-Holds s e xs e.len h) p.1,
      total-set s.q s.qr e (rest_of e e.len) (first s e xs e.len h),
      length-append e.send (pending xs),
      p.0.1,
    )

-- A run on a queue that holds non-empty buffers always ends.
pub drain-Drains :
    (ssl : SslWrite) (s : Queue) (xs : List Queued)
    → TakesSome ssl
    → Holds s xs
    → All IsPending xs
    → Drains ssl xs [] (drain ssl s)
unfolding drain
drain-Drains ssl s xs ts h p =
    write_queued_messages-Drains (suc (total s.q)) ssl s xs ts h p
      (omega (arith, pending-total s xs h p))
