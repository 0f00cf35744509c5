-- ===== src/Queue/Drain.antt =====
-- write_queued_messages sends the queued bytes in order, and ends.
use keyless.Prelude.{
  ℕ, zero, suc, ◌+◌, ◌-◌, ◌%◌, ◌≤◌, ◌<◌, ◌≡◌, ◌⊎◌, inl, inr, Bool, true, false, refl, sym, ap, ◌∙◌,
  arith, Option, some, List, [], ◌∷◌, ◌++◌, lt→ltb, ==_iff, ne→==, length, set, take, drop, All,
  length-append, length-drop, take-append-drop, take-all, append_assoc, append-nil,
}
use mathlib.Core.Path.{subst}
use native.Mathlib.Decide.{dec_lt}
use keyless.Protocol.{ErrorCode, no_error, internal, ◌>>=◌}
use keyless.Queue.Holds.{Holds}
use keyless.Queue.First.{rest_of, first, sent_some-done, sent_some-more, done-Holds, more-Holds}
use keyless.Queue.{
  Queue, Queued, WriteResult, wrote, want_read, want_write, zero_return, other_error, SslWrite,
  sent_some, Drained, write_loop, write_queued_messages,
}

-- SSL_write takes at least one byte where it succeeds, and no more than it is given.
abbrev pub TakesSome : SslWrite → Type 0
TakesSome ssl = (i : ℕ) (b : List ℕ) (len rc : ℕ) → ssl i b len ≡ wrote rc → (0 < rc) × (rc ≤ len)

-- A queued buffer: its length is right, and there is something to send.
abbrev pub IsPending : Queued → Type 0
IsPending e = (0 < e.len) × (e.len ≡ length e.send)

-- What is still to be sent.
abbrev pub pending : List Queued → List ℕ
pending [] = []
pending (e ∷ xs) = e.send ++ pending xs

abbrev pub is_wrote : WriteResult → Bool
is_wrote (wrote rc) = true
is_wrote _ = false

-- A call of SSL_write that takes nothing of the bytes given.
pub record Blocked (ssl : SslWrite) : Type 0 where
  pub call : ℕ
  pub bytes : List ℕ
  pub len : ℕ
  pub some_bytes : 0 < len
  pub blocks : is_wrote (ssl call bytes len) ≡ false

-- What the loop does to a queue that holds `xs`, with `sent` taken before: `taken` is taken now.
pub record Drains (ssl : SslWrite) (xs : List Queued) (sent : List ℕ) (result : Option Drained)
    : Type 0 where
  pub code : ErrorCode
  pub after : Queue
  pub left : List Queued
  pub taken : List ℕ
  pub ends : result ≡ some (code, after, sent ++ taken)
  pub holds : Holds after left
  pub all_pending : All IsPending left
  pub in_order : pending xs ≡ taken ++ pending left
  pub why : (left ≡ []) ⊎ Blocked ssl

stopped :
    (ssl : SslWrite) (s : Queue) (xs : List Queued) (sent : List ℕ) (code : ErrorCode)
    → Holds s xs
    → All IsPending xs
    → (xs ≡ []) ⊎ Blocked ssl
    → Drains ssl xs sent (some (code, s, sent))
stopped ssl s xs sent code h p w = record {
  code = code;
  after = s;
  left = xs;
  taken = [];
  ends = ap (λ z. some (code, s, z)) (sym (append-nil sent));
  holds = h;
  all_pending = p;
  in_order = refl;
  why = w;
}

-- The loop's outcome after `rc` bytes of the first entry, from that of the rest.
onward :
    (ssl : SslWrite) (e : Queued) (xs rest : List Queued) (sent : List ℕ) (rc : ℕ)
    (result : Option Drained)
    → pending (e ∷ xs) ≡ take rc e.send ++ pending rest
    → Drains ssl rest (sent ++ take rc e.send) result
    → Drains ssl (e ∷ xs) sent result
onward ssl e xs rest sent rc result split d = record {
  code = d.code;
  after = d.after;
  left = d.left;
  taken = take rc e.send ++ d.taken;
  ends = d.ends ∙ ap (λ z. some (d.code, d.after, z)) (append_assoc sent (take rc e.send) d.taken);
  holds = d.holds;
  all_pending = d.all_pending;
  in_order =
      split
      ∙ ap (λ z. take rc e.send ++ z) d.in_order
      ∙ sym (append_assoc (take rc e.send) d.taken (pending d.left));
  why = d.why;
}

loop_empty :
    (fuel i : ℕ) (ssl : SslWrite) (s : Queue) (sent : List ℕ)
    → Holds s []
    → write_loop (suc fuel) i ssl s sent ≡ some (no_error, s, sent)
unfolding write_loop
loop_empty fuel i ssl s sent h =
    let same : s.qr ≡ s.qw = omega (arith, h.count, h.read_in, h.write_in) in
    rw ((==_iff s.qr s.qw).1 same, write_loop)

-- What the loop does with the answer of OpenSSL.
abbrev on_answer : ℕ → ℕ → SslWrite → Queue → Queued → List ℕ → WriteResult → Option Drained
on_answer fuel i ssl s e sent w = elim w [
  | wrote rc ↦ sent_some s e rc >>= λ s'. write_loop fuel (i + 1) ssl s' (sent ++ take rc e.send)
  | want_read ↦ some (no_error, s, sent)
  | want_write ↦ some (no_error, s, sent)
  | zero_return ↦ some (internal, s, sent)
  | other_error ↦ some (internal, s, sent)
]

loop_item :
    (fuel i : ℕ) (ssl : SslWrite) (s : Queue) (e : Queued) (xs : List Queued) (sent : List ℕ)
    (w : WriteResult)
    → Holds s (e ∷ xs)
    → IsPending e
    → ssl i e.send e.len ≡ w
    → write_loop (suc fuel) i ssl s sent ≡ on_answer fuel i ssl s e sent w
unfolding write_loop
loop_item fuel i ssl s e xs sent w h p q = rw (
  ne→== s.qr s.qw (omega (arith, h.count, h.read_in, h.write_in)),
  first s e xs 0 h,
  ◌>>=◌,
  lt→ltb 0 e.len p.0,
  q,
  write_loop,
)

blocked :
    (ssl : SslWrite) (i : ℕ) (e : Queued)
    → IsPending e
    → is_wrote (ssl i e.send e.len) ≡ false
    → Blocked ssl
blocked ssl i e p b = record { call = i; bytes = e.send; len = e.len; some_bytes = p.0; blocks = b }

-- One call of SSL_write, by its answer; `again` is what the loop does after it.
answer-Drains :
    (fuel i : ℕ) (ssl : SslWrite) (s : Queue) (e : Queued) (xs : List Queued) (sent : List ℕ)
    (w : WriteResult)
    → TakesSome ssl
    → Holds s (e ∷ xs)
    → All IsPending (e ∷ xs)
    → length (pending (e ∷ xs)) < suc fuel
    → ((s' : Queue) (ys : List Queued) (sent' : List ℕ)
        → Holds s' ys
        → All IsPending ys
        → length (pending ys) < fuel
        → Drains ssl ys sent' (write_loop fuel (i + 1) ssl s' sent'))
    → ssl i e.send e.len ≡ w
    → Drains ssl (e ∷ xs) sent (on_answer fuel i ssl s e sent w)
answer-Drains fuel i ssl s e xs sent want_read ts h p lt again q =
    stopped ssl s (e ∷ xs) sent no_error h p (inr (blocked ssl i e p.0 (ap is_wrote q)))
answer-Drains fuel i ssl s e xs sent want_write ts h p lt again q =
    stopped ssl s (e ∷ xs) sent no_error h p (inr (blocked ssl i e p.0 (ap is_wrote q)))
answer-Drains fuel i ssl s e xs sent zero_return ts h p lt again q =
    stopped ssl s (e ∷ xs) sent internal h p (inr (blocked ssl i e p.0 (ap is_wrote q)))
answer-Drains fuel i ssl s e xs sent other_error ts h p lt again q =
    stopped ssl s (e ∷ xs) sent internal h p (inr (blocked ssl i e p.0 (ap is_wrote q)))
answer-Drains fuel i ssl s e xs sent (wrote rc) ts h p lt again q =
    let (some_taken, in_bounds) = ts i e.send e.len rc q in
    let total : length (pending (e ∷ xs)) ≡ length e.send + length (pending xs) =
      length-append e.send (pending xs) in
    elim (dec_lt 0 (e.len - rc)) [
      | yes z ↦
          let cut : length (drop rc e.send) ≡ length e.send - rc = length-drop rc e.send in
          let total' : length (pending (rest_of e rc ∷ xs))
              ≡ length (drop rc e.send) + length (pending xs) =
            length-append (drop rc e.send) (pending xs) in
          onward ssl e xs (rest_of e rc ∷ xs) sent rc (on_answer fuel i ssl s e sent (wrote rc))
            (ap (λ b. b ++ pending xs) (sym (take-append-drop rc e.send))
              ∙ append_assoc (take rc e.send) (drop rc e.send) (pending xs))
            (subst
              (λ r.
                Drains ssl (rest_of e rc ∷ xs) (sent ++ take rc e.send)
                  (r >>= λ s'. write_loop fuel (i + 1) ssl s' (sent ++ take rc e.send)))
              (sym (sent_some-more s e xs rc h (omega arith)))
              (again (record s { q = set s.q s.qr (rest_of e rc) }) (rest_of e rc ∷ xs)
                (sent ++ take rc e.send) (more-Holds s e xs rc h)
                ((omega arith, ap (λ n. n - rc) p.0.1 ∙ sym cut), p.1) (omega (arith, p.0.1))))
      | no z ↦
          let all : take rc e.send ≡ e.send = take-all rc e.send (omega (arith, p.0.1)) in
          onward ssl e xs xs sent rc (on_answer fuel i ssl s e sent (wrote rc))
            (ap (λ b. b ++ pending xs) (sym all))
            (subst
              (λ r.
                Drains ssl xs (sent ++ take rc e.send)
                  (r >>= λ s'. write_loop fuel (i + 1) ssl s' (sent ++ take rc e.send)))
              (sym (sent_some-done s e xs rc h (omega arith)))
              (again (record { q = set s.q s.qr (rest_of e rc); qr = (s.qr + 1) % 16; qw = s.qw })
                xs (sent ++ take rc e.send) (done-Holds s e xs rc h) p.1
                (omega (arith, p.0.1, p.0.0))))
    ]

write_loop-Drains :
    (fuel i : ℕ) (ssl : SslWrite) (s : Queue) (xs : List Queued) (sent : List ℕ)
    → TakesSome ssl
    → Holds s xs
    → All IsPending xs
    → length (pending xs) < fuel
    → Drains ssl xs sent (write_loop fuel i ssl s sent)
write_loop-Drains zero i ssl s xs sent ts h p lt = absurd (omega (arith, lt))
write_loop-Drains (suc fuel) i ssl s [] sent ts h p lt =
    subst (Drains ssl [] sent) (sym (loop_empty fuel i ssl s sent h))
      (stopped ssl s [] sent no_error h p (inl refl))
write_loop-Drains (suc fuel) i ssl s (e ∷ xs) sent ts h p lt =
    let w = ssl i e.send e.len in
    subst (Drains ssl (e ∷ xs) sent) (sym (loop_item fuel i ssl s e xs sent w h p.0 refl)) (
      answer-Drains fuel i ssl s e xs sent w ts h p lt
        (λ s' ys sent' h' p' lt'. write_loop-Drains fuel (i + 1) ssl s' ys sent' ts h' p' lt') refl)

-- A queue that holds the non-empty buffers `xs`, with fuel for one call of SSL_write for every byte
-- and one more, and with an SSL_write that takes some of the bytes given where it succeeds:
-- write_queued_messages ends without a fault, and the queue holds non-empty buffers again. What
-- OpenSSL took, followed by what they still hold, is what `xs` held: no byte is lost, sent twice or
-- out of order, whatever SSL_write answers. Something is left only where a call took nothing.
pub write_queued_messages-Drains :
    (fuel : ℕ) (ssl : SslWrite) (s : Queue) (xs : List Queued)
    → TakesSome ssl
    → Holds s xs
    → All IsPending xs
    → length (pending xs) < fuel
    → Drains ssl xs [] (write_queued_messages fuel ssl s)
unfolding write_queued_messages
write_queued_messages-Drains fuel ssl s xs ts h p lt =
    write_loop-Drains fuel 0 ssl s xs [] ts h p lt
