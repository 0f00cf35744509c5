-- ===== src/Queue/Enqueue.antt =====
-- queue_write is the push of a queue of at most 15 buffers.
use keyless.Prelude.{
  ℕ, ◌+◌, ◌%◌, ◌<◌, ◌≡◌, ◌≢◌, refl, sym, ap, ◌∙◌, ◌↔◌, arith, some, List, [], ◌∷◌, ◌++◌, Bool, true,
  false, lt→ltb, if◌then◌else◌, length, get_elem?, set, length-set, length-append,
  get_elem?-set_self, get_elem?-set_ne, get_elem?-append, get_elem?-append_left, ==_iff, ne→==,
}
use native.Mathlib.Decide.{dec_lt}
use keyless.Queue.Holds.{Holds}
use keyless.Queue.{Queue, Queued, put_entry, step, step_back, queue_write}

pub put_entry-set :
    (q : List Queued) (i : ℕ) (e : Queued) → i < length q → put_entry q i e ≡ some (set q i e)
unfolding put_entry
put_entry-set q i e h = rw (lt→ltb i (length q) h)

pub step-mod : (x : ℕ) → x < 16 → step x ≡ (x + 1) % 16
unfolding step
step-mod x h = ground arith

step_back-step : (x : ℕ) → x < 16 → step_back (step x) ≡ x
unfolding step step_back
step_back-step x h = ground arith

abbrev pub entry : List ℕ → ℕ → Queued
entry b len = record { start = b; send = b; len = len }

-- The queue that queue_write leaves, with the new entry stored at `qw`.
abbrev stored : Queue → List ℕ → ℕ → ℕ → Queue
stored s b len qw = record { q = set s.q s.qw (entry b len); qr = s.qr; qw = qw }

queue_write-full :
    (s : Queue) (xs : List Queued) (b : List ℕ) (len : ℕ)
    → Holds s xs
    → length xs ≡ 15
    → queue_write s b len ≡ some (false, stored s b len s.qw)
unfolding queue_write
queue_write-full s xs b len h full = rw (
  put_entry-set s.q s.qw (entry b len) (omega (arith, h.sized, h.write_in)),
  step_back-step s.qw h.write_in,
  (==_iff s.qr (step s.qw)).1 (omega (arith, step-mod s.qw h.write_in, h.count, h.read_in)),
)

queue_write-room :
    (s : Queue) (xs : List Queued) (b : List ℕ) (len : ℕ)
    → Holds s xs
    → length xs < 15
    → queue_write s b len ≡ some (true, stored s b len ((s.qw + 1) % 16))
unfolding queue_write
queue_write-room s xs b len h room = rw (
  put_entry-set s.q s.qw (entry b len) (omega (arith, h.sized, h.write_in)),
  ne→== s.qr (step s.qw) (omega (arith, step-mod s.qw h.write_in, h.count, h.read_in)),
  step-mod s.qw h.write_in,
)

-- An entry other than the one at `qw` is left as it was.
kept :
    (s : Queue) (xs : List Queued) (b : List ℕ) (len k : ℕ)
    → Holds s xs
    → k < length xs
    → get_elem? (set s.q s.qw (entry b len)) ((s.qr + k) % 16) ≡ get_elem? xs k
kept s xs b len k h lt =
    get_elem?-set_ne s.q s.qw ((s.qr + k) % 16) (entry b len) apart ∙ h.item k lt
  where
    apart : s.qw ≢ (s.qr + k) % 16
    apart = omega (arith, h.count, h.read_in, h.write_in)

-- What queue_write does to a queue that holds `xs`: it appends the buffer if there is room.
pub record Pushed (s : Queue) (xs : List Queued) (b : List ℕ) (len : ℕ) : Type 0 where
  pub queued : Bool
  pub after : Queue
  pub result : queue_write s b len ≡ some (queued, after)
  pub holds :
      Holds after (if queued then xs ++ record { start = b; send = b; len = len } ∷ [] else xs)
  pub room : (queued ≡ true) ↔ (length xs < 15)

appended :
    (s : Queue) (xs : List Queued) (b : List ℕ) (len : ℕ)
    → Holds s xs
    → length xs < 15
    → Holds (stored s b len ((s.qw + 1) % 16)) (xs ++ entry b len ∷ [])
appended s xs b len h room = record {
  sized = length-set s.q s.qw (entry b len) ∙ h.sized;
  read_in = h.read_in;
  write_in = omega arith;
  count = omega (arith, length-append xs (entry b len ∷ []), h.count, h.read_in, h.write_in);
  item = λ k lt. elim (dec_lt k (length xs)) [
    | yes p ↦ kept s xs b len k h p ∙ sym (get_elem?-append_left xs (entry b len ∷ []) k p)
    | no p ↦
        let at : k ≡ length xs + 0 = omega (arith, length-append xs (entry b len ∷ [])) in
        let here : (s.qr + k) % 16 ≡ s.qw = omega (arith, h.count, h.read_in, h.write_in) in
        ap (get_elem? (set s.q s.qw (entry b len))) here
        ∙ get_elem?-set_self s.q s.qw (entry b len) (omega (arith, h.sized, h.write_in))
        ∙ sym
            (ap (get_elem? (xs ++ entry b len ∷ [])) at ∙ get_elem?-append xs (entry b len ∷ []) 0)
  ];
}

dropped :
    (s : Queue) (xs : List Queued) (b : List ℕ) (len : ℕ)
    → Holds s xs
    → Holds (stored s b len s.qw) xs
dropped s xs b len h = record {
  sized = length-set s.q s.qw (entry b len) ∙ h.sized;
  read_in = h.read_in;
  write_in = h.write_in;
  count = h.count;
  item = λ k lt. kept s xs b len k h lt;
}

pub queue_write-Pushed :
    (s : Queue) (xs : List Queued) (b : List ℕ) (len : ℕ) → Holds s xs → Pushed s xs b len
queue_write-Pushed s xs b len h = elim (dec_lt (length xs) 15) [
  | yes p ↦ record {
    queued = true;
    after = stored s b len ((s.qw + 1) % 16);
    result = queue_write-room s xs b len h p;
    holds = appended s xs b len h p;
    room = ((λ _. p), λ _. refl);
  }
  | no p ↦ record {
    queued = false;
    after = stored s b len s.qw;
    result = queue_write-full s xs b len h (omega (arith, h.count));
    holds = dropped s xs b len h;
    room = ((λ e. cc), λ q. absurd (p q));
  }
]
