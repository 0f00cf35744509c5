-- ===== src/Client/Gap.antt =====
-- testclient.c: how many requests are written and how many answers read in kssl_pipeline.
use keyless.Prelude.{ℕ, zero, suc, ◌+◌, ◌%◌, ◌≤◌, ◌<◌, arith, ◌&&◌, ltb, if◌then◌else◌}
use keyless.Client.Pipeline.{max_gap, write_increment, read_increment}

-- The counts of requests written and answers read, as the loop keeps them.
pub record InStep (repeat w r : ℕ) : Type 0 where
  pub order : r ≤ w
  pub goal : w ≤ repeat
  pub gap : w ≤ r + max_gap

pub write_increment-InStep :
    (repeat w r x : ℕ) → InStep repeat w r → InStep repeat (w + write_increment repeat w r x) r
unfolding write_increment
write_increment-InStep repeat w r x h = record {
  order = omega (arith, h.order);
  goal = ground (arith, h.goal);
  gap = ground (arith, h.gap, h.order);
}

pub read_increment-InStep :
    (repeat w r x : ℕ) → InStep repeat w r → InStep repeat w (r + read_increment w r x)
unfolding read_increment
read_increment-InStep repeat w r x h = record {
  order = ground (arith, h.order);
  goal = h.goal;
  gap = ground (arith, h.gap);
}

-- A turn whose two draws are no multiples of 300
abbrev pub lucky : (ℕ → ℕ) → ℕ → ℕ
lucky random i = if ltb 0 (random i % max_gap) && ltb 0 (random (i + 1) % max_gap) then 1 else 0

abbrev pub lucky_turns : (ℕ → ℕ) → ℕ → ℕ → ℕ
lucky_turns random zero i = 0
lucky_turns random (suc turns) i = lucky random i + lucky_turns random turns (i + 2)

-- A lucky turn writes or reads, where not all is done.
pub turn_moves :
    (random : ℕ → ℕ) (repeat w r i : ℕ)
    → InStep repeat w r
    → r < repeat
    → (let m = write_increment repeat w r (random i) in
        lucky random i ≤ m + read_increment (w + m) r (random (i + 1)))
unfolding write_increment read_increment
turn_moves random repeat w r i h lt = ground (arith, h.order, h.goal, h.gap)
