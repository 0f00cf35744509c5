-- ===== src/Client/Pipeline.antt =====
-- testclient.c: kssl_pipeline, which sends a request many times and reads the answers later.
use keyless.Prelude.{ℕ, zero, suc, ◌+◌, ◌-◌, ◌%◌, true, false, ◌||◌, ltb, if◌then◌else◌}
use keyless.Protocol.{Header}
use keyless.Message.{Operation}
use keyless.Client.{
  Outcome, returns, waits, ◌>>=◌, Peer, Session, kssl_write, kssl_read, verify_response,
}

abbrev pub max_gap : ℕ
max_gap = 300

-- How many requests are written and how many answers read in a turn, for a random number `x`. A
-- difference that is negative in C repeats nothing, as 0 does.
unfoldable pub write_increment : ℕ → ℕ → ℕ → ℕ → ℕ
write_increment repeat w_count r_count x =
    let cur_gap : ℕ = w_count - r_count in
    let increment : ℕ = x % max_gap in
    let capped : ℕ = if ltb max_gap (increment + cur_gap) then max_gap - cur_gap else increment in
    if ltb repeat (capped + w_count) then repeat - w_count else capped

unfoldable pub read_increment : ℕ → ℕ → ℕ → ℕ
read_increment w_count r_count x =
    let increment : ℕ = x % max_gap in
    if ltb w_count (r_count + increment) then w_count - r_count else increment

module _ (p : Peer) (fuel : ℕ) (k : Header) (r : Operation) where
  unfoldable pub write_many : ℕ → Session p → Outcome (Session p)
  write_many zero s = returns s
  write_many (suc n) s = kssl_write p s k r >>= write_many n

  unfoldable pub read_many : ℕ → Session p → Outcome (Session p)
  read_many zero s = returns s
  read_many (suc n) s = do
    (h, s) ← kssl_read p fuel s k
    s ← verify_response p k h.header s
    read_many n s

  -- The loop, for at most `turns` turns; `random` are the numbers that it draws, `i` of them so far.
  unfoldable pub kssl_pipeline : (ℕ → ℕ) → ℕ → ℕ → ℕ → ℕ → ℕ → Session p → Outcome (Session p)
  unfolding write_increment read_increment write_many read_many
  kssl_pipeline random repeat zero i w_count r_count s = waits
  kssl_pipeline random repeat (suc turns) i w_count r_count s =
      elim (ltb w_count repeat || ltb r_count repeat) [
        | false ↦ returns s
        | true ↦
            let m : ℕ = write_increment repeat w_count r_count (random i) in
            let n : ℕ = read_increment (w_count + m) r_count (random (i + 1)) in
            write_many m s >>= λ s. read_many n s >>= λ s.
            kssl_pipeline random repeat turns (i + 2) (w_count + m) (r_count + n) s
      ]
