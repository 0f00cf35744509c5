-- ===== src/Queue/Holds.antt =====
-- The entries that a queue holds, first in first out.
use keyless.Prelude.{ℕ, ◌+◌, ◌-◌, ◌%◌, ◌<◌, ◌≡◌, List, length, get_elem?}
use keyless.Queue.{Queue, Queued, queue_length}

-- The array has its 16 entries, both indices lie in it, and the entries from `qr` up to `qw`, going
-- round at the end, are the items of the list in their order.
pub record Holds (s : Queue) (xs : List Queued) : Type 0 where
  pub sized : length s.q ≡ queue_length
  pub read_in : s.qr < queue_length
  pub write_in : s.qw < queue_length
  pub count : (s.qw + queue_length - s.qr) % queue_length ≡ length xs
  pub item : (k : ℕ) → k < length xs → get_elem? s.q ((s.qr + k) % queue_length) ≡ get_elem? xs k
