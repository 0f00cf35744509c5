-- ===== src/Queue.antt =====
-- kssl_thread.c: the circular queue of buffers of a connection, queue_write and
-- write_queued_messages.
pub mod Holds
pub mod Enqueue
mod First
pub mod Drain
pub mod Fuel
use keyless.Prelude.{
  ℕ, zero, suc, ◌+◌, ◌-◌, Option, none, some, List, [], ◌∷◌, ◌++◌, Bool, true, false, ltb, ◌==◌,
  if◌then◌else◌, length, get_elem?, set, take, drop,
}
use keyless.Protocol.{ErrorCode, no_error, internal, ◌>>=◌}

abbrev pub queue_length : ℕ
queue_length = 16

-- queued; `send` is the pointer to what is still to be sent, `len` bytes
pub record Queued : Type 0 where
  pub start : List ℕ
  pub send : List ℕ
  pub len : ℕ

-- The fields q, qr and qw of a connection_state.
pub record Queue : Type 0 where
  pub q : List Queued
  pub qr : ℕ
  pub qw : ℕ

-- `x += 1; if (x == QUEUE_LENGTH) x = 0;`
unfoldable pub step : ℕ → ℕ
step x = if x + 1 == queue_length then 0 else x + 1

-- `x -= 1; if (x == -1) x = QUEUE_LENGTH - 1;`
unfoldable pub step_back : ℕ → ℕ
step_back x = if x == 0 then queue_length - 1 else x - 1

-- A store to an entry of `q`; outside the array it is a fault.
unfoldable pub put_entry : List Queued → ℕ → Queued → Option (List Queued)
put_entry q i e = if ltb i (length q) then some (set q i e) else none

-- The Boolean says whether the buffer was queued; if not, it is freed and its data is lost.
unfoldable pub queue_write : Queue → List ℕ → ℕ → Option (Bool × Queue)
unfolding put_entry step step_back
queue_write s b len = do
  q ← put_entry s.q s.qw (record { start = b; send = b; len = len })
  let qw = step s.qw
  if s.qr == qw
      then some (false, record { q = q; qr = s.qr; qw = step_back qw })
      else some (true, record { q = q; qr = s.qr; qw = qw })

-- What SSL_write and SSL_get_error say to one call: `rc` bytes were taken, or why none was.
pub data WriteResult : Type 0 where
  wrote : ℕ → WriteResult
  want_read want_write zero_return other_error : WriteResult

-- The answer of OpenSSL to its `i`-th call, with the bytes that it is given.
abbrev pub SslWrite : Type 0
SslWrite = ℕ → List ℕ → ℕ → WriteResult

-- The state of the entry after `rc` of its bytes were taken, and the queue with it.
unfoldable pub sent_some : Queue → Queued → ℕ → Option Queue
unfolding put_entry step
sent_some s e rc = do
  q ← put_entry s.q s.qr (record e { len = e.len - rc; send = drop rc e.send })
  some (record s { q = q; qr = if e.len - rc == 0 then step s.qr else s.qr })

-- The code, the queue, and all the bytes that OpenSSL took, in order.
abbrev pub Drained : Type 0
Drained = ErrorCode × Queue × List ℕ

-- The loop, with fuel; `none` is a fault, or no fuel left.
unfoldable pub write_loop : ℕ → ℕ → SslWrite → Queue → List ℕ → Option Drained
write_loop zero i ssl s sent = none
write_loop (suc fuel) i ssl s sent = elim (s.qr == s.qw) [
  | true ↦ some (no_error, s, sent)
  | false ↦ get_elem? s.q s.qr >>= λ e. elim (ltb 0 e.len) [
    | false ↦ some (no_error, s, sent)
    | true ↦ elim (ssl i e.send e.len) [
      | wrote rc ↦
          sent_some s e rc >>= λ s'. write_loop fuel (i + 1) ssl s' (sent ++ take rc e.send)
      | want_read ↦ some (no_error, s, sent)
      | want_write ↦ some (no_error, s, sent)
      | zero_return ↦ some (internal, s, sent)
      | other_error ↦ some (internal, s, sent)
    ]
  ]
]

unfoldable pub write_queued_messages : ℕ → SslWrite → Queue → Option Drained
write_queued_messages fuel ssl s = write_loop fuel 0 ssl s []

-- All the bytes that the entries count, in use or not: the fuel of a run on this queue.
abbrev pub total : List Queued → ℕ
total [] = 0
total (e ∷ q) = e.len + total q

-- write_queued_messages, with fuel for every byte and one round more
unfoldable pub drain : SslWrite → Queue → Option Drained
drain ssl s = write_queued_messages (suc (total s.q)) ssl s
