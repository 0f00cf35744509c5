-- ===== src/Tests/Queueing.antt =====
-- The queue of a connection, with two buffers whose entries go round the end of the array.
use keyless.Prelude.{
  ℕ, zero, suc, ◌+◌, ◌%◌, ◌<◌, ◌≡◌, refl, arith, List, [], ◌∷◌, ◌==◌, some, if◌then◌else◌,
  get_elem?,
}
use keyless.Protocol.{no_error}
use keyless.Queue.{
  Queue, Queued, SslWrite, wrote, want_write, sent_some, write_loop, write_queued_messages,
}
use keyless.Queue.Holds.{Holds}
use keyless.Queue.Drain.{Drains, TakesSome, write_queued_messages-Drains}

abbrev buffer : List ℕ → ℕ → Queued
buffer b n = record { start = b; send = b; len = n }

abbrev pub unused : Queued
unused = buffer [] 0

abbrev pub first_buffer : Queued
first_buffer = buffer (1 ∷ 2 ∷ 3 ∷ []) 3

abbrev pub second_buffer : Queued
second_buffer = buffer (4 ∷ 5 ∷ []) 2

abbrev pub two_queued : Queue
two_queued = record {
  q =
      second_buffer ∷ unused ∷ unused ∷ unused ∷ unused ∷ unused ∷ unused ∷ unused ∷ unused ∷ unused
      ∷ unused ∷ unused ∷ unused ∷ unused ∷ unused ∷ first_buffer ∷ [];
  qr = 15;
  qw = 1;
}

two_items :
    (k : ℕ)
    → k < 2
    → get_elem? two_queued.q ((15 + k) % 16) ≡ get_elem? (first_buffer ∷ second_buffer ∷ []) k
two_items zero h = refl
two_items (suc zero) h = refl
two_items (suc (suc k)) h = absurd (omega (arith, h))

pub two_queued-Holds : Holds two_queued (first_buffer ∷ second_buffer ∷ [])
two_queued-Holds = record {
  sized = refl;
  read_in = omega arith;
  write_in = omega arith;
  count = refl;
  item = two_items;
}

-- It takes two bytes at most, and the third call has to wait.
abbrev pub slow_write : SslWrite
slow_write i b zero = want_write
slow_write i b (suc n) = if i == 2 then want_write else wrote (if n == 0 then 1 else 2)

pub slow_write-TakesSome : TakesSome slow_write
slow_write-TakesSome i b zero rc h = absurd (ground arith)
slow_write-TakesSome i b (suc n) rc h = ground arith

write_queued_messages-Drains_example :
    Drains slow_write
      (first_buffer ∷ second_buffer ∷ [])
      []
      (write_queued_messages 6 slow_write two_queued)
write_queued_messages-Drains_example =
    write_queued_messages-Drains 6 slow_write two_queued (first_buffer ∷ second_buffer ∷ [])
      slow_write-TakesSome two_queued-Holds ((omega arith, refl), ((omega arith, refl), tt))
      (omega arith)

-- After two calls, the first buffer is gone, and the second is still to be sent.
sent_three :
    write_queued_messages 6 slow_write two_queued
    ≡ some (
      no_error,
      record two_queued {
        q =
            second_buffer
            ∷ unused
            ∷ unused
            ∷ unused
            ∷ unused
            ∷ unused
            ∷ unused
            ∷ unused
            ∷ unused
            ∷ unused
            ∷ unused
            ∷ unused
            ∷ unused
            ∷ unused
            ∷ unused
            ∷ record { start = 1 ∷ 2 ∷ 3 ∷ []; send = []; len = 0 }
            ∷ [];
        qr = 0;
      },
      1 ∷ 2 ∷ 3 ∷ [],
    )
unfolding write_queued_messages write_loop sent_some
sent_three = refl
