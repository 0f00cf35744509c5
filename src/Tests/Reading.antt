-- ===== src/Tests/Reading.antt =====
-- A connection that reads from a TLS connection which gives a byte at a time.
use keyless.Prelude.{
  ℕ, zero, suc, if◌then◌else◌, ◌==◌, ◌%◌, ◌≤◌, ◌<◌, ◌≡◌, refl, arith, none, some, List, [], ◌∷◌,
  ◌++◌, true, false, length, All, length-replicate, replicate, some-eq-some,
}
use keyless.Protocol.{Header, IsByte}
use keyless.Queue.{Queue, SslWrite, wrote, want_write}
use keyless.Queue.Drain.{TakesSome, is_wrote}
use keyless.Queue.Holds.{Holds}
use keyless.ConnectionState.{Connection, new_connection, nowhere, reset}
use keyless.Connection.{ReadResult, got, want_read, Surroundings, World, finished, do_ssl}
use keyless.Connection.Spec.{SurroundingsLaws, IsReady, IsQueue, is_got}
use keyless.Connection.Turns.{ready_again}
use keyless.Connection.Replies.{Replies, do_ssl-Replies}
use keyless.ConnectionState.{get_payload, in_payload}
use keyless.Connection.{message_read}
use keyless.Connection.Spec.{InPayload}
use keyless.Connection.Answers.{Answers, message_read-Answers}
use keyless.Tests.Serving.{ping_header, ping_bytes-IsByte}
use keyless.Tests.Serving.{store_of_two, store_of_two-KeyStoreLaws, ping_bytes}
use keyless.Tests.Queueing.{
  slow_write, slow_write-TakesSome, unused, two_queued, two_queued-Holds, first_buffer,
  second_buffer,
}

-- What is to be read, and 256 for a pause in it
abbrev slow_read : List ℕ → ℕ → ReadResult × List ℕ
slow_read [] n = (want_read, [])
slow_read (b ∷ bs) n = (got (b % 256 ∷ []), bs)

abbrev low_bytes : List ℕ → List ℕ
low_bytes [] = []
low_bytes (b ∷ bs) = b % 256 ∷ low_bytes bs

pub low_bytes-IsByte : (s : List ℕ) → All IsByte (low_bytes s)
low_bytes-IsByte [] = tt
low_bytes-IsByte (b ∷ bs) = (omega arith, low_bytes-IsByte bs)

abbrev pub around : Surroundings
around = record {
  Ssl = List ℕ;
  read = slow_read;
  write = λ i. slow_write;
  malloc = λ i n. some (replicate n 9);
  calloc_ok = λ i. true;
  output_ok = λ i. true;
  keys = store_of_two;
}

pub slow_read_lem :
    (s : List ℕ) (n : ℕ) (b : List ℕ)
    → 0 < n
    → (slow_read s n).0 ≡ got b
    → (0 < length b) × (length b ≤ n) × (low_bytes s ≡ b ++ low_bytes (slow_read s n).1)
slow_read_lem [] n b lt h = cc
slow_read_lem (x ∷ xs) n b lt h =
    let e : x % 256 ∷ [] ≡ b = cc in rw (← e) (omega arith, omega arith, refl)

pub slow_read_waits :
    (s : List ℕ) (n : ℕ)
    → is_got (slow_read s n).0 ≡ false
    → low_bytes (slow_read s n).1 ≡ low_bytes s
slow_read_waits [] n h = refl
slow_read_waits (x ∷ xs) n h = cc

abbrev pub around_laws : SurroundingsLaws around
around_laws = record {
  unread = low_bytes;
  bytes = low_bytes-IsByte;
  reads = slow_read_lem;
  waits = slow_read_waits;
  writes = λ i. slow_write-TakesSome;
  allocates = λ i n p h. rw (← some-eq-some h) (length-replicate {A = ℕ} n 9);
  store_laws = store_of_two-KeyStoreLaws;
}

abbrev pub empty_queue : Queue
empty_queue = record { q = replicate 16 unused; qr = 7; qw = 7 }

empty_queue-Holds : Holds empty_queue []
empty_queue-Holds = record {
  sized = refl;
  read_in = omega arith;
  write_in = omega arith;
  count = refl;
  item = λ k lt. absurd (omega (arith, lt));
}

abbrev blank_header : Header
blank_header = record { version_maj = 0; version_min = 0; length = 0; id = 0 }

abbrev pub blank : Connection
blank = record {
  start = nowhere;
  place = nowhere;
  offset = 0;
  need = 0;
  phase = new_connection;
  wire_header = replicate 8 3;
  header = blank_header;
  payload = none;
  queue = empty_queue;
  connected = true;
}

abbrev empty_IsQueue : IsQueue empty_queue
empty_IsQueue = record { items = []; holds = empty_queue-Holds; full = tt }

pub blank-IsReady : IsReady (reset blank) []
blank-IsReady = ready_again blank empty_IsQueue refl

-- A ping, and the first three bytes of the next header
abbrev pub stream : List ℕ
stream = 1 ∷ 0 ∷ 0 ∷ 9 ∷ 0 ∷ 0 ∷ 0 ∷ 77 ∷ (ping_bytes ++ 1 ∷ 0 ∷ 0 ∷ [])

abbrev pub at_stream : World around
at_stream = record { connection = reset blank; ssl = stream; turn = 0; sent = []; handled = [] }

-- SSL_write that takes all but one of the bytes, and a single one
abbrev steady_write : SslWrite
steady_write i b zero = want_write
steady_write i b (suc n) = wrote (if n == 0 then 1 else n)

steady_write-TakesSome : TakesSome steady_write
steady_write-TakesSome i b zero rc h = absurd (ground arith)
steady_write-TakesSome i b (suc n) rc h = ground arith

steady_write_flows : (b : List ℕ) (i n : ℕ) → 0 < n → is_wrote (steady_write i b n) ≡ true
steady_write_flows b i zero lt = absurd (omega (arith, lt))
steady_write_flows b i (suc n) lt = refl

abbrev steady : Surroundings
steady = record around { write = λ i. steady_write }

abbrev steady_laws : SurroundingsLaws steady
steady_laws = record {
  unread = low_bytes;
  bytes = low_bytes-IsByte;
  reads = slow_read_lem;
  waits = slow_read_waits;
  writes = λ i. steady_write-TakesSome;
  allocates = around_laws.allocates;
  store_laws = store_of_two-KeyStoreLaws;
}

abbrev at_steady : World steady
at_steady = record { connection = reset blank; ssl = stream; turn = 0; sent = []; handled = [] }

do_ssl-Replies_example :
    Replies steady
      (λ i. refl)
      (λ i call b n. steady_write_flows b call n)
      steady_laws
      true
      (low_bytes stream)
      at_steady
      (do_ssl steady 30 false finished at_steady)
unfolding ready_again
do_ssl-Replies_example =
    do_ssl-Replies steady (λ i. refl) (λ i call b n. steady_write_flows b call n) steady_laws 30
      false finished at_steady [] (ready_again blank empty_IsQueue refl) refl (omega arith)

-- The ping is read whole, and two buffers are queued.
abbrev ping_read : World around
ping_read = record at_stream {
  connection = record blank {
    phase = get_payload;
    start = in_payload;
    place = in_payload;
    offset = 9;
    need = 0;
    header = ping_header;
    payload = some ping_bytes;
    queue = two_queued;
  };
}

ping_read-InPayload : InPayload ping_read.connection ping_bytes
ping_read-InPayload = record {
  phase = refl;
  start = refl;
  place = refl;
  sized = refl;
  memory = ping_bytes;
  is = refl;
  room = refl;
  offset = refl;
  written = refl;
  need = refl;
  bytes = ping_bytes-IsByte;
  fits = record { maj = omega arith; min = omega arith; len = omega arith; num = omega arith };
  version = refl;
  some_length = omega arith;
}

message_read-Answers_example :
    Answers around around_laws ping_read
      (first_buffer ∷ second_buffer ∷ [])
      ping_bytes
      (message_read around ping_read)
message_read-Answers_example =
    message_read-Answers around around_laws ping_read ping_bytes (first_buffer ∷ second_buffer ∷ [])
      ping_read-InPayload refl two_queued-Holds ((omega arith, refl), ((omega arith, refl), tt))
      (omega arith) refl
