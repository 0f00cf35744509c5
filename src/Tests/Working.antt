-- ===== src/Tests/Working.antt =====
-- A worker with two connections, and a third one whose client is closed.
use keyless.Prelude.{ℕ, ◌≡◌, refl, arith, Option, none, some, [], ◌∷◌, false}
use keyless.ConnectionState.{reset, set_get_header_state}
use keyless.Connection.{finished}
use keyless.Worker.{
  Link, head, next_of, Cell, Worker, update, initialize_state, make_state, modify, write_prev,
  initial, want_read, readable, Call, opened, new_connection_cb, accepted, allocate_state, read_cb,
}
use keyless.Worker.Linked.{IsList}
use keyless.Worker.Insert.{connection_at, Inserted, initialize_state-Inserted}
use keyless.Worker.Remove.{Unlinked, unlink-Unlinked}
use keyless.Worker.State.{Serving, IsWorker, ready}
use keyless.Worker.Release.{Runs}
use keyless.Worker.Callbacks.{read_cb-Runs}
use keyless.Worker.Closing.{Freed, close_cb-Freed}
use keyless.Worker.Accept.{IsMemory, Accepts, new_connection_cb-Accepts}
use keyless.Worker.Reach.{
  Reaches, start, opens, Reaches-IsWorker, open_after_failure, open_after_failure-faults,
}
use keyless.Tests.Reading.{around, around_laws, blank, blank-IsReady, stream}

abbrev cell_at : Link → Option ℕ → Cell
cell_at l a = record { prev = l; next = a; connection = reset blank }

abbrev two_clients : Worker
two_clients = record {
  active = some 200;
  cell =
      update
        (update (update (λ _. none) 300 (some (cell_at head none))) 100
          (some (cell_at (next_of 200) none)))
        200 (some (cell_at head (some 100)));
}

two_clients-IsList : IsList two_clients (200 ∷ 100 ∷ [])
two_clients-IsList = record {
  linked = (
    refl,
    record { state = cell_at head (some 100); allocated = refl; back = refl },
    (refl, record { state = cell_at (next_of 200) none; allocated = refl; back = refl }, refl),
  );
  distinct = ((omega arith, tt), (tt, tt));
}

two_clients-IsWorker : IsWorker two_clients (200 ∷ 100 ∷ []) (300 ∷ [])
two_clients-IsWorker = record {
  list = two_clients-IsList;
  serving = (serving 200 refl, (serving 100 refl, tt));
  waiting = (record { connection = reset blank; there = refl }, tt);
  apart = ((omega arith, (omega arith, tt)), tt);
  once = (tt, tt);
}
  where
    serving : (p : ℕ) → connection_at two_clients p ≡ some (reset blank) → Serving two_clients p
    serving p h = record { connection = reset blank; there = h; serves = ready [] blank-IsReady }

abbrev memory : Cell
memory = record { prev = next_of 5; next = some 6; connection = blank }

memory-IsMemory : IsMemory memory
memory-IsMemory = record { header_sized = refl; queue_sized = refl }

initialize_state-Inserted_example : Inserted two_clients 300 (cell_at head none) (200 ∷ 100 ∷ [])
initialize_state-Inserted_example =
    initialize_state-Inserted two_clients 300 (cell_at head none) (200 ∷ 100 ∷ []) refl
      (omega arith, (omega arith, tt)) two_clients-IsList

unlink-Unlinked_example : Unlinked two_clients (200 ∷ []) 100 []
unlink-Unlinked_example = unlink-Unlinked two_clients (200 ∷ []) 100 [] two_clients-IsList

abbrev call : Call around
call = record { fuel = 30; init_finished = false; handshake = finished; ssl = stream }

read_cb-Runs_example :
    Runs [] 200 (100 ∷ []) (300 ∷ []) (read_cb around call want_read readable 200 two_clients)
read_cb-Runs_example =
    read_cb-Runs around around_laws [] 200 (100 ∷ []) (300 ∷ []) call want_read readable two_clients
      two_clients-IsWorker (omega arith)

close_cb-Freed_example : Freed two_clients 300 (200 ∷ 100 ∷ []) []
close_cb-Freed_example = close_cb-Freed two_clients 300 (200 ∷ 100 ∷ []) [] [] two_clients-IsWorker

new_connection_cb-Accepts_example :
    Accepts two_clients 400 memory (200 ∷ 100 ∷ []) (300 ∷ []) opened
new_connection_cb-Accepts_example =
    new_connection_cb-Accepts two_clients 400 memory (200 ∷ 100 ∷ []) (300 ∷ []) opened refl
      memory-IsMemory two_clients-IsWorker

-- The worker after one client.
abbrev one_client : Worker
one_client = record {
  active = some 100;
  cell =
      update
        (update
          (update (update (λ _. none) 100 (some memory)) 100
            (some (record { prev = head; next = none; connection = blank })))
          100 (some (record { prev = head; next = none; connection = initial blank })))
        100
        (some
          (record { prev = head; next = none; connection = set_get_header_state (initial blank) }));
}

one_client-Reaches : Reaches around around_laws one_client (100 ∷ []) []
unfolding new_connection_cb accepted allocate_state make_state initialize_state modify write_prev
    initial set_get_header_state
one_client-Reaches = opens opened 100 memory start refl memory-IsMemory refl (λ e. cc e)

Reaches-IsWorker_example : IsWorker one_client (100 ∷ []) []
Reaches-IsWorker_example = Reaches-IsWorker around around_laws one_client-Reaches

open_after_failure-faults_example : open_after_failure 400 memory 500 memory two_clients ≡ none
open_after_failure-faults_example =
    open_after_failure-faults 400 memory 500 memory two_clients (200 ∷ 100 ∷ []) (300 ∷ []) refl
      memory-IsMemory two_clients-IsWorker (omega arith)
