-- ===== src/Worker.antt =====
-- kssl_thread.c: the connections of a worker thread, their list, and the callbacks of libuv.
pub mod Linked
pub mod Insert
pub mod Fields
pub mod Remove
pub mod State
pub mod Release
pub mod Callbacks
pub mod Closing
pub mod Accept
pub mod Reach
use keyless.Prelude.{
  ℕ, zero, suc, ◌+◌, Option, none, some, List, [], ◌∷◌, ◌++◌, Bool, true, false, not, ◌==◌,
  if◌then◌else◌,
}
use keyless.Protocol.{◌>>=◌}
use keyless.Queue.{Queue, step, drain}
use keyless.ConnectionState.{
  Connection, Phase, new_connection, terminating, nowhere, set_get_header_state,
}
use keyless.Connection.{Surroundings, World, Message, Handshake, do_ssl}

-- A pointer to a pointer to a connection_state: the worker's `active`, or the `next` of a state.
pub data Link : Type 0 where
  head : Link
  next_of : ℕ → Link

-- A connection_state at its address; `next` is NULL or an address.
pub record Cell : Type 0 where
  pub prev : Link
  pub next : Option ℕ
  pub connection : Connection

-- worker_data, and the connection_states that are allocated
pub record Worker : Type 0 where
  pub active : Option ℕ
  pub cell : ℕ → Option Cell

abbrev pub update : (ℕ → Option Cell) → ℕ → Option Cell → ℕ → Option Cell
update f p c a = if a == p then c else f a

-- A store to a state; what is not allocated faults.
unfoldable pub modify : ℕ → (Cell → Cell) → Worker → Option Worker
modify p f w = w.cell p >>= λ c. some (record w { cell = update w.cell p (some (f c)) })

-- `*link = a`
unfoldable pub write_link : Link → Option ℕ → Worker → Option Worker
unfolding modify
write_link head a w = some (record w { active = a })
write_link (next_of p) a w = modify p (λ c. record c { next = a }) w

-- `p->prev = link`, where `p` is not NULL
unfoldable pub write_prev : Option ℕ → Link → Worker → Option Worker
unfolding modify
write_prev none l w = some w
write_prev (some p) l w = modify p (λ c. record c { prev = l }) w

-- The fields that initialize_state sets besides the list's
unfoldable pub initial : Connection → Connection
initial c = record c {
  start = nowhere;
  place = nowhere;
  offset = 0;
  need = 0;
  phase = new_connection;
  payload = none;
  queue = record c.queue { qr = 0; qw = 0 };
  connected = false;
}

unfoldable pub initialize_state : ℕ → Worker → Option Worker
unfolding modify write_prev initial
initialize_state p w = do
  w ← modify p (λ c. record c { prev = head; next = w.active }) w
  w ← write_prev w.active (next_of p) w
  modify p (λ c. record c { connection = initial c.connection }) (record w { active = some p })

-- The loop of try_shutdown over the queue, with the rounds left.
unfoldable pub free_queue : ℕ → Queue → Option Queue
unfolding step
free_queue zero s = none
free_queue (suc fuel) s = elim (s.qr == s.qw) [
  | true ↦ some s
  | false ↦ free_queue fuel (record s { qr = step s.qr })
]

-- `*(state->prev) = state->next; if (state->next) state->next->prev = state->prev;`
unfoldable pub unlink : ℕ → Worker → Option Worker
unfolding write_link write_prev
unlink p w = do c ← w.cell p; w ← write_link c.prev c.next w; write_prev c.next c.prev w

-- What SSL_shutdown and SSL_get_error say.
pub data Shutdown : Type 0 where
  complete want_read want_write other_error : Shutdown

abbrev pub set_connection : Connection → Cell → Cell
set_connection x c = record c { connection = x }

-- The part of try_shutdown that cleans up
unfoldable pub clean_up : ℕ → Worker → Option Worker
unfolding modify free_queue unlink
clean_up p w = do
  c ← w.cell p
  s ← free_queue 16 c.connection.queue
  w ← modify p (λ c. record c { connection = record c.connection { queue = s } }) w
  unlink p w

-- The Boolean says whether uv_close was called.
unfoldable pub try_shutdown : Shutdown → ℕ → Worker → Option (Bool × Worker)
unfolding clean_up
try_shutdown want_read p w = some (false, w)
try_shutdown want_write p w = some (false, w)
try_shutdown complete p w = clean_up p w >>= λ w. some (true, w)
try_shutdown other_error p w = clean_up p w >>= λ w. some (true, w)

unfoldable pub connection_terminate : Shutdown → ℕ → Worker → Option (Bool × Worker)
unfolding modify try_shutdown
connection_terminate s p w = do
  w ← modify p (λ c. record c { connection = record c.connection { phase = terminating } }) w
  try_shutdown s p w

-- close_cb where the handle's data is the state at `p`: the state is freed.
unfoldable pub close_cb : ℕ → Worker → Option Worker
close_cb p w = w.cell p >>= λ c. some (record w { cell = update w.cell p none })

-- A write of a connection that a callback has worked on
abbrev pub store_connection : ℕ → Connection → Worker → Option Worker
store_connection p x w = modify p (set_connection x) w

-- The answer of do_ssl, and what read_cb does with it.
unfoldable pub after_ssl :
    (env : Surroundings) → Shutdown → ℕ → Worker → Bool × World env → Option (Bool × Worker)
unfolding modify connection_terminate
after_ssl env s p w (true, x) = do
  (code, q, sent) ← drain (env.write (x.turn + 1)) x.connection.queue
  w ← store_connection p (record x.connection { queue = q }) w
  some (false, w)
after_ssl env s p w (false, x) = do
  w ← store_connection p x.connection w
  connection_terminate s p w

-- What was read from the TCP connection: some bytes or none, or its end or an error.
pub data Nread : Type 0 where
  readable ended : Nread

-- The arguments of do_ssl: what OpenSSL says, and the TLS connection.
pub record Call (env : Surroundings) : Type 0 where
  pub fuel : ℕ
  pub init_finished : Bool
  pub handshake : Handshake
  pub ssl : env.Ssl

unfoldable pub read_cb :
    (env : Surroundings) → Call env → Shutdown → Nread → ℕ → Worker → Option (Bool × Worker)
unfolding try_shutdown connection_terminate after_ssl
read_cb env call s nread p w = w.cell p >>= λ c. elim c.connection.phase [
  | terminating ↦ try_shutdown s p w
  | _ ↦ elim nread [
    | ended ↦ connection_terminate s p w
    | readable ↦
        do_ssl env call.fuel call.init_finished call.handshake
          (record { connection = c.connection; ssl = call.ssl; turn = 0; sent = []; handled = [] })
        >>= after_ssl env s p w
  ]
]

-- How far new_connection_cb comes: what the callback's status, uv_accept, SSL_new, uv_read_start and
-- the first SSL_do_handshake say. A uv_tcp_init that fails is logged and changes nothing else.
pub data Opening : Type 0 where
  no_connection no_accept no_ssl no_read no_handshake opened : Opening

-- The outcome: nothing was done; uv_close was called for a client whose data is NULL, so that close_cb
-- frees no state, before a state was made or with a state that stays in the list; uv_close was called
-- for a client whose data is the given state, which close_cb frees though it is in the list; or the
-- connection is open.
pub data Opened : Type 0 where
  refused : Opened
  turned_away : Opened
  orphaned : Opened
  closing : ℕ → Opened
  open_now : Opened

-- The state of a new connection; the address is what malloc gives, and the cell what is there.
unfoldable pub make_state : ℕ → Cell → Worker → Option Worker
unfolding initialize_state modify set_get_header_state
make_state p memory w =
    initialize_state p (record w { cell = update w.cell p (some memory) })
    >>= modify p (λ c. record c { connection = set_get_header_state c.connection })

-- The state; where malloc gives NULL, initialize_state stores to it.
unfoldable pub allocate_state : ℕ → Option Cell → Worker → Option Worker
unfolding make_state
allocate_state p none w = none
allocate_state p (some memory) w = make_state p memory w

-- Behind uv_accept
unfoldable pub accepted : Opening → ℕ → Option Cell → Worker → Option (Opened × Worker)
unfolding allocate_state
accepted no_connection p memory w = some (refused, w)
accepted no_accept p memory w = some (turned_away, w)
accepted no_ssl p memory w = allocate_state p memory w >>= λ w. some (orphaned, w)
accepted no_read p memory w = allocate_state p memory w >>= λ w. some (closing p, w)
accepted no_handshake p memory w = allocate_state p memory w >>= λ w. some (closing p, w)
accepted opened p memory w = allocate_state p memory w >>= λ w. some (open_now, w)

-- `client_ok` is the malloc of the client, to which `client->data = NULL` stores, and `memory` that of
-- the state; neither is checked.
unfoldable pub new_connection_cb :
    Opening → Bool → ℕ → Option Cell → Worker → Option (Opened × Worker)
unfolding accepted
new_connection_cb no_connection client_ok p memory w = some (refused, w)
new_connection_cb o false p memory w = none
new_connection_cb o true p memory w = accepted o p memory w
