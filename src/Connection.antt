-- ===== src/Connection.antt =====
-- kssl_thread.c: how a connection reads messages and has them answered.
pub mod Spec
mod Bytes
mod Outputs
pub mod Line
pub mod Turns
pub mod Steps
pub mod Run
pub mod Loop
pub mod Answers
pub mod Replies
use keyless.Prelude.{
  ℕ, zero, suc, ◌+◌, ◌-◌, Option, none, some, List, [], ◌∷◌, ◌++◌, Bool, true, false, ltb, ◌==◌,
  length,
}
use keyless.Protocol.{
  Pointer, Header, ErrorCode, no_error, version_mismatch, internal, error_byte, header_size,
  version_maj, ◌>>=◌,
}
use keyless.Wire.{store, parse_header}
use keyless.Message.{Output}
use keyless.KeyStore.{KeyStore}
use keyless.Core.{kssl_error, kssl_operate}
use keyless.Queue.{Queue, queue_write, SslWrite, drain}
use keyless.ConnectionState.{
  Connection, Phase, Place, at_start, free_read_state, get_header, get_payload, in_header,
  in_payload, new_connection, nowhere, queue_error, queue_output, receive, reset,
  set_get_header_state, set_get_payload_state, terminating, write_error,
}

-- What SSL_read and SSL_get_error say to one call: the bytes read, or why there are none.
pub data ReadResult : Type 0 where
  got : List ℕ → ReadResult
  want_read want_write zero_return other_error : ReadResult

-- What SSL_do_handshake and SSL_get_error say.
pub data Handshake : Type 0 where
  finished in_progress broken : Handshake

-- A message that was given to kssl_operate.
pub record Message : Type 0 where
  pub header : Header
  pub payload : List ℕ

-- The surroundings of one call of do_ssl. `read` is SSL_read on the state of the TLS connection;
-- the other functions are given the number of the turn of the loop. `malloc` gives the memory of a
-- payload, with what it holds; `calloc_ok` and `output_ok` are for the memory of answers.
pub record Surroundings : Type 1 where
  pub Ssl : Type 0
  pub read : Ssl → ℕ → ReadResult × Ssl
  pub write : ℕ → SslWrite
  pub malloc : ℕ → ℕ → Pointer
  pub calloc_ok : ℕ → Bool
  pub output_ok : ℕ → Bool
  pub keys : KeyStore

module _ (env : Surroundings) where
  open env use {Ssl}

  -- A point of do_ssl's loop: the connection, the TLS connection, the turns so far, the bytes that
  -- SSL_write took so far, and the messages that were given to kssl_operate so far.
  pub record World : Type 0 where
    pub connection : Connection
    pub ssl : Ssl
    pub turn : ℕ
    pub sent : List ℕ
    pub handled : List Message

  -- One turn of the loop: `continue`, the end of the body included, or `return`.
  pub data Turn : Type 0 where
    again : World → Turn
    done : Bool → World → Turn

  -- clear_read_queue, with fuel
  unfoldable pub clear_read_queue : ℕ → Ssl → Option Ssl
  clear_read_queue zero ssl = none
  clear_read_queue (suc fuel) ssl = elim (env.read ssl 1024).0 [
    | got b ↦ clear_read_queue fuel (env.read ssl 1024).1
    | _ ↦ some (env.read ssl 1024).1
  ]

  -- A header that is not followed: an error, and what can be read is thrown away.
  unfoldable pub refuse : ℕ → ErrorCode → World → Option Turn
  unfolding write_error clear_read_queue set_get_header_state free_read_state
  refuse fuel e w = do
    c ← write_error (env.calloc_ok w.turn) w.connection.header.id e w.connection
    ssl ← clear_read_queue fuel w.ssl
    some (done true (record w { connection = reset c; ssl = ssl }))

  -- The branch of an unknown state
  unfoldable pub give_up : World → Turn
  unfolding set_get_header_state free_read_state
  give_up w = done true (record w { connection = reset w.connection })

  -- What follows set_get_payload_state
  unfoldable pub payload_ready : ℕ → World → Bool × Connection → Option Turn
  unfolding refuse
  payload_ready fuel w (true, c) = some (again (record w { connection = c }))
  payload_ready fuel w (false, c) = refuse fuel internal (record w { connection = c })

  -- What follows a header: a payload, or nothing that the code expects.
  unfoldable pub header_known : ℕ → Header → World → Option Turn
  unfolding payload_ready refuse set_get_payload_state give_up
  header_known fuel h w = elim (h.version_maj == version_maj) [
    | false ↦ refuse fuel version_mismatch w
    | true ↦ elim (ltb 0 h.length) [
      | false ↦ some (give_up w)
      | true ↦
          payload_ready fuel w
            (set_get_payload_state (env.malloc w.turn h.length) h.length w.connection)
    ]
  ]

  unfoldable pub header_parsed : ℕ → World → ErrorCode × Option Header → Option Turn
  unfolding header_known
  header_parsed fuel w (no_error, some h) =
      header_known fuel h
        (record w { connection = record w.connection { header = h; start = nowhere } })
  header_parsed fuel w (no_error, none) = none
  header_parsed fuel w (e, h) = some (done false w)

  -- A header was read whole.
  unfoldable pub header_read : ℕ → World → Option Turn
  unfolding header_parsed
  header_read fuel w =
      parse_header (some w.connection.wire_header) (some w.connection.header)
      >>= header_parsed fuel w

  -- The queue after the answer of kssl_operate
  unfoldable pub queue_answer : Output → Queue → Option Queue
  unfolding queue_output
  queue_answer out s = elim out.code [ no_error ↦ queue_output out s | _ ↦ some s ]

  -- A message was read whole.
  unfoldable pub message_read : World → Option Turn
  unfolding queue_answer set_get_header_state free_read_state
  message_read w = do
    let c = w.connection
    p ← at_start c
    out ← kssl_operate env.keys (env.output_ok w.turn) (env.calloc_ok w.turn) c.header (some p)
    s ← queue_answer out c.queue
    (code, s', sent) ← drain (env.write w.turn) s
    some (
        again (record w {
          connection = reset (record c { queue = s' });
          sent = w.sent ++ sent;
          handled = w.handled ++ record { header = c.header; payload = p } ∷ [];
        }))

  -- All that was needed is read.
  unfoldable pub complete : ℕ → World → Option Turn
  unfolding header_read message_read give_up
  complete fuel w = elim w.connection.phase [
    | get_header ↦ header_read fuel w
    | get_payload ↦ message_read w
    | _ ↦ some (give_up w)
  ]

  -- What the loop does with the answer of SSL_read.
  unfoldable pub turn_by : ℕ → World → ReadResult → Option Turn
  unfolding receive complete
  turn_by fuel w (got b) = receive w.connection b >>= λ c. elim (ltb 0 c.need) [
    | true ↦ some (again (record w { connection = c }))
    | false ↦ complete fuel (record w { connection = c })
  ]
  turn_by fuel w want_read = some (done true w)
  turn_by fuel w want_write = some (done true w)
  turn_by fuel w zero_return = some (done false w)
  turn_by fuel w other_error = some (done false w)

  unfoldable pub one_turn : ℕ → World → Option Turn
  unfolding turn_by
  one_turn fuel w =
      turn_by fuel (record w { ssl = (env.read w.ssl w.connection.need).1 })
        (env.read w.ssl w.connection.need).0

  -- The loop, with fuel; the Boolean is the return value.
  unfoldable pub ssl_loop : ℕ → World → Option (Bool × World)
  ssl_loop zero w = none
  ssl_loop (suc fuel) w = elim (ltb 0 w.connection.need) [
    | false ↦ some (true, w)
    | true ↦ one_turn (suc fuel) (record w { turn = w.turn + 1 }) >>= λ t. elim t [
      | done r w' ↦ some (r, w')
      | again w' ↦ ssl_loop fuel w'
    ]
  ]

  -- `init_finished` is SSL_is_init_finished.
  unfoldable pub do_ssl : ℕ → Bool → Handshake → World → Option (Bool × World)
  do_ssl fuel init_finished handshake w =
      let connected : World = record w { connection = record w.connection { connected = true } } in
      elim w.connection.connected [
        | true ↦ ssl_loop fuel w
        | false ↦ elim init_finished [
          | true ↦ ssl_loop fuel connected
          | false ↦ elim handshake [
            | finished ↦ ssl_loop fuel connected
            | in_progress ↦ some (true, w)
            | broken ↦ some (false, w)
          ]
        ]
      ]
