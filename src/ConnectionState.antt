-- ===== src/ConnectionState.antt =====
-- kssl_thread.c: the state of a connection, and the small functions on it.
use keyless.Prelude.{ℕ, ◌-◌, Option, none, some, List, Bool, true, false, length}
use keyless.Protocol.{Pointer, Header, ErrorCode, internal, error_byte, header_size, ◌>>=◌}
use keyless.Wire.{store}
use keyless.Message.{Output}
use keyless.Core.{kssl_error}
use keyless.Queue.{Queue, queue_write}

-- The CONNECTION_STATE_* values
pub data Phase : Type 0 where
  new_connection get_header get_payload terminating : Phase

-- What `current` points into: nothing, the field wire_header, or the memory at `payload`.
pub data Place : Type 0 where
  nowhere in_header in_payload : Place

-- The fields of a connection_state for reading and answering. `current` is a place and an offset;
-- `start` is the same place, and is `nowhere` where it is 0.
pub record Connection : Type 0 where
  pub start : Place
  pub place : Place
  pub offset : ℕ
  pub need : ℕ
  pub phase : Phase
  pub wire_header : List ℕ
  pub header : Header
  pub payload : Pointer
  pub queue : Queue
  pub connected : Bool

abbrev zero_header : Header
zero_header = record { version_maj = 0; version_min = 0; length = 0; id = 0 }

unfoldable pub set_get_header_state : Connection → Connection
set_get_header_state c = record c {
  start = in_header;
  place = in_header;
  offset = 0;
  need = header_size;
  phase = get_header;
  payload = none;
  header = zero_header;
}

-- The argument is what malloc gives; the Boolean is the return value.
unfoldable pub set_get_payload_state : Pointer → ℕ → Connection → Bool × Connection
set_get_payload_state none size c = (false, record c { payload = none })
set_get_payload_state (some memory) size c = (
  true,
  record c {
    payload = some memory;
    start = in_payload;
    place = in_payload;
    offset = 0;
    need = size;
    phase = get_payload;
  },
)

unfoldable pub free_read_state : Connection → Connection
free_read_state c = record c { start = nowhere; place = nowhere; offset = 0; payload = none }

-- queue_write of a message that was made; a buffer that is NULL is a fault.
unfoldable pub queue_output : Output → Queue → Option Queue
queue_output out s = do b ← out.bytes; (queued, s') ← queue_write s b out.len; some s'

-- The call of queue_write in write_error: only KSSL_ERROR_INTERNAL is a failure.
unfoldable pub queue_error : Output → Queue → Option Queue
unfolding queue_output
queue_error out s = elim out.code [ internal ↦ some s | _ ↦ queue_output out s ]

unfoldable pub write_error : Bool → ℕ → ErrorCode → Connection → Option Connection
unfolding queue_error
write_error calloc_ok id e c = do
  out ← kssl_error true calloc_ok id (error_byte e)
  s ← queue_error out c.queue
  some (record c { queue = s })

-- The bytes that SSL_read puts at `current`, and the two fields that follow them.
unfoldable pub receive : Connection → List ℕ → Option Connection
receive c b = elim c.place [
  | nowhere ↦ none
  | in_header ↦ do
    (w, o) ← store c.wire_header c.offset b
    some (record c { wire_header = w; offset = o; need = c.need - length b })
  | in_payload ↦ do
    p ← c.payload
    (p', o) ← store p c.offset b
    some (record c { payload = some p'; offset = o; need = c.need - length b })
]

-- The message at `start`, which is NULL or one of the two buffers.
unfoldable pub at_start : Connection → Pointer
at_start c = elim c.start [
  | nowhere ↦ none
  | in_header ↦ some c.wire_header
  | in_payload ↦ c.payload
]

abbrev pub reset : Connection → Connection
reset c = set_get_header_state (free_read_state c)
