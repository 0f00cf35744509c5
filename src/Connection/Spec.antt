-- ===== src/Connection/Spec.antt =====
-- The stream of bytes that a client sends, as messages, and the states of a connection that reads it.
use keyless.Prelude.{
  ℕ, ◌+◌, ◌≤◌, ◌<◌, ◌≡◌, some, List, [], ◌∷◌, ◌++◌, Bool, true, false, length, take, All,
}
use keyless.Protocol.{Header, IsByte, IsWord, IsDword, version_maj, header_size}
use keyless.Wire.Encoding.{encode_header}
use keyless.KeyStore.{KeyStoreLaws}
use keyless.Queue.{Queue, Queued}
use keyless.Queue.Holds.{Holds}
use keyless.Queue.Drain.{TakesSome, IsPending}
use keyless.ConnectionState.{Connection, in_header, in_payload, get_header, get_payload}
use keyless.Connection.{ReadResult, got, Surroundings, Message}

abbrev pub is_got : ReadResult → Bool
is_got (got b) = true
is_got _ = false

-- What do_ssl relies on. There is a stream of bytes that the client has sent and SSL_read has not
-- given yet: a call that succeeds gives its first bytes, at least one and no more than asked for,
-- and any other call leaves it. SSL_write takes some bytes where it succeeds, malloc gives as many
-- bytes as asked for, and the keys keep their laws.
pub record SurroundingsLaws (env : Surroundings) : Type 0 where
  pub unread : env.Ssl → List ℕ
  pub bytes : (s : env.Ssl) → All IsByte (unread s)
  pub reads :
      (s : env.Ssl) (n : ℕ) (b : List ℕ)
      → 0 < n
      → (env.read s n).0 ≡ got b
      → (0 < length b) × (length b ≤ n) × (unread s ≡ b ++ unread (env.read s n).1)
  pub waits :
      (s : env.Ssl) (n : ℕ) → is_got (env.read s n).0 ≡ false → unread (env.read s n).1 ≡ unread s
  pub writes : (i : ℕ) → TakesSome (env.write i)
  pub allocates : (i n : ℕ) (p : List ℕ) → env.malloc i n ≡ some p → length p ≡ n
  pub store_laws : KeyStoreLaws env.keys

-- The queue holds buffers that are not empty.
pub record IsQueue (s : Queue) : Type 0 where
  pub items : List Queued
  pub holds : Holds s items
  pub full : All IsPending items

-- The fields of a header fit.
pub record IsHeader (h : Header) : Type 0 where
  pub maj : IsByte h.version_maj
  pub min : IsByte h.version_min
  pub len : IsWord h.length
  pub num : IsDword h.id

-- `read` are the first bytes of a header, and `need` more are to come.
pub record InHeader (c : Connection) (read : List ℕ) : Type 0 where
  pub phase : c.phase ≡ get_header
  pub start : c.start ≡ in_header
  pub place : c.place ≡ in_header
  pub sized : length c.wire_header ≡ header_size
  pub offset : c.offset ≡ length read
  pub written : take c.offset c.wire_header ≡ read
  pub need : c.offset + c.need ≡ header_size
  pub bytes : All IsByte read

-- `read` are the first bytes of the payload that the header announces.
pub record InPayload (c : Connection) (read : List ℕ) : Type 0 where
  pub phase : c.phase ≡ get_payload
  pub start : c.start ≡ in_payload
  pub place : c.place ≡ in_payload
  pub sized : length c.wire_header ≡ header_size
  pub memory : List ℕ
  pub is : c.payload ≡ some memory
  pub room : length memory ≡ c.header.length
  pub offset : c.offset ≡ length read
  pub written : take c.offset memory ≡ read
  pub need : c.offset + c.need ≡ c.header.length
  pub bytes : All IsByte read
  pub fits : IsHeader c.header
  pub version : c.header.version_maj ≡ version_maj
  pub some_length : 0 < c.header.length

-- The bytes of the message that is being read.
pub data Reading (c : Connection) : List ℕ → Type 0 where
  reading_header : {read : List ℕ} → InHeader c read → Reading c read
  reading_payload : {read : List ℕ} → InPayload c read → Reading c (encode_header c.header ++ read)

-- A connection between two turns of the loop.
pub record IsReady (c : Connection) (part : List ℕ) : Type 0 where
  pub queue : IsQueue c.queue
  pub reading : Reading c part
  pub more : 0 < c.need

-- What is being read does not stand on the queue.
pub Reading-others :
    (c : Connection) (q : Queue) (b : Bool) (part : List ℕ)
    → Reading c part
    → Reading (record c { queue = q; connected = b }) part
Reading-others c q b part (reading_header i) = reading_header (record {
  phase = i.phase;
  start = i.start;
  place = i.place;
  sized = i.sized;
  offset = i.offset;
  written = i.written;
  need = i.need;
  bytes = i.bytes;
})
Reading-others c q b part (reading_payload i) = reading_payload (record {
  phase = i.phase;
  start = i.start;
  place = i.place;
  sized = i.sized;
  memory = i.memory;
  is = i.is;
  room = i.room;
  offset = i.offset;
  written = i.written;
  need = i.need;
  bytes = i.bytes;
  fits = i.fits;
  version = i.version;
  some_length = i.some_length;
})

pub IsReady-others :
    (c : Connection) (q : Queue) (b : Bool) (part : List ℕ)
    → IsQueue q
    → IsReady c part
    → IsReady (record c { queue = q; connected = b }) part
IsReady-others c q b part h r = record {
  queue = h;
  reading = Reading-others c q b part r.reading;
  more = r.more;
}

-- A message of the protocol's version, with a payload of the length that its header gives.
pub record IsMessage (m : Message) : Type 0 where
  pub version : m.header.version_maj ≡ version_maj
  pub some_length : 0 < m.header.length
  pub whole : length m.payload ≡ m.header.length

-- The bytes of messages as they are sent.
abbrev pub wire : List Message → List ℕ
wire [] = []
wire (m ∷ ms) = (encode_header m.header ++ m.payload) ++ wire ms
