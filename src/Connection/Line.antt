-- ===== src/Connection/Line.antt =====
-- What the client of a connection gets: the bytes that SSL_write took, and the buffers behind them.
use keyless.Prelude.{
  ℕ, ◌≤◌, ◌<◌, ◌≡◌, ◌⊎◌, ◌↔◌, inl, inr, refl, sym, arith, Option, none, some, List, [], ◌∷◌, ◌++◌,
  Bool, true, false, length, All, Bool-cases,
}
use native.Mathlib.Decide.{dec_lt}
use keyless.Protocol.{Header, ErrorCode, IsByte, error_byte, no_error, internal}
use keyless.Message.{Output, no_output}
use keyless.Core.{kssl_operate, kssl_error}
use keyless.Core.Respond.{error_message, kssl_error-message}
use keyless.Core.Serve.{Served, answer_bytes, answer_size, kssl_operate-Served}
use keyless.Queue.{Queue, Queued, SslWrite}
use keyless.Queue.Holds.{Holds}
use keyless.Queue.Enqueue.{queue_write-Pushed}
use keyless.Queue.Drain.{IsPending, pending, Blocked}
use keyless.ConnectionState.{Connection, queue_output, queue_error, write_error}
use keyless.Connection.{Surroundings, Message, queue_answer}
use keyless.Connection.Spec.{SurroundingsLaws, IsQueue}
use keyless.Connection.Outputs.{All-snoc, answer_bytes-length, kssl_operate-no_memory}

no_room : (b : Bool) (n : ℕ) → ((b ≡ true) ↔ (n < 15)) → b ≡ false → 15 ≤ n
no_room b n h e = elim (dec_lt n 15) [ yes lt ↦ cc (e, h.1 lt) | no ge ↦ omega (arith, ge) ]

pub record Line : Type 0 where
  pub sent : List ℕ
  pub items : List Queued

abbrev pub line_of : {s : Queue} → List ℕ → IsQueue s → Line
line_of sent q = record { sent = sent; items = q.items }

-- The line with one more buffer of the bytes `b`.
abbrev pub with_buffer : Line → List ℕ → ℕ → Line
with_buffer l b len = record l { items = l.items ++ record { start = b; send = b; len = len } ∷ [] }

-- Some of the bytes are taken. Buffers are left only where SSL_write took nothing in a call.
pub record Writes (ssl : SslWrite) (a b : Line) : Type 0 where
  pub taken : List ℕ
  pub sent : b.sent ≡ a.sent ++ taken
  pub in_order : pending a.items ≡ taken ++ pending b.items
  pub why : (b.items ≡ []) ⊎ Blocked ssl

module _ (env : Surroundings) where
  abbrev pub with_answer :
      (l : Line) (i : ℕ) (m : Message) → Served env.keys (env.output_ok i) m.header m.payload → Line
  with_answer l i m s =
      with_buffer l (answer_bytes m.header.id s.code s.response s.shown)
        (answer_size s.code s.response)

  -- There is no memory for an answer in turn `i`, or no room in the queue.
  abbrev pub NoRoom : ℕ → Line → Type 0
  NoRoom i l = (env.calloc_ok i ≡ false) ⊎ (15 ≤ length l.items)

  -- What messages do to the line. The answer to each is queued, the protocol's answer to it, or it is
  -- lost, for want of memory or behind 15 buffers; then what is queued is written.
  pub data Outputs : Line → List Message → Line → Type 0 where
    nothing : {a : Line} → Outputs a [] a
    replied :
        {a b c : Line} {m : Message} {ms : List Message} (i : ℕ)
        (s : Served env.keys (env.output_ok i) m.header m.payload)
        → env.calloc_ok i ≡ true
        → length a.items < 15
        → Writes (env.write i) (with_answer a i m s) b
        → Outputs b ms c
        → Outputs a (m ∷ ms) c
    lost :
        {a b c : Line} {m : Message} {ms : List Message} (i : ℕ)
        → NoRoom i a
        → Writes (env.write i) a b
        → Outputs b ms c
        → Outputs a (m ∷ ms) c

  pub Outputs-append :
      {a b c : Line} {ms ns : List Message}
      → Outputs a ms b
      → Outputs b ns c
      → Outputs a (ms ++ ns) c
  Outputs-append nothing p = p
  Outputs-append (replied i s m r w o) p = replied i s m r w (Outputs-append o p)
  Outputs-append (lost i r w o) p = lost i r w (Outputs-append o p)

  -- The queue behind the answer to a message, in turn `i`.
  pub record Enqueues (i : ℕ) (m : Message) (s : Queue) (l : Line) : Type 0 where
    pub out : Output
    pub operated :
        kssl_operate env.keys (env.output_ok i) (env.calloc_ok i) m.header (some m.payload)
        ≡ some out
    pub after : Queue
    pub result : queue_answer env out s ≡ some after
    pub items : List Queued
    pub holds : Holds after items
    pub full : All IsPending items
    pub outputs :
        (b : Line) → Writes (env.write i) (record l { items = items }) b → Outputs l (m ∷ []) b

  module _ (laws : SurroundingsLaws env) (i : ℕ) (m : Message) (s : Queue) (l : Line)
      (holds : Holds s l.items) (full : All IsPending l.items) (bytes : All IsByte m.payload)
      (fits : m.header.length ≤ length m.payload) where
    enqueue_made : env.calloc_ok i ≡ true → Enqueues i m s l
    unfolding queue_answer queue_output
    enqueue_made memory =
        let v =
          kssl_operate-Served env.keys (env.output_ok i) m.header m.payload laws.store_laws bytes
            fits in
        let b : List ℕ = answer_bytes m.header.id v.code v.response v.shown in
        let (n, some_bytes) = answer_bytes-length m.header.id v.code v.response v.shown v.shows in
        let len : ℕ = answer_size v.code v.response in
        let out : Output = record { code = no_error; bytes = some b; len = len } in
        let p = queue_write-Pushed s l.items b len holds in
        elim (Bool-cases p.queued) [
          | inl y ↦ record {
            out = out;
            operated = rw memory v.result;
            after = p.after;
            result = rw p.result;
            items = (with_answer l i m v).items;
            holds = rw y at p.holds;
            full = All-snoc IsPending l.items _ full (some_bytes, sym n);
            outputs = λ c w. replied i v memory (p.room.0 y) w nothing;
          }
          | inr x ↦ record {
            out = out;
            operated = rw memory v.result;
            after = p.after;
            result = rw p.result;
            items = l.items;
            holds = rw x at p.holds;
            full = full;
            outputs = λ c w. lost i (inr (no_room p.queued (length l.items) p.room x)) w nothing;
          }
        ]

    enqueue_unmade : env.calloc_ok i ≡ false → Enqueues i m s l
    unfolding queue_answer
    enqueue_unmade memory = record {
      out = no_output internal;
      operated = rw memory (
          kssl_operate-no_memory env.keys (env.output_ok i) m.header m.payload laws.store_laws bytes
            fits);
      after = s;
      result = refl;
      items = l.items;
      holds = holds;
      full = full;
      outputs = λ c w. lost i (inl memory) w nothing;
    }

    pub queue_answer-Enqueues : Enqueues i m s l
    queue_answer-Enqueues = elim (Bool-cases (env.calloc_ok i)) [
      | inl y ↦ enqueue_made y
      | inr n ↦ enqueue_unmade n
    ]

  -- The error that a client is told where a header is not followed.
  pub data Told (h : Header) (e : Option ErrorCode) (a : Line) : Line → Type 0 where
    told :
        (i : ℕ) (code : ErrorCode)
        → e ≡ some code
        → env.calloc_ok i ≡ true
        → length a.items < 15
        → Told h e a (with_buffer a (error_message h.id (error_byte code)) 1027)
    not_told : (i : ℕ) → NoRoom i a → Told h e a a
    nothing_told : e ≡ none → Told h e a a

  pub record ErrorQueued (i : ℕ) (e : ErrorCode) (c : Connection) (l : Line) : Type 0 where
    pub after : Queue
    pub result : write_error (env.calloc_ok i) c.header.id e c ≡ some (record c { queue = after })
    pub items : List Queued
    pub holds : Holds after items
    pub full : All IsPending items
    pub outcome : Told c.header (some e) l (record l { items = items })

  module _ (i : ℕ) (e : ErrorCode) (c : Connection) (l : Line) (holds : Holds c.queue l.items)
      (full : All IsPending l.items) where
    error_made : env.calloc_ok i ≡ true → ErrorQueued i e c l
    unfolding write_error queue_error queue_output
    error_made memory =
        let b : List ℕ = error_message c.header.id (error_byte e) in
        let p = queue_write-Pushed c.queue l.items b 1027 holds in
        let made = kssl_error-message c.header.id (error_byte e) in
        elim (Bool-cases p.queued) [
          | inl y ↦ record {
            after = p.after;
            result = rw (memory, made, p.result);
            items = (with_buffer l b 1027).items;
            holds = rw y at p.holds;
            full = All-snoc IsPending l.items _ full (omega arith, refl);
            outcome = told i e refl memory (p.room.0 y);
          }
          | inr x ↦ record {
            after = p.after;
            result = rw (memory, made, p.result);
            items = l.items;
            holds = rw x at p.holds;
            full = full;
            outcome = not_told i (inr (no_room p.queued (length l.items) p.room x));
          }
        ]

    error_unmade : env.calloc_ok i ≡ false → ErrorQueued i e c l
    unfolding write_error queue_error kssl_error
    error_unmade memory = record {
      after = c.queue;
      result = rw (memory, kssl_error);
      items = l.items;
      holds = holds;
      full = full;
      outcome = not_told i (inl memory);
    }

    pub write_error-Told : ErrorQueued i e c l
    write_error-Told = elim (Bool-cases (env.calloc_ok i)) [
      | inl y ↦ error_made y
      | inr n ↦ error_unmade n
    ]
