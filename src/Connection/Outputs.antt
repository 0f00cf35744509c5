-- ===== src/Connection/Outputs.antt =====
-- The answers that are made, and the queue behind them.
use keyless.Prelude.{
  ℕ, ◌≤◌, ◌<◌, ◌≡◌, inl, inr, refl, arith, Option, some, List, [], ◌∷◌, ◌++◌, Bool, true, false,
  length, All, Bool-cases,
}
use keyless.Protocol.{Header, ErrorCode, IsByte, no_error, internal, error_byte, >>=-eq-some}
use keyless.KeyStore.{KeyStore, KeyStoreLaws}
use keyless.Message.{
  zero_operation, parse_message_payload, Operation, Output, no_output, flatten_operation,
}
use keyless.Message.Request.{Request, Shows}
use keyless.Message.RoundTrip.{length-body}
use keyless.Core.{kssl_error, kssl_operate, send, reply_to, Reply}
use keyless.Core.Respond.{error_message, kssl_error-message}
use keyless.Core.Serve.{answer_bytes, answer_size, kssl_operate-Served}
use keyless.Queue.{Queue}
use keyless.Queue.Drain.{IsPending}
use keyless.Queue.Enqueue.{queue_write-Pushed}
use keyless.ConnectionState.{Connection, queue_output, queue_error, write_error}
use keyless.Connection.{queue_answer, Surroundings}
use keyless.Connection.Spec.{IsQueue}

-- An output that is made is not empty, and has the length it says; one that is not is KSSL_ERROR_INTERNAL.
pub data IsOutput (out : Output) : Type 0 where
  made :
      (b : List ℕ)
      → out.code ≡ no_error
      → out.bytes ≡ some b
      → out.len ≡ length b
      → 0 < out.len
      → IsOutput out
  unmade : out.code ≡ internal → IsOutput out

pub All-snoc {ℓ κ} :
    {A : Type ℓ} (P : A → Type κ) (xs : List A) (x : A) → All P xs → P x → All P (xs ++ x ∷ [])
All-snoc P [] x h hx = (hx, tt)
All-snoc P (y ∷ ys) x h hx = (h.0, All-snoc P ys x h.1 hx)

-- What queueing leads to.
pub record Queues (r : Option Queue) : Type 0 where
  pub after : Queue
  pub result : r ≡ some after
  pub is_queue : IsQueue after

queue_output-Queues :
    (out : Output) (b : List ℕ) (s : Queue)
    → out.bytes ≡ some b
    → out.len ≡ length b
    → 0 < out.len
    → IsQueue s
    → Queues (queue_output out s)
unfolding queue_output
queue_output-Queues out b s hb hl h0 h =
    let p = queue_write-Pushed s h.items b out.len h.holds in
    record {
      after = p.after;
      result = rw (hb, p.result);
      is_queue = elim (Bool-cases p.queued) [
        | inl y ↦ record {
          items = h.items ++ record { start = b; send = b; len = out.len } ∷ [];
          holds = rw y at p.holds;
          full = All-snoc IsPending h.items _ h.full (h0, hl);
        }
        | inr n ↦ record { items = h.items; holds = rw n at p.holds; full = h.full }
      ];
    }

pub queue_error-Queues :
    (out : Output) (s : Queue) → IsOutput out → IsQueue s → Queues (queue_error out s)
unfolding queue_error
queue_error-Queues out s (made b hc hb hl h0) h =
    rw (hc, queue_error) (queue_output-Queues out b s hb hl h0 h)
queue_error-Queues out s (unmade hc) h =
    rw (hc, queue_error) (record { after = s; result = refl; is_queue = h })

module _ (env : Surroundings) where
  pub queue_answer-Queues :
      (out : Output) (s : Queue) → IsOutput out → IsQueue s → Queues (queue_answer env out s)
  unfolding queue_answer
  queue_answer-Queues out s (made b hc hb hl h0) h =
      rw (hc, queue_answer) (queue_output-Queues out b s hb hl h0 h)
  queue_answer-Queues out s (unmade hc) h =
      rw (hc, queue_answer) (record { after = s; result = refl; is_queue = h })

error_message-length : (id error : ℕ) → length (error_message id error) ≡ 1027
error_message-length id error = refl

pub kssl_error-IsOutput :
    (calloc_ok : Bool) (id error : ℕ)
    → (out : Output) × (kssl_error true calloc_ok id error ≡ some out) × IsOutput out
unfolding kssl_error
kssl_error-IsOutput false id error = (no_output internal, refl, unmade refl)
kssl_error-IsOutput true id error = (
  record { code = no_error; bytes = some (error_message id error); len = 1027 },
  kssl_error-message id error,
  made (error_message id error) refl refl (error_message-length id error) (omega arith),
)

pub write_error-Queues :
    (calloc_ok : Bool) (id : ℕ) (e : ErrorCode) (c : Connection)
    → IsQueue c.queue
    → (s : Queue) × (write_error calloc_ok id e c ≡ some (record c { queue = s })) × IsQueue s
unfolding write_error
write_error-Queues calloc_ok id e c h =
    let (out, r, o) = kssl_error-IsOutput calloc_ok id (error_byte e) in
    let q = queue_error-Queues out c.queue o h in (q.after, rw (r, q.result), q.is_queue)

-- The bytes of an answer are as many as its length says.
pub answer_bytes-length :
    (id : ℕ) (e : ErrorCode) (response : Operation) (shown : Request)
    → Shows response shown
    → (length (answer_bytes id e response shown) ≡ answer_size e response)
      × (0 < answer_size e response)
answer_bytes-length id no_error response shown s =
    (omega (arith, length-body response shown s), omega arith)
answer_bytes-length id e response shown s = (error_message-length id (error_byte e), omega arith)

-- Without memory for the answer nothing is made.
send_no_memory :
    (header : Header) (reply : Reply) → send false header reply ≡ some (no_output internal)
unfolding send kssl_error flatten_operation
send_no_memory header (no_error, response) = refl
send_no_memory header (e, response) = refl

pub kssl_operate-no_memory :
    (ks : KeyStore) (malloc_ok : Bool) (header : Header) (b : List ℕ)
    → KeyStoreLaws ks
    → All IsByte b
    → header.length ≤ length b
    → kssl_operate ks malloc_ok false header (some b) ≡ some (no_output internal)
unfolding kssl_operate
kssl_operate-no_memory ks malloc_ok header b laws w h =
    let s = kssl_operate-Served ks malloc_ok header b laws w h in
    let (parsed, e1, r1) =
      >>=-eq-some (parse_message_payload (some b) header.length (some zero_operation)) _ s.result in
    let (reply, e2, r2) = >>=-eq-some (reply_to ks malloc_ok parsed) _ r1 in
    rw (e1, e2) (send_no_memory header reply)
