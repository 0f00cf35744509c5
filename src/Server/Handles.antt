-- ===== src/Server/Handles.antt =====
-- keyless.c: the IPC server that hands the listen handle to the worker threads, and its counter.
use keyless.Prelude.{
  ℕ, zero, suc, ◌+◌, ◌<◌, ◌≡◌, List, [], ◌∷◌, Bool, true, false, length, if◌then◌else◌,
}
use keyless.Server.Options.{ℤ, pos, negsuc}

-- How far ipc_connection_cb comes with a thread: uv_pipe_init, uv_accept or uv_write2 fails, or none.
pub data Handing : Type 0 where
  no_pipe no_accept no_write written : Handing

-- `connects`, and how often the handle was written and uv_close was called for the pipe.
pub record IpcServer : Type 0 where
  pub connects : ℤ
  pub handles : ℕ
  pub closes : ℕ

unfoldable pub decrement : ℤ → ℤ
decrement (pos zero) = negsuc 0
decrement (pos (suc n)) = pos n
decrement (negsuc n) = negsuc (suc n)

abbrev pub is_zero : ℤ → Bool
is_zero (pos zero) = true
is_zero (pos (suc n)) = false
is_zero (negsuc n) = false

-- The calls for one thread
unfoldable pub hand_over : Handing → ℕ → ℕ
hand_over no_pipe n = n
hand_over no_accept n = n
hand_over no_write n = n
hand_over written n = n + 1

-- The counter goes down whether the thread got the handle or not.
unfoldable pub ipc_connection_cb : Handing → IpcServer → IpcServer
unfolding decrement hand_over
ipc_connection_cb h server = record {
  connects = decrement server.connects;
  handles = hand_over h server.handles;
  closes = if is_zero (decrement server.connects) then server.closes + 1 else server.closes;
}

-- The server after the threads have connected, one after another.
unfoldable pub connect_all : List Handing → IpcServer → IpcServer
unfolding ipc_connection_cb
connect_all [] server = server
connect_all (h ∷ hs) server = connect_all hs (ipc_connection_cb h server)

abbrev pub written_in : List Handing → ℕ
written_in [] = 0
written_in (h ∷ hs) = hand_over h (written_in hs)

-- The server for `n` threads after as many connections as `hs` has.
pub record Counted (n : ℕ) (hs : List Handing) (server : IpcServer) : Type 0 where
  pub connects : (k : ℕ) → length hs + k ≡ n → server.connects ≡ pos k
  pub handles : server.handles ≡ written_in hs
  pub open_until : length hs < n → server.closes ≡ 0
  pub closed_once : length hs ≡ n → server.closes ≡ 1
