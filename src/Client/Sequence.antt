-- ===== src/Client/Sequence.antt =====
-- The test cases up to kssl_op_ping_payload one behind the other on one connection, as the test
-- client's main runs them against the server.
use keyless.Prelude.{ℕ, ◌+◌, ◌≡◌, arith, List, [], Bool}
use keyless.Protocol.{IsByte}
use keyless.KeyStore.{KeyStore}
use keyless.Message.{Operation}
use keyless.Client.{Outcome, ◌>>=◌, Peer, Session}
use keyless.Client.Laws.{ServerAt}
use keyless.Client.Cases.{tests_without_key}
use keyless.Client.Passes.{
  Passes, kssl_bad_opcode-Passes, kssl_op_pong-Passes, kssl_op_error-Passes,
}
use keyless.Client.Pings.{kssl_op_ping_no_payload-Passes, kssl_op_ping_payload-Passes}

module _ (p : Peer) (ks : KeyStore) (malloc_ok : Bool) (fuel : ℕ)
    (server : ServerAt p ks malloc_ok fuel) (resp : Operation) where
  open server use {pending}

  -- A test case, and then another
  pub both :
      {s : Session p} {m n : ℕ} {result : Outcome (Session p)} {f : Session p → Outcome (Session p)}
      → Passes p ks malloc_ok fuel server resp s m result
      → ((t : Session p) → pending t.ssl ≡ [] → Passes p ks malloc_ok fuel server resp t n (f t))
      → Passes p ks malloc_ok fuel server resp s (m + n) (result >>= f)
  both {s} {m} {n} {result} {f} a g =
      let b = g a.after a.left in
      record {
        after = b.after;
        ends = rw (a.ends, b.ends);
        left = b.left;
        tests = omega (arith, a.tests, b.tests);
      }

  -- Against a server with any keys that keep their laws, from a connection where nothing is left to
  -- read, and whatever the variables hold that the client does not set: the first five test
  -- cases all return. None of them exits or reads outside a buffer, 24 assertions hold, and
  -- nothing is left to read.
  pub tests_without_key-Passes :
      (min len : ℕ → ℕ) (memory : List ℕ) (s : Session p)
      → ((i : ℕ) → IsByte (min i))
      → pending s.ssl ≡ []
      → Passes p ks malloc_ok fuel server resp s 24 (tests_without_key p fuel resp min len memory s)
  unfolding tests_without_key
  tests_without_key-Passes min len memory s b e =
      both (kssl_bad_opcode-Passes p ks malloc_ok fuel server resp s e) (λ s e.
        both (kssl_op_pong-Passes p ks malloc_ok fuel server resp (len 1) s e) (λ s e.
          both (kssl_op_error-Passes p ks malloc_ok fuel server resp (min 2) (len 2) s (b 2) e)
            (λ s e.
              both
                (kssl_op_ping_no_payload-Passes p ks malloc_ok fuel server resp (min 3) (len 3) s
                  (b 3) e)
                (λ s e.
                  kssl_op_ping_payload-Passes p ks malloc_ok fuel server resp (min 4) (len 4) memory
                    s (b 4) e))))
