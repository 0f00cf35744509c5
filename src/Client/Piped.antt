-- ===== src/Client/Piped.antt =====
-- testclient.c: kssl_pipeline against the server.
use keyless.Prelude.{
  ℕ, zero, suc, ◌+◌, ◌-◌, ◌*◌, ◌≤◌, ◌<◌, ◌≡◌, refl, sym, arith, none, List, [], ◌∷◌, ◌++◌, Bool,
  true, false, ==_iff, ◌||◌, ltb, Bool-cases, inl, inr,
}
use mathlib.Core.Path.{subst}
use keyless.Protocol.{Header, version_maj}
use keyless.KeyStore.{KeyStore}
use keyless.Message.{Operation}
use keyless.Message.Request.{Request}
use keyless.Client.{Outcome, returns, Peer, Session, test_assert, kssl_read, verify_response}
use keyless.Client.Laws.{ServerAt}
use keyless.Client.Exchange.{IsAnswer}
use keyless.Client.Sends.{CanHead, CanSend, kssl_write-HasSent}
use keyless.Client.Talk.{HasReply, read_reply-HasReply}
use keyless.Client.Pipeline.{write_increment, read_increment, write_many, read_many, kssl_pipeline}
use keyless.Client.Gap.{
  InStep, write_increment-InStep, read_increment-InStep, lucky_turns, turn_moves,
}

module _ (p : Peer) (ks : KeyStore) (malloc_ok : Bool) (fuel : ℕ)
    (server : ServerAt p ks malloc_ok fuel) (k : Header) (op : Operation) (r : Request)
    (resp : Operation) (same_version : k.version_maj ≡ version_maj) (head : CanHead k)
    (send : CanSend op r) where
  open server use {pending}

  -- The records of `n` answers to requests with the header `k`.
  data Awaited : ℕ → List (List ℕ) → Type 0 where
    nothing : Awaited 0 []
    answered :
        {n : ℕ} {rest : List (List ℕ)} {seen : Request} (out : List ℕ)
        → IsAnswer k.id resp out seen
        → Awaited n rest
        → Awaited (suc n) (out ∷ rest)

  one_more :
      {n : ℕ} {records : List (List ℕ)} {seen : Request} (out : List ℕ)
      → IsAnswer k.id resp out seen
      → Awaited n records
      → Awaited (suc n) (records ++ out ∷ [])
  one_more out a nothing = answered out a nothing
  one_more out a (answered first b w) = answered first b (one_more out a w)

  -- A run that leaves `n` answers to read, with `more` assertions counted.
  record Leaves (n more : ℕ) (s : Session p) (result : Outcome (Session p)) : Type 0 where
    after : Session p
    ends : result ≡ returns after
    awaited : Awaited n (pending after.ssl)
    tests : after.tests ≡ s.tests + more

  write_many-Leaves :
      (m n : ℕ) (s : Session p)
      → Awaited n (pending s.ssl)
      → Leaves (n + m) 0 s (write_many p fuel k op m s)
  unfolding write_many
  write_many-Leaves zero n s a = record {
    after = s;
    ends = refl;
    awaited = subst (λ i. Awaited i (pending s.ssl)) (omega arith) a;
    tests = omega arith;
  }
  write_many-Leaves (suc m) n s a =
      let (out, served, w) =
        kssl_write-HasSent p ks malloc_ok fuel server s k op r resp same_version head send in
      let a' : Awaited (suc n) (pending w.after.ssl) =
        subst (Awaited (suc n)) (sym w.queued) (one_more out served.answer a) in
      let t = write_many-Leaves m (suc n) w.after a' in
      record {
        after = t.after;
        ends = rw (w.ends, t.ends);
        awaited = subst (λ i. Awaited i (pending t.after.ssl)) (omega arith) t.awaited;
        tests = omega (arith, t.tests, w.tests);
      }

  verify_response_lem :
      (h : Header) (s : Session p)
      → h.id ≡ k.id
      → h.version_maj ≡ version_maj
      → verify_response p k h s ≡ returns (record s { tests = s.tests + 1 + 1 })
  unfolding verify_response test_assert
  verify_response_lem h s e1 e2 =
      rw ((==_iff h.id k.id).1 e1, (==_iff h.version_maj version_maj).1 e2)

  -- The next answer is read.
  next_answer :
      (n : ℕ) (records : List (List ℕ)) (s : Session p)
      → Awaited (suc n) records
      → pending s.ssl ≡ records
      → (seen : Request) × (rest : List (List ℕ)) × Awaited n rest
        × HasReply p ks malloc_ok fuel server s k.id resp seen rest (kssl_read p fuel s k)
  unfolding kssl_read
  next_answer n records s (answered {rest} {seen} out a w) e = (
    seen,
    rest,
    w,
    read_reply-HasReply p ks malloc_ok fuel server none s k resp seen out rest a e,
  )

  read_many-Leaves :
      (m n : ℕ) (s : Session p)
      → Awaited (m + n) (pending s.ssl)
      → Leaves n (2 * m) s (read_many p fuel k op m s)
  unfolding read_many
  read_many-Leaves zero n s a = record {
    after = s;
    ends = refl;
    awaited = subst (λ i. Awaited i (pending s.ssl)) (omega arith) a;
    tests = omega arith;
  }
  read_many-Leaves (suc m) n s a =
      let (seen, rest, w, h) =
        next_answer (m + n) (pending s.ssl) s
          (subst (λ i. Awaited i (pending s.ssl)) (omega arith) a) refl in
      let t =
        read_many-Leaves m n (record h.after { tests = h.after.tests + 1 + 1 })
          (subst (Awaited (m + n)) (sym h.left) w) in
      record {
        after = t.after;
        ends = rw (h.ends, verify_response_lem h.reply.header h.after h.same_id h.maj, t.ends);
        awaited = t.awaited;
        tests = omega (arith, t.tests, h.tests);
      }

  -- What the loop comes to: it returns with nothing left to read.
  pub record Piped (more : ℕ) (s : Session p) (result : Outcome (Session p)) : Type 0 where
    pub after : Session p
    pub ends : result ≡ returns after
    pub left : pending after.ssl ≡ []
    pub tests : after.tests ≡ s.tests + more

  nothing_left : (n : ℕ) (records : List (List ℕ)) → n ≡ 0 → Awaited n records → records ≡ []
  nothing_left n records e nothing = refl
  nothing_left n records e (answered {n = m} out a w) = absurd (omega (arith, e))

  abbrev goes_on : ℕ → ℕ → ℕ → Bool
  goes_on repeat w r = ltb w repeat || ltb r repeat

  loop_done :
      (repeat w r : ℕ) → InStep repeat w r → goes_on repeat w r ≡ false → (w ≡ r) × (r ≡ repeat)
  loop_done repeat w r h n = ground (arith, h.order, h.goal)

  loop_not_done : (repeat w r : ℕ) → InStep repeat w r → goes_on repeat w r ≡ true → r < repeat
  loop_not_done repeat w r h y = ground (arith, h.order)

  returned-Piped :
      (random : ℕ → ℕ) (repeat turns i w_count r_count : ℕ) (s : Session p)
      → InStep repeat w_count r_count
      → Awaited (w_count - r_count) (pending s.ssl)
      → goes_on repeat w_count r_count ≡ false
      → Piped
          (2 * (repeat - r_count))
          s
          (kssl_pipeline p fuel k op random repeat (suc turns) i w_count r_count s)
  unfolding kssl_pipeline
  returned-Piped random repeat turns i w_count r_count s h a n =
      let (e1, e2) = loop_done repeat w_count r_count h n in
      record {
        after = s;
        ends = rw (n, kssl_pipeline) refl;
        left = nothing_left (w_count - r_count) (pending s.ssl) (omega arith) a;
        tests = omega (arith, e2);
      }

  loop-Piped :
      (random : ℕ → ℕ) (repeat turns i w_count r_count : ℕ) (s : Session p)
      → InStep repeat w_count r_count
      → (repeat - w_count) + (repeat - r_count) ≤ lucky_turns random turns i
      → Awaited (w_count - r_count) (pending s.ssl)
      → Piped
          (2 * (repeat - r_count))
          s
          (kssl_pipeline p fuel k op random repeat (suc turns) i w_count r_count s)
  unfolding kssl_pipeline
  loop-Piped random repeat zero i w_count r_count s h le a =
      elim (Bool-cases (goes_on repeat w_count r_count)) [
        | inr n ↦ returned-Piped random repeat zero i w_count r_count s h a n
        | inl y ↦ absurd (omega (arith, le, loop_not_done repeat w_count r_count h y))
      ]
  loop-Piped random repeat (suc turns) i w_count r_count s h le a =
      elim (Bool-cases (goes_on repeat w_count r_count)) [
        | inr n ↦ returned-Piped random repeat (suc turns) i w_count r_count s h a n
        | inl y ↦
            let m : ℕ = write_increment repeat w_count r_count (random i) in
            let n : ℕ = read_increment (w_count + m) r_count (random (i + 1)) in
            let h1 = write_increment-InStep repeat w_count r_count (random i) h in
            let h2 = read_increment-InStep repeat (w_count + m) r_count (random (i + 1)) h1 in
            let a1 = write_many-Leaves m (w_count - r_count) s a in
            let a2 = read_many-Leaves n ((w_count + m) - (r_count + n)) a1.after (
              subst (λ j. Awaited j (pending a1.after.ssl)) (omega (arith, h.order, h2.order))
                a1.awaited) in
            let moves =
              turn_moves random repeat w_count r_count i h
                (loop_not_done repeat w_count r_count h y) in
            let less : (repeat - (w_count + m)) + (repeat - (r_count + n))
                ≤ lucky_turns random turns (i + 2) =
              omega (arith, le, moves, h2.goal, h2.order) in
            let t =
              loop-Piped random repeat turns (i + 2) (w_count + m) (r_count + n) a2.after h2 less
                a2.awaited in
            record {
              after = t.after;
              ends = rw (y, kssl_pipeline, a1.ends, a2.ends, t.ends) refl;
              left = t.left;
              tests = omega (arith, t.tests, a2.tests, a1.tests, h2.order, h2.goal);
            }
      ]

  -- Against a server with any keys that keep their laws, from a connection where nothing is left to
  -- read, with a request that a message of no more than 16384 bytes can carry, in this version:
  -- kssl_pipeline ends, if of its turns twice as many as requests have drawn two numbers that are no multiples of 300. It
  -- has read one answer for each request, both assertions on each held, and nothing is left to read.
  pub kssl_pipeline-Piped :
      (random : ℕ → ℕ) (repeat turns : ℕ) (s : Session p)
      → 2 * repeat ≤ lucky_turns random turns 0
      → pending s.ssl ≡ []
      → Piped (2 * repeat) s (kssl_pipeline p fuel k op random repeat (suc turns) 0 0 0 s)
  kssl_pipeline-Piped random repeat turns s le e =
      subst (λ j. Piped (2 * j) s (kssl_pipeline p fuel k op random repeat (suc turns) 0 0 0 s))
        (omega arith)
        (loop-Piped random repeat turns 0 0 0 s
          (record { order = omega arith; goal = omega arith; gap = omega arith })
          (omega (arith, le)) (subst (Awaited 0) (sym e) nothing))
