-- ===== src/Client/Pings.antt =====
-- testclient.c: the test cases that send a ping, run against the server.
use keyless.Prelude.{
  ℕ, ◌+◌, ◌≡◌, refl, sym, ap, ◌∙◌, arith, none, some, List, [], ◌∷◌, ◌++◌, Bool, true, ==_iff,
  length, take, drop, take-append, length-append,
}
use mathlib.Core.Path.{subst}
use keyless.Protocol.{Pointer, Header, no_error, IsByte, version_maj}
use keyless.Protocol.Op
use keyless.Wire.{load}
use keyless.Wire.Encoding.{length-load, load-length}
use keyless.KeyStore.{KeyStore}
use keyless.Message.{Operation, items_size, padding_size}
use keyless.Protocol.Codes.{has_code}
use keyless.Core.Reacts.{load-inverse}
use keyless.Client.{Outcome, Peer, Session, ReturnedHeader, test_assert}
use keyless.Client.Laws.{ServerAt}
use keyless.Client.Cases.{
  parsed_resp, request, strncmp_equal, pointers_equal, hello, with_version, kssl_op_ping_no_payload,
  kssl_op_ping_payload,
}
use keyless.Client.Exchange.{opcode-Shows}
use keyless.Client.Sends.{CanSend}
use keyless.Client.Talk.{HasReply, Exchanged, kssl-Exchanged}
use keyless.Client.Reaction.{simple, only_pong}
use keyless.Client.Passes.{payload-Shows, Passes, same_id_lem, exchange, opcode_of, with_code}

strncmp_equal_lem :
    (d a b : List ℕ)
    → take (length d) a ≡ d
    → take (length d) b ≡ d
    → strncmp_equal (length d) a b ≡ some true
unfolding strncmp_equal
strncmp_equal_lem [] a b h1 h2 = refl
strncmp_equal_lem (x ∷ d) [] b h1 h2 = cc
strncmp_equal_lem (x ∷ d) (y ∷ a) [] h1 h2 = cc
strncmp_equal_lem (x ∷ d) (y ∷ a) (z ∷ b) h1 h2 =
    let h1' : take (length d) a ≡ d = cc in
    let h2' : take (length d) b ≡ d = cc in
    let ih = strncmp_equal_lem d a b h1' h2' in
    let e : y ≡ z = cc in rw ((==_iff y z).1 e, ih) (ground arith)

load-hello : (m : List ℕ) → load (some (hello ++ m)) (length hello) ≡ some hello
load-hello m =
    load-length (hello ++ m) (length hello) (omega (arith, length-append hello m))
    ∙ ap some (take-append hello m)

pub compares :
    (d : List ℕ) (q : Pointer) (m : List ℕ)
    → load q (length d) ≡ some d
    → pointers_equal (length d) q (some (d ++ m)) ≡ some true
unfolding pointers_equal load
compares d none m h = cc
compares d (some q) m h =
    strncmp_equal_lem d q (d ++ m) (load-inverse q (length d) d h).1 (take-append d m)

hello-CanSend :
    (m : List ℕ)
    → CanSend
        (record (request Op.ping) { payload_len = length hello; payload = some (hello ++ m) })
        (simple Op.ping hello)
unfolding items_size padding_size
hello-CanSend m = record {
  alike = record (request Op.ping) { payload_len = length hello; payload = some (hello ++ m) };
  same = λ h. refl;
  shows = record {
    opcode = refl;
    payload = rw (load-hello m) refl;
    ski = refl;
    digest = refl;
    client_ip = refl;
  };
  opcode = omega arith;
  bytes = record { payload = omega arith; ski = tt; digest = tt; client_ip = tt };
  complete = refl;
  fits = omega arith;
}

module _ (p : Peer) (ks : KeyStore) (malloc_ok : Bool) (fuel : ℕ)
    (server : ServerAt p ks malloc_ok fuel) (resp : Operation) where
  open server use {pending}

  -- A ping gets its payload back.
  pong_reply :
      {s : Session p} {k : Header} {d : List ℕ} {result : Outcome (ReturnedHeader × Session p)}
      (x : Exchanged p ks malloc_ok fuel server s k (simple Op.ping d) resp result)
      → HasReply p ks malloc_ok fuel server s k.id resp (simple Op.pong d) [] result
  unfolding has_code
  pong_reply {s} {k} {d} {result} x =
      let o = opcode_of p ks malloc_ok fuel server resp x in
      let (c, w) = only_pong x.reacts (rw o refl) (rw o refl) o in
      subst (λ r. HasReply p ks malloc_ok fuel server s k.id resp r [] result) w
        (with_code p ks malloc_ok fuel server resp x no_error c)

  -- kssl_op_ping_no_payload returns, and its four assertions hold.
  pub kssl_op_ping_no_payload-Passes :
      (min len : ℕ) (s : Session p)
      → IsByte min
      → pending s.ssl ≡ []
      → Passes p ks malloc_ok fuel server resp s 4 (kssl_op_ping_no_payload p fuel resp min len s)
  unfolding kssl_op_ping_no_payload parsed_resp test_assert
  kssl_op_ping_no_payload-Passes min len s b e =
      let k = with_version version_maj min len 0x12345678 in
      let r = pong_reply (
        exchange p ks malloc_ok fuel server resp s k Op.ping e refl
          (record { min = b; num = omega arith }) (omega arith)) in
      let l = payload-Shows r.operation _ [] r.shows refl in
      let n = length-load r.operation.payload r.operation.payload_len [] l in
      record {
        after = record r.after { tests = r.after.tests + 1 + 1 + 1 + 1 };
        ends = rw (
          r.ends,
          same_id_lem p ks malloc_ok fuel server resp k r.reply r.after r.same_id r.maj,
          r.parses,
          (==_iff r.operation.opcode Op.pong).1 (opcode-Shows r.operation _ Op.pong r.shows refl),
          (==_iff r.operation.payload_len 0).1 (sym n),
        );
        left = r.left;
        tests = omega (arith, r.tests);
      }

  -- kssl_op_ping_payload returns, and its five assertions hold.
  pub kssl_op_ping_payload-Passes :
      (min len : ℕ) (memory : List ℕ) (s : Session p)
      → IsByte min
      → pending s.ssl ≡ []
      → Passes p ks malloc_ok fuel server resp s 5
          (kssl_op_ping_payload p fuel resp min len memory s)
  unfolding kssl_op_ping_payload parsed_resp test_assert
  kssl_op_ping_payload-Passes min len memory s b e =
      let k = with_version version_maj min len 0x12345679 in
      let m : List ℕ = drop (length hello) memory in
      let r = pong_reply (
        kssl-Exchanged p ks malloc_ok fuel server s k
          (record (request Op.ping) { payload_len = length hello; payload = some (hello ++ m) })
          (simple Op.ping hello) resp e refl (record { min = b; num = omega arith })
          (hello-CanSend m)) in
      let l = payload-Shows r.operation _ hello r.shows refl in
      let n = length-load r.operation.payload r.operation.payload_len hello l in
      record {
        after = record r.after { tests = r.after.tests + 1 + 1 + 1 + 1 + 1 };
        ends = rw (
          r.ends,
          same_id_lem p ks malloc_ok fuel server resp k r.reply r.after r.same_id r.maj,
          r.parses,
          (==_iff r.operation.opcode Op.pong).1 (opcode-Shows r.operation _ Op.pong r.shows refl),
          (==_iff r.operation.payload_len (length hello)).1 (sym n),
          compares hello r.operation.payload m (rw (← n) at l),
        );
        left = r.left;
        tests = omega (arith, r.tests);
      }
