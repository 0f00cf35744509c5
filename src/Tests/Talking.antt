-- ===== src/Tests/Talking.antt =====
-- The test client on a connection to a server with two keys, whose answers come late.
use keyless.Prelude.{
  ℕ, zero, suc, ◌+◌, ◌≤◌, ◌<◌, ◌≡◌, refl, arith, Option, none, some, List, [], ◌∷◌, ◌++◌, ◌%◌, Bool,
  true, false, ◌==◌, leb, if◌then◌else◌, length, take, drop, ==_iff,
}
use keyless.Protocol.{Header, no_error, version_maj, ErrorCode}
use keyless.Wire.{parse_header}
use keyless.Wire.Encoding.{encode_header}
use keyless.Message.{Output, zero_operation}
use keyless.Message.RoundTrip.{parse_header-encode}
use keyless.Connection.{ReadResult, got, want_read}
use keyless.Connection.Spec.{IsHeader}
use keyless.Core.{kssl_operate}
use keyless.Client.{Peer, Session, kssl}
use keyless.KeyStore.{KeyStore, KeyStoreLaws}
use keyless.Client.Laws.{Reads, with_left, gives, has_to_wait, ServerAt}
use keyless.Client.Cases.{request, tests_without_key}
use keyless.Client.Passes.{Passes}
use keyless.Client.Sequence.{tests_without_key-Passes}
use keyless.Client.Sends.{CanHead}
use keyless.Client.Pipeline.{kssl_pipeline}
use keyless.Client.Piped.{Piped, kssl_pipeline-Piped}
use keyless.Client.Talk.{Exchanged, kssl-Exchanged}
use keyless.Client.Reaction.{simple, request-CanSend}
use keyless.Keys.{key_size}
use keyless.Protocol.Op
use keyless.Tests.Sample.{toy, two_keys}
use keyless.Tests.Serving.{store_of_two, store_of_two-KeyStoreLaws, ping_header}

module _ (ks : KeyStore) where
  abbrev output_bytes : Option Output → List ℕ
  output_bytes none = []
  output_bytes (some o) = elim o.bytes [ none ↦ [] | some b ↦ b ]

  abbrev answer_to : Header → List ℕ → List ℕ
  answer_to h b =
      if h.version_maj == version_maj
      then output_bytes (kssl_operate ks true true h (some b))
      else []

  abbrev answer_parsed : List ℕ → Option (ErrorCode × Option Header) → List ℕ
  answer_parsed out (some (e, some h)) = answer_to h (drop 8 out)
  answer_parsed out _ = []

  -- Whether the next call has to wait, and the records to read
  abbrev Line : Type 0
  Line = Bool × List (List ℕ)

  abbrev late_write : Line → List ℕ → Option ℕ × Line
  late_write s out = (
    some (length out),
    (true, s.1 ++ answer_parsed out (parse_header (some out) (some ping_header)) ∷ []),
  )

  abbrev late_read : Line → ℕ → ReadResult × Line
  late_read (true, b) n = (want_read, (false, b))
  late_read (false, []) n = (want_read, (false, []))
  late_read (false, b ∷ bs) n = (got (take n b), (false, with_left (drop n b) bs))

  abbrev pub late : Peer
  late = record {
    Ssl = Line;
    write = late_write;
    read = late_read;
    calloc_ok = λ s. true;
    header_ok = λ s. true;
    payload_ok = λ s n. true;
    unset = record { header = ping_header; contents = none };
  }

  abbrev late_delay : Line → ℕ
  late_delay (true, b) = 1
  late_delay (false, b) = 0

  pub late_patient : (s : Line) → late_delay s < 2
  late_patient (true, b) = omega arith
  late_patient (false, b) = omega arith

  pub late_calls :
      (s : Line) (n : ℕ) (first : List ℕ) (rest : List (List ℕ))
      → s.1 ≡ first ∷ rest
      → Reads late (λ s. s.1) late_delay s n first rest
  late_calls (true, b) n first rest e = has_to_wait refl refl (omega arith)
  late_calls (false, []) n first rest e = cc
  late_calls (false, b ∷ bs) n first rest e = gives (cc e) (cc e)

  pub late_answers :
      (s : Line) (h : Header) (b out : List ℕ) (n : ℕ)
      → IsHeader h
      → h.version_maj ≡ version_maj
      → kssl_operate ks true true h (some b)
        ≡ some (record { code = no_error; bytes = some out; len = n })
      → (late_write s (encode_header h ++ b)).1.1 ≡ s.1 ++ out ∷ []
  late_answers s h b out n w v e = rw (
    parse_header-encode h ping_header b w.maj w.min w.len w.num,
    (==_iff h.version_maj version_maj).1 v,
    e,
  )

  abbrev pub late_server :
      KeyStoreLaws ks
      → ((k room : ℕ) → ks.size k ≡ some room → room ≤ 4096)
      → ServerAt late ks true 2
  late_server laws small = record {
    pending = λ s. s.1;
    delay = late_delay;
    patient = late_patient;
    answers = λ s h b out n w v lt l e f. (refl, late_answers s h b out n w v e);
    reads = λ s n first rest e lt le. late_calls s n first rest e;
    calloc_good = λ s. refl;
    header_good = λ s. refl;
    payload_good = λ s n. refl;
    store_laws = laws;
    small = small;
  }

abbrev two : Peer
two = late store_of_two

small_keys : (k room : ℕ) → key_size toy two_keys k ≡ some room → room ≤ 4096
unfolding key_size
small_keys zero room h = let e : 4 ≡ room = cc in omega (arith, e)
small_keys (suc zero) room h = let e : 5 ≡ room = cc in omega (arith, e)
small_keys (suc (suc zero)) room h = cc
small_keys (suc (suc (suc k))) room h = cc

abbrev two_server : ServerAt two store_of_two true 2
two_server = late_server store_of_two store_of_two-KeyStoreLaws small_keys

abbrev at_late : Session two
at_late = record { ssl = (true, []); tests = 0 }

late_head : CanHead ping_header
late_head = record { min = omega arith; num = omega arith }

kssl-Exchanged_example :
    Exchanged two store_of_two true 2 two_server at_late ping_header
      (simple Op.ping [])
      zero_operation
      (kssl two 2 at_late ping_header (request Op.ping))
kssl-Exchanged_example =
    kssl-Exchanged two store_of_two true 2 two_server at_late ping_header (request Op.ping)
      (simple Op.ping []) zero_operation refl refl late_head (request-CanSend Op.ping (omega arith))

tests_without_key-Passes_example :
    Passes two store_of_two true 2 two_server zero_operation at_late 24
      (tests_without_key two 2 zero_operation (λ i. i % 256) (λ i. 3) [] at_late)
tests_without_key-Passes_example =
    tests_without_key-Passes two store_of_two true 2 two_server zero_operation (λ i. i % 256)
      (λ i. 3) [] at_late (λ i. omega arith) refl

-- Two draws for a turn; those of the first are multiples of 300.
abbrev draws : ℕ → ℕ
draws i = if leb i 1 then 600 else 1000 + i

kssl_pipeline-Piped_example :
    Piped two store_of_two true 2 two_server ping_header
      (request Op.ping)
      (simple Op.ping [])
      zero_operation
      refl
      late_head
      (request-CanSend Op.ping (omega arith))
      4
      at_late
      (kssl_pipeline two 2 ping_header (request Op.ping) draws 2 6 0 0 0 at_late)
kssl_pipeline-Piped_example =
    kssl_pipeline-Piped two store_of_two true 2 two_server ping_header (request Op.ping)
      (simple Op.ping []) zero_operation refl late_head (request-CanSend Op.ping (omega arith))
      draws 2 5 at_late (omega arith) refl
