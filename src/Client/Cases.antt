-- ===== src/Client/Cases.antt =====
-- testclient.c: the test cases without a key. A message that is printed is left out.
use keyless.Prelude.{
  ℕ, zero, suc, Option, none, some, List, [], ◌∷◌, ◌++◌, Bool, true, false, ◌==◌, if◌then◌else◌,
  length, get_elem?, drop, ◌+◌,
}
use keyless.Protocol.{
  Pointer, Header, ErrorCode, error_byte, bad_opcode, unexpected_opcode, version_mismatch,
  version_maj, version_min,
}
use keyless.Protocol.Op
use keyless.Message.{Operation, zero_operation, parse_message_payload}
use keyless.Client.{
  Outcome, returns, faults, ◌>>=◌, Peer, Session, ReturnedHeader, fault_if_none, test_assert, kssl,
}

-- What parse_message_payload leaves in `resp`: the code that it returns is not looked at.
unfoldable pub parsed_resp : Option (ErrorCode × Option Operation) → Outcome Operation
parsed_resp (some (e, some resp)) = returns resp
parsed_resp _ = faults

-- strncmp of `n` bytes, and whether it gives 0; `none` where it reads outside a string
unfoldable pub strncmp_equal : ℕ → List ℕ → List ℕ → Option Bool
strncmp_equal zero a b = some true
strncmp_equal (suc n) (x ∷ a) (y ∷ b) =
    let rest = strncmp_equal n a b in
    if x == y then if x == 0 then some true else rest else some false
strncmp_equal (suc n) a b = none

unfoldable pub pointers_equal : ℕ → Pointer → Pointer → Option Bool
pointers_equal n (some a) (some b) = strncmp_equal n a b
pointers_equal n a b = none

abbrev pub first_byte : Pointer → Option ℕ
first_byte none = none
first_byte (some b) = get_elem? b 0

-- "Hello, World!"
abbrev pub hello : List ℕ
hello = 72 ∷ 101 ∷ 108 ∷ 108 ∷ 111 ∷ 44 ∷ 32 ∷ 87 ∷ 111 ∷ 114 ∷ 108 ∷ 100 ∷ 33 ∷ []

-- A request with an opcode and the payload that is there
abbrev pub request : ℕ → Operation
request opcode = record zero_operation {
  is_opcode_set = true;
  is_payload_set = true;
  opcode = opcode;
}

abbrev pub with_version : ℕ → ℕ → ℕ → ℕ → Header
with_version maj min len id = record { version_maj = maj; version_min = min; length = len; id = id }

-- The assertions on a header, that all the tests have
unfoldable pub same_id : (p : Peer) → Header → ReturnedHeader → Session p → Outcome (Session p)
unfolding test_assert
same_id p k h s = do
  s ← test_assert p (h.header.id == k.id) s
  test_assert p (h.header.version_maj == version_maj) s

-- The assertions on a response that is an error
unfoldable pub is_error :
    (p : Peer) → Operation → ErrorCode → ReturnedHeader → Session p → Outcome (Session p)
unfolding parsed_resp test_assert
is_error p resp e h s = do
  resp ← parsed_resp (parse_message_payload h.contents h.header.length (some resp))
  s ← test_assert p (resp.opcode == Op.op_error) s
  s ← test_assert p (resp.payload_len == 1) s
  b ← fault_if_none (first_byte resp.payload)
  test_assert p (b == error_byte e) s

-- `resp` is what a test's variable for the response holds before. `min` and `len` stand for the
-- fields of a header that a test does not set.
module _ (p : Peer) (fuel : ℕ) (resp : Operation) where
  unfoldable pub kssl_bad_opcode : Session p → Outcome (Session p)
  kssl_bad_opcode s = do
    let bad : Header = with_version version_maj version_min 0 0x12345678
    (h, s) ← kssl p fuel s bad (request 0xBB)
    s ← same_id p bad h s
    is_error p resp bad_opcode h s

  unfoldable pub kssl_op_pong : ℕ → Session p → Outcome (Session p)
  kssl_op_pong len s = do
    let echo0 : Header = with_version version_maj version_min len 0x12345678
    (h, s) ← kssl p fuel s echo0 (request Op.pong)
    s ← same_id p echo0 h s
    is_error p resp unexpected_opcode h s

  unfoldable pub kssl_op_error : ℕ → ℕ → Session p → Outcome (Session p)
  kssl_op_error min len s = do
    let echo0 : Header = with_version version_maj min len 0x12345678
    (h, s) ← kssl p fuel s echo0 (request Op.op_error)
    s ← same_id p echo0 h s
    is_error p resp unexpected_opcode h s

  unfoldable pub kssl_op_ping_no_payload : ℕ → ℕ → Session p → Outcome (Session p)
  unfolding parsed_resp test_assert
  kssl_op_ping_no_payload min len s = do
    let echo0 : Header = with_version version_maj min len 0x12345678
    (h, s) ← kssl p fuel s echo0 (request Op.ping)
    s ← same_id p echo0 h s
    resp ← parsed_resp (parse_message_payload h.contents h.header.length (some resp))
    s ← test_assert p (resp.opcode == Op.pong) s
    test_assert p (resp.payload_len == 0) s

  -- The payload is what malloc gave for it, `memory`, with "Hello, World!" copied over its start.
  unfoldable pub kssl_op_ping_payload : ℕ → ℕ → List ℕ → Session p → Outcome (Session p)
  unfolding parsed_resp test_assert
  kssl_op_ping_payload min len memory s = do
    let echo1 : Header = with_version version_maj min len 0x12345679
    let req : Operation = record (request Op.ping) {
      payload_len = length hello;
      payload = some (hello ++ drop (length hello) memory);
    }
    (h, s) ← kssl p fuel s echo1 req
    s ← same_id p echo1 h s
    resp ← parsed_resp (parse_message_payload h.contents h.header.length (some resp))
    s ← test_assert p (resp.opcode == Op.pong) s
    s ← test_assert p (resp.payload_len == req.payload_len) s
    equal ← fault_if_none (pointers_equal (length hello) resp.payload req.payload)
    test_assert p equal s

  unfoldable pub kssl_op_ping_bad_version : ℕ → ℕ → Session p → Outcome (Session p)
  unfolding test_assert
  kssl_op_ping_bad_version min len s = do
    let echo0 : Header = with_version (version_maj + 1) min len 0x12345678
    (h, s) ← kssl p fuel s echo0 (request Op.ping)
    s ← test_assert p (h.header.version_maj == version_maj) s
    s ← test_assert p (h.header.id == echo0.id) s
    is_error p resp version_mismatch h s

  -- The first five test cases that main runs on one connection
  unfoldable pub tests_without_key : (ℕ → ℕ) → (ℕ → ℕ) → List ℕ → Session p → Outcome (Session p)
  tests_without_key min len memory s = do
    s ← kssl_bad_opcode s
    s ← kssl_op_pong (len 1) s
    s ← kssl_op_error (min 2) (len 2) s
    s ← kssl_op_ping_no_payload (min 3) (len 3) s
    kssl_op_ping_payload (min 4) (len 4) memory s
