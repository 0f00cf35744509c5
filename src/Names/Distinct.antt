-- ===== src/Names/Distinct.antt =====
-- Which opcodes have a name, and that the names tell opcodes and errors apart.
use text.Mathlib.Text.{◌==◌ as str_eq}
use text.Mathlib.TextEquality.{eq_iff}
use keyless.Prelude.{
  ℕ, ◌<◌, ◌≡◌, ◌↔◌, refl, arith, Bool, true, false, not, ◌||◌, ◌==◌, ==_iff, if◌then◌else◌,
}
use keyless.Prelude.Bits.{every, every_lem}
use keyless.Protocol.{IsByte, ErrorCode, error_byte}
use keyless.Protocol.Op
use keyless.Core.{is_reply, is_key_operation}
use keyless.Names.{opstring, errstring}

-- The opcodes that kssl_operate has a case for.
abbrev pub has_case : ℕ → Bool
has_case op = is_reply op || (op == Op.ping || is_key_operation op)

abbrev named_test : ℕ → Bool
named_test op = if str_eq (opstring op) "UNKNOWN" then not (has_case op) else has_case op

named_table : every named_test 256 ≡ true
unfolding every opstring is_reply is_key_operation
named_table = refl

agree : (u k : Bool) → (if u then not k else k) ≡ true → (u ≡ true) ↔ (k ≡ false)
agree u k h = ground arith

-- Of the bytes, opstring calls just those UNKNOWN that kssl_operate has no case for.
pub opstring-has_case : (op : ℕ) → IsByte op → (opstring op ≡ "UNKNOWN") ↔ (has_case op ≡ false)
opstring-has_case op h =
    let t : named_test op ≡ true = every_lem named_test 256 op h named_table in
    let q = eq_iff (opstring op) "UNKNOWN" in
    let r = agree (str_eq (opstring op) "UNKNOWN") (has_case op) t in
    ((λ e. r.0 (q.1 e)), λ e. q.0 (r.1 e))

abbrev apart_test : ℕ → ℕ → Bool
apart_test a b =
    if str_eq (opstring a) (opstring b) then (if a == b then true else not (has_case a)) else true

apart_table : every (λ a. every (apart_test a) 256) 256 ≡ true
unfolding every opstring is_reply is_key_operation
apart_table = refl

same_or_unknown :
    (s e k : Bool)
    → (if s then (if e then true else not k) else true) ≡ true
    → s ≡ true
    → k ≡ true
    → e ≡ true
same_or_unknown s e k h hs hk = ground arith

-- opstring gives no name to two of the opcodes that kssl_operate has a case for.
pub opstring-injective :
    (a b : ℕ) → IsByte a → IsByte b → has_case a ≡ true → opstring a ≡ opstring b → a ≡ b
opstring-injective a b ha hb known same =
    let t : apart_test a b ≡ true =
      every_lem (apart_test a) 256 b hb
        (every_lem (λ x. every (apart_test x) 256) 256 a ha apart_table) in
    (==_iff a b).0 (
      same_or_unknown (str_eq (opstring a) (opstring b)) (a == b) (has_case a) t
        ((eq_iff (opstring a) (opstring b)).1 same) known)

abbrev error_test : ℕ → ℕ → Bool
error_test a b =
    if str_eq (errstring a) (errstring b) then (if a == b then true else not true) else true

error_table : every (λ a. every (error_test a) 9) 9 ≡ true
unfolding every errstring
error_table = refl

error_byte-bound : (e : ErrorCode) → error_byte e < 9
unfolding error_byte
error_byte-bound e = ground arith

error_byte-injective : (e f : ErrorCode) → error_byte e ≡ error_byte f → e ≡ f
unfolding error_byte
error_byte-injective e f h = ground arith

-- errstring gives no name to two error codes.
pub errstring-error_byte :
    (e f : ErrorCode) → errstring (error_byte e) ≡ errstring (error_byte f) → e ≡ f
errstring-error_byte e f same =
    let a : ℕ = error_byte e in
    let b : ℕ = error_byte f in
    let t : error_test a b ≡ true =
      every_lem (error_test a) 9 b (error_byte-bound f)
        (every_lem (λ x. every (error_test x) 9) 9 a (error_byte-bound e) error_table) in
    error_byte-injective e f (
      (==_iff a b).0 (
        same_or_unknown (str_eq (errstring a) (errstring b)) (a == b) true t
          ((eq_iff (errstring a) (errstring b)).1 same) refl))
