-- ===== src/Message/Parse.antt =====
-- parse_message_payload against the lists of items that a payload encodes.
use keyless.Prelude.{
  ℕ, zero, suc, ◌+◌, ◌-◌, ◌*◌, ◌/◌, ◌%◌, ◌≤◌, ◌<◌, ◌≡◌, refl, ◌∙◌, arith, Option, none, some, List,
  [], ◌∷◌, ◌++◌, append_assoc, length, drop, All, Bool, true, false, if◌then◌else◌, length-append,
  drop-drop, drop-append, lt→ltb, le→ltb, Option-cases, inl, inr,
}
use keyless.Protocol.{Pointer, ErrorCode, no_error, format, ◌>>=◌}
use keyless.Wire.{load}
use keyless.Wire.Encoding.{Tlv, encode, encode_item}
use keyless.Message.{
  Operation, take_item, stop, next, taken, parse_round, parse_loop, parse_message_payload,
  check_required, zero_operation,
}
use keyless.Message.Items.{parse_item-drop, take_item-apply}
use keyless.Message.Request.{
  Request, Shows, field, has, is_complete, apply, request_of, no_request, Fits,
}

-- A round at an item whose contents end inside the payload.
pub parse_round-item :
    (b : List ℕ) (len o t : ℕ) (d rest : List ℕ) (op : Operation)
    → drop o b ≡ encode_item (t, d) ++ rest
    → length d < 65536
    → o + 3 + length d ≤ len
    → parse_round b len o op ≡ (
        take_item (record { tag = t; length = length d; contents = d ++ rest }) op >>= λ op'.
        some (next (o + 3 + length d) op'))
unfolding parse_round taken
parse_round-item b len o t d rest op h w fits =
    let l : length d / 256 % 256 * 256 + length d % 256 ≡ length d = omega arith in
    rw (
      le→ltb (len - o) 3 (omega arith),
      parse_item-drop b o t (length d / 256 % 256) (length d % 256) (d ++ rest) h,
      l,
      le→ltb len (o + 3 + length d) fits,
    )

pub drop-behind :
    (b : List ℕ) (o o' : ℕ) (xs ys : List ℕ)
    → drop o b ≡ xs ++ ys
    → o' ≡ o + length xs
    → drop o' b ≡ ys
drop-behind b o o' xs ys h e =
    let z : length xs ≡ length xs + 0 = omega arith in
    rw (e, ← drop-drop o (length xs) b, h, z) (drop-append xs ys 0)

-- The loop, one test and one round at a time.
module _ (fuel : ℕ) (b : List ℕ) (len o : ℕ) (op : Operation) where
  pub parse_loop-done : len ≤ o → parse_loop (suc fuel) b len o op ≡ some (no_error, op)
  unfolding parse_loop
  parse_loop-done h = rw (le→ltb o len h, parse_loop)

  pub parse_loop-next :
      (o' : ℕ) (op' : Operation)
      → o < len
      → parse_round b len o op ≡ some (next o' op')
      → parse_loop (suc fuel) b len o op ≡ parse_loop fuel b len o' op'
  unfolding parse_loop
  parse_loop-next o' op' h e = rw (lt→ltb o len h, parse_loop) (rw e)

  pub parse_loop-stop :
      (c : ErrorCode) (op' : Operation)
      → o < len
      → parse_round b len o op ≡ some (stop c op')
      → parse_loop (suc fuel) b len o op ≡ some (c, op')
  unfolding parse_loop
  parse_loop-stop c op' h e = rw (lt→ltb o len h, parse_loop) (rw e)

-- The loop on an encoding takes every item, and ends at the end of the payload.
pub parse_loop-encode :
    (is : List Tlv) (b rest : List ℕ) (len o fuel : ℕ) (op : Operation) (r : Request)
    → All Fits is
    → drop o b ≡ encode is ++ rest
    → len ≡ o + length (encode is)
    → length (encode is) < fuel
    → Shows op r
    → (op' : Operation) × (parse_loop fuel b len o op ≡ some (no_error, op'))
      × Shows op' (request_of is r)
unfolding request_of
parse_loop-encode is b rest len o zero op r w h e f s = absurd (omega arith)
parse_loop-encode [] b rest len o (suc fuel) op r w h e f s =
    (op, parse_loop-done fuel b len o op (omega arith), s)
parse_loop-encode ((t, d) ∷ is) b rest len o (suc fuel) op r w h e f s =
    let (op', e', s') = take_item-apply t d (encode is ++ rest) op r s in
    let l : length (encode ((t, d) ∷ is)) ≡ 3 + length d + length (encode is) =
      omega (arith, length-append d (encode is)) in
    let h' : drop o b ≡ encode_item (t, d) ++ (encode is ++ rest) =
      h ∙ append_assoc (encode_item (t, d)) (encode is) rest in
    let tail : drop (o + 3 + length d) b ≡ encode is ++ rest =
      drop-behind b o (o + 3 + length d) (encode_item (t, d)) _ h' (omega arith) in
    let round : parse_round b len o op ≡ some (next (o + 3 + length d) op') =
      rw (parse_round-item b len o t d _ op h' w.0 (omega arith), e') in
    let (op'', e'', s'') =
      parse_loop-encode is b rest len (o + 3 + length d) fuel op' (apply (t, d) r) w.1 tail
        (omega arith) (omega arith) s' in
    (op'', parse_loop-next fuel b len o op (o + 3 + length d) op' (omega arith) round ∙ e'', s'')

pub zero_operation-Shows : Shows zero_operation no_request
zero_operation-Shows = ground arith

has-field :
    (flag : Bool) (p : Pointer) (n : ℕ) (o : Option (List ℕ))
    → field flag p n ≡ some o
    → has o ≡ flag
has-field false p n none h = refl
has-field false p n (some d) h = cc
has-field true p n o h = elim (Option-cases (load p n)) [
  | inl e ↦ ground arith
  | inr (d, e) ↦ ground arith
]

pub check_required_lem :
    (op : Operation) (r : Request)
    → Shows op r
    → check_required (no_error, op) ≡ ((if is_complete r then no_error else format), op)
unfolding check_required
check_required_lem op r s =
    ground (arith, has-field op.is_payload_set op.payload op.payload_len r.payload s.payload)

-- On the encoding of any items, whatever follows it in memory, the parser succeeds exactly if the
-- items give an opcode and a payload, and its operation says what the last fitting item of each
-- tag says; otherwise the message is malformed.
pub parse_message_payload-encode :
    (is : List Tlv) (rest : List ℕ) (before : Operation)
    → All Fits is
    → (op : Operation) × (parse_message_payload
          (some (encode is ++ rest))
          (length (encode is))
          (some before)
        ≡ some ((if is_complete (request_of is no_request) then no_error else format), some op))
      × Shows op (request_of is no_request)
unfolding parse_message_payload
parse_message_payload-encode is rest before w =
    let (op, e, s) =
      parse_loop-encode is (encode is ++ rest) rest (length (encode is)) 0 (length (encode is) + 1)
        zero_operation no_request w refl (omega arith) (omega arith) zero_operation-Shows in
    (op, rw (e, check_required_lem op (request_of is no_request) s), s)
