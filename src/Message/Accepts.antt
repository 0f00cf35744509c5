-- ===== src/Message/Accepts.antt =====
-- parse_message_payload on any bytes: it stays inside its buffer, and succeeds on encodings only.
use keyless.Prelude.{
  ℕ, zero, suc, ◌+◌, ◌-◌, ◌*◌, ◌/◌, ◌%◌, ◌≤◌, ◌<◌, ◌≡◌, refl, ap, ◌∙◌, arith, some, List, [], ◌∷◌,
  ◌++◌, length, take, drop, All, true, if◌then◌else◌, ltb, length-drop, length-take,
  take-append-drop, take-append_add, All-drop, ltb→le, ltb→lt, lt→ltb, le→ltb, Bool-cases, inl, inr,
  ◌⊎◌,
}
use keyless.Protocol.{ErrorCode, IsByte, no_error, format}
use keyless.Wire.Encoding.{Tlv, encode, encode_item}
use keyless.Message.{
  Operation, zero_operation, check_required, stop, next, taken, parse_round, parse_loop,
  parse_message_payload,
}
use keyless.Message.Items.{parse_item-drop, take_item-apply}
use keyless.Message.Parse.{
  parse_round-item, parse_loop-done, parse_loop-next, parse_loop-stop, drop-behind,
  zero_operation-Shows, check_required_lem,
}
use keyless.Message.Request.{Request, Shows, apply, request_of, no_request, Fits, is_complete}

-- The three bytes of an item's header.
header_bytes :
    (xs : List ℕ) → 3 ≤ length xs → (t hi lo : ℕ) × (more : List ℕ) × (xs ≡ t ∷ hi ∷ lo ∷ more)
header_bytes [] h = absurd (omega arith)
header_bytes (a ∷ []) h = absurd (omega arith)
header_bytes (a ∷ b ∷ []) h = absurd (omega arith)
header_bytes (a ∷ b ∷ c ∷ xs) h = (a, b, c, xs, refl)

-- An item that lies inside the payload.
record ItemAt (b : List ℕ) (len o : ℕ) : Type 0 where
  tag : ℕ
  contents : List ℕ
  fits : length contents < 65536
  inside : o + 3 + length contents ≤ len
  bytes : drop o b ≡ encode_item (tag, contents) ++ drop (o + 3 + length contents) b

module _ (b : List ℕ) (len o : ℕ) (op : Operation) (in_buffer : len ≤ length b) (h : o < len) where
  round_too_long :
      (t hi lo : ℕ) (more : List ℕ)
      → 3 ≤ len - o
      → drop o b ≡ t ∷ hi ∷ lo ∷ more
      → len < o + 3 + (hi * 256 + lo)
      → parse_round b len o op ≡ some (stop format op)
  unfolding parse_round taken
  round_too_long t hi lo more k e l =
      rw (le→ltb (len - o) 3 k, parse_item-drop b o t hi lo more e, lt→ltb len _ l)

  round_too_short : len - o < 3 → parse_round b len o op ≡ some (stop format op)
  unfolding parse_round
  round_too_short k = rw (lt→ltb (len - o) 3 k)

  item_at :
      (t hi lo : ℕ) (more : List ℕ)
      → IsByte hi
      → IsByte lo
      → drop o b ≡ t ∷ hi ∷ lo ∷ more
      → o + 3 + (hi * 256 + lo) ≤ len
      → ItemAt b len o
  item_at t hi lo more bhi blo e l =
      let n : ℕ = hi * 256 + lo in
      let more_length : length more ≡ length b - o - 3 =
        omega (arith, ap length e, length-drop o b) in
      let d_length : length (take n more) ≡ n = omega (arith, length-take n more, more_length) in
      let split : drop o b ≡ encode_item (t, take n more) ++ drop n more = rw (
        e,
        d_length,
        (let q : n / 256 % 256 ≡ hi = omega arith in q),
        (let q : n % 256 ≡ lo = omega arith in q),
        take-append-drop,
      ) in
      let tail : drop (o + 3 + length (take n more)) b ≡ drop n more =
        drop-behind b o _ (encode_item (t, take n more)) (drop n more) split (omega arith) in
      record {
        tag = t;
        contents = take n more;
        fits = omega arith;
        inside = omega arith;
        bytes = rw tail split;
      }

  -- A round ends the parse as malformed, or finds an item.
  round_cases : All IsByte b → (parse_round b len o op ≡ some (stop format op)) ⊎ ItemAt b len o
  round_cases w = elim (Bool-cases (ltb (len - o) 3)) [
    | inl s ↦ inl (round_too_short (ltb→lt (len - o) 3 s))
    | inr k ↦
        let (t, hi, lo, more, e) =
          header_bytes (drop o b) (omega (arith, length-drop o b, ltb→le (len - o) 3 k)) in
        let bytes : All IsByte (t ∷ hi ∷ lo ∷ more) = rw e at (All-drop IsByte o b w) in
        elim (Bool-cases (ltb len (o + 3 + (hi * 256 + lo)))) [
          | inl l ↦ inl (round_too_long t hi lo more (ltb→le _ _ k) e (ltb→lt len _ l))
          | inr l ↦ inr (item_at t hi lo more bytes.1.0 bytes.1.1.0 e (ltb→le len _ l))
        ]
  ]

-- The bytes are the encoding of some items.
abbrev pub IsEncoding : List ℕ → Type 0
IsEncoding xs = (is : List Tlv) × All Fits is × (xs ≡ encode is)

-- What the loop has found out about the bytes from its offset on.
record Read (b : List ℕ) (len o : ℕ) (r : Request) (e : ErrorCode) (op : Operation) : Type 0 where
  items : List Tlv
  success : e ≡ no_error
  fit : All Fits items
  bytes : take (len - o) (drop o b) ≡ encode items
  shows : Shows op (request_of items r)

abbrev Ran : ℕ → List ℕ → ℕ → ℕ → Operation → Request → Type 0
Ran fuel b len o op r =
    (e : ErrorCode) × (op' : Operation) × (parse_loop fuel b len o op ≡ some (e, op'))
    × ((e ≡ format) ⊎ Read b len o r e op')

Read-more :
    (b : List ℕ) (len o : ℕ) (r : Request) (e : ErrorCode) (op : Operation) (i : ItemAt b len o)
    → Read b len (o + 3 + length i.contents) (apply (i.tag, i.contents) r) e op
    → Read b len o r e op
unfolding request_of
Read-more b len o r e op i rd =
    let xs : List ℕ = encode_item (i.tag, i.contents) in
    let n : len - o ≡ length xs + (len - (o + 3 + length i.contents)) = omega (arith, i.inside) in
    record {
      items = (i.tag, i.contents) ∷ rd.items;
      success = rd.success;
      fit = (i.fits, rd.fit);
      bytes = rw (i.bytes, n) (take-append_add xs _ _ ∙ ap (λ t. xs ++ t) rd.bytes);
      shows = rd.shows;
    }

parse_loop-Ran :
    (fuel : ℕ) (b : List ℕ) (len o : ℕ) (op : Operation) (r : Request)
    → All IsByte b
    → len ≤ length b
    → o ≤ len
    → len - o < fuel
    → Shows op r
    → Ran fuel b len o op r
parse_loop-Ran zero b len o op r w hb ho f s = absurd (omega arith)
parse_loop-Ran (suc fuel) b len o op r w hb ho f s = elim (Bool-cases (ltb o len)) [
  | inr done ↦
      let e : len - o ≡ 0 = omega (arith, ltb→le o len done) in
      (
        no_error,
        op,
        parse_loop-done fuel b len o op (ltb→le o len done),
        inr (record {
          items = [];
          success = refl;
          fit = tt;
          bytes = rw e;
          shows = unfold request_of in s;
        }),
      )
  | inl more ↦
      let h : o < len = ltb→lt o len more in
      elim (round_cases b len o op hb h w) [
        | inl e ↦ (format, op, parse_loop-stop fuel b len o op format op h e, inl refl)
        | inr i ↦
            let o' : ℕ = o + 3 + length i.contents in
            let (op', e', s') = take_item-apply i.tag i.contents (drop o' b) op r s in
            let round : parse_round b len o op ≡ some (next o' op') =
              parse_round-item b len o i.tag i.contents (drop o' b) op i.bytes i.fits i.inside
              ∙ rw e' in
            let (e, op'', run, found) =
              parse_loop-Ran fuel b len o' op' (apply (i.tag, i.contents) r) w hb i.inside
                (omega arith) s' in
            (
              e,
              op'',
              parse_loop-next fuel b len o op o' op' h round ∙ run,
              elim found [ inl x ↦ inl x | inr rd ↦ inr (Read-more b len o r e op'' i rd) ],
            )
      ]
]

-- The first `len` bytes are the items of a complete request, and the operation shows it.
pub record Accepted (b : List ℕ) (len : ℕ) (op : Operation) : Type 0 where
  pub items : List Tlv
  pub fit : All Fits items
  pub bytes : take len b ≡ encode items
  pub shows : Shows op (request_of items no_request)
  pub complete : is_complete (request_of items no_request) ≡ true

-- On any bytes, the parser reads nothing outside the buffer and runs to its end. It either calls
-- the message malformed, or succeeds; then the payload is the encoding of items that give an
-- opcode and a payload, and the operation shows the request that they make.
pub parse_message_payload_total :
    (b : List ℕ) (len : ℕ) (before : Operation)
    → All IsByte b
    → len ≤ length b
    → (e : ErrorCode) × (op : Operation) × (parse_message_payload (some b) len (some before)
        ≡ some (e, some op))
      × ((e ≡ format) ⊎ ((e ≡ no_error) × Accepted b len op))
unfolding parse_message_payload
parse_message_payload_total b len before w h =
    let (e, op, run, found) =
      parse_loop-Ran (len + 1) b len 0 zero_operation no_request w h (omega arith) (omega arith)
        zero_operation-Shows in
    elim found [
      | inl f ↦ (format, op, rw (run, f) (unfold check_required in refl), inl refl)
      | inr rd ↦
          let r : Request = request_of rd.items no_request in
          let c : check_required (e, op) ≡ ((if is_complete r then no_error else format), op) =
            rw rd.success (check_required_lem op r rd.shows) in
          let n : len - 0 ≡ len = omega arith in
          elim (Bool-cases (is_complete r)) [
            | inl y ↦ (
              no_error,
              op,
              rw (run, c, y),
              inr (
                refl,
                record {
                  items = rd.items;
                  fit = rd.fit;
                  bytes = rw n at rd.bytes;
                  shows = rd.shows;
                  complete = y;
                },
              ),
            )
            | inr y ↦ (format, op, rw (run, c, y), inl refl)
          ]
    ]
