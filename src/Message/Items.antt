-- ===== src/Message/Items.antt =====
-- One item of a payload: parse_item at its header, and the switch over its tag.
use keyless.Prelude.{
  ℕ, ◌+◌, ◌*◌, ◌≡◌, sym, ap, ◌∙◌, arith, some, List, [], ◌∷◌, ◌++◌, length, drop, true, false, ◌==◌,
  length-append, drop-drop, take-append, get_elem?, get_elem?-drop, Bool-cases, inl, inr,
}
use keyless.Protocol.{no_error, ski_size, digest_size}
use keyless.Protocol.Tag
use keyless.Wire.{load, parse_item}
use keyless.Wire.Encoding.{load-length}
use keyless.Message.{Operation, take_item, temp_item}
use keyless.Message.Request.{Request, Shows, apply}

get_elem?-at : (b : List ℕ) (o k i : ℕ) → i ≡ o + k → get_elem? b i ≡ get_elem? (drop o b) k
get_elem?-at b o k i e = ap (get_elem? b) e ∙ sym (get_elem?-drop o k b)

-- An item whose header is at the offset.
pub parse_item-drop :
    (b : List ℕ) (o t hi lo : ℕ) (more : List ℕ)
    → drop o b ≡ t ∷ hi ∷ lo ∷ more
    → parse_item (some b) (some o) (some temp_item)
      ≡ some (
        no_error,
        some (o + 3 + (hi * 256 + lo)),
        some (record { tag = t; length = hi * 256 + lo; contents = more }),
      )
unfolding parse_item
parse_item-drop b o t hi lo more h =
    let e3 : o + 1 + 2 ≡ o + 3 = omega arith in
    rw (
      get_elem?-at b o 0 o (omega arith),
      h,
      get_elem?-at b o 1 (o + 1) (omega arith),
      h,
      get_elem?-at b o 2 (o + 1 + 1) (omega arith),
      h,
      e3,
      ← drop-drop o 3 b,
      h,
    )

pub load-append : (d rest : List ℕ) → load (some (d ++ rest)) (length d) ≡ some d
load-append d rest =
    load-length (d ++ rest) (length d) (omega (arith, length-append d rest))
    ∙ ap (λ x. some x) (take-append d rest)

-- What the code makes of an item whose bytes are at its pointer, and what the item says.
abbrev pub Taken : ℕ → List ℕ → List ℕ → Operation → Request → Type 0
Taken t d rest op r =
    (op' : Operation) × (take_item (record { tag = t; length = length d; contents = d ++ rest }) op
      ≡ some op')
    × Shows op' (apply (t, d) r)

take_opcode :
    (t : ℕ) (d rest : List ℕ) (op : Operation) (r : Request)
    → Shows op r
    → (t == Tag.opcode) ≡ true
    → Taken t d rest op r
unfolding take_item apply
take_opcode t [] rest op r s e = (op, ground arith, ground arith)
take_opcode t (v ∷ []) rest op r s e =
    (record op { opcode = v; is_opcode_set = true }, ground arith, ground arith)
take_opcode t (v ∷ w ∷ d) rest op r s e = (op, ground arith, ground arith)

module _ (t : ℕ) (d rest : List ℕ) (op : Operation) (r : Request) (s : Shows op r)
    (not_opcode : (t == Tag.opcode) ≡ false) where
  take_ski : (t == Tag.ski) ≡ true → Taken t d rest op r
  unfolding take_item apply
  take_ski e = elim (Bool-cases (length d == ski_size)) [
    | inl l ↦ (
      record op { ski = some (d ++ rest); is_ski_set = true },
      ground arith,
      ground (arith, load-append d rest),
    )
    | inr l ↦ (op, ground arith, ground arith)
  ]

  take_digest : (t == Tag.digest) ≡ true → Taken t d rest op r
  unfolding take_item apply
  take_digest e = elim (Bool-cases (length d == digest_size)) [
    | inl l ↦ (
      record op { digest = some (d ++ rest); is_digest_set = true },
      ground arith,
      ground (arith, load-append d rest),
    )
    | inr l ↦ (op, ground arith, ground arith)
  ]

  take_payload : (t == Tag.payload) ≡ true → Taken t d rest op r
  unfolding take_item apply
  take_payload e = (
    record op { payload_len = length d; payload = some (d ++ rest); is_payload_set = true },
    ground arith,
    ground (arith, load-append d rest),
  )

  take_client_ip : (t == Tag.client_ip) ≡ true → Taken t d rest op r
  unfolding take_item apply
  take_client_ip e = (
    record op { ip_len = length d; ip = some (d ++ rest); is_ip_set = true },
    ground arith,
    ground (arith, load-append d rest),
  )

  take_other :
      (t == Tag.ski) ≡ false
      → (t == Tag.digest) ≡ false
      → (t == Tag.payload) ≡ false
      → (t == Tag.client_ip) ≡ false
      → Taken t d rest op r
  unfolding take_item apply
  take_other e1 e2 e3 e4 = (op, ground arith, ground arith)

-- The switch never reads outside the buffer, and does to the operation what the item says.
pub take_item-apply :
    (t : ℕ) (d rest : List ℕ) (op : Operation) (r : Request) → Shows op r → Taken t d rest op r
take_item-apply t d rest op r s = elim (Bool-cases (t == Tag.opcode)) [
  | inl e ↦ take_opcode t d rest op r s e
  | inr n ↦ elim (Bool-cases (t == Tag.ski)) [
    | inl e ↦ take_ski t d rest op r s n e
    | inr n1 ↦ elim (Bool-cases (t == Tag.digest)) [
      | inl e ↦ take_digest t d rest op r s n e
      | inr n2 ↦ elim (Bool-cases (t == Tag.payload)) [
        | inl e ↦ take_payload t d rest op r s n e
        | inr n3 ↦ elim (Bool-cases (t == Tag.client_ip)) [
          | inl e ↦ take_client_ip t d rest op r s n e
          | inr n4 ↦ take_other t d rest op r s n n1 n2 n3 n4
        ]
      ]
    ]
  ]
]
