-- ===== src/Wire/Encoding.antt =====
-- The bytes of headers and items, written down as lists, and the writers of Wire.antt on a buffer
-- that is zero from the offset on.
use keyless.Prelude.{
  ℕ, zero, suc, ◌+◌, ◌-◌, ◌%◌, ◌≤◌, ◌≡◌, refl, ap, ◌∙◌, arith, Option, none, some, List, [], ◌∷◌,
  ◌++◌, append_assoc, length, take, drop, replicate, length-append, length-replicate, length-take,
  take-append, drop-append, le→leb, lt→ltb, ltb, if◌then◌else◌, append-nil,
}
use keyless.Protocol.{Pointer, Header, no_error}
use keyless.Protocol.Tag
use keyless.Wire.{
  store, load, write_buffer, word_bytes, dword_bytes, flatten_header, flatten_item_byte,
  flatten_item, add_padding, Written,
}

-- A tag and the bytes of its item.
abbrev pub Tlv : Type 0
Tlv = ℕ × List ℕ

abbrev pub encode_item : Tlv → List ℕ
encode_item (tag, d) = tag ∷ (word_bytes (length d) ++ d)

abbrev pub encode : List Tlv → List ℕ
encode [] = []
encode (i ∷ is) = encode_item i ++ encode is

abbrev pub encode_header : Header → List ℕ
encode_header h =
    h.version_maj % 256 ∷ h.version_min % 256 ∷ (word_bytes h.length ++ dword_bytes h.id)

abbrev pub zeros : ℕ → List ℕ
zeros n = replicate n 0

-- A buffer of `n` zero bytes behind what is written, and the offset where those begin.
abbrev pub wrote : List ℕ → ℕ → Option Written
wrote done n = some (no_error, some (done ++ zeros n), some (length done))

drop-zeros : (k n : ℕ) → drop k (zeros n) ≡ zeros (n - k)
drop-zeros zero n = ap zeros {x = n} {y = n - 0} (omega arith)
drop-zeros (suc k) zero = ap zeros {x = 0} {y = 0 - suc k} (omega arith)
drop-zeros (suc k) (suc n) = drop-zeros k n ∙ ap zeros {x = n - k} {y = suc n - suc k} (omega arith)

pub length-zeros : (n : ℕ) → length (zeros n) ≡ n
length-zeros n = length-replicate n 0

pub store-zeros :
    (done vs : List ℕ) (n : ℕ)
    → length vs ≤ n
    → store (done ++ zeros n) (length done) vs
      ≡ some ((done ++ vs) ++ zeros (n - length vs), length (done ++ vs))
unfolding store
store-zeros done vs n h =
    let fits : length done + length vs ≤ length (done ++ zeros n) =
      omega (arith, length-append done (zeros n), length-zeros n) in
    rw (le→leb _ _ fits, take-append, drop-append, drop-zeros, length-append, append_assoc)

pub load-length : (v : List ℕ) (n : ℕ) → n ≤ length v → load (some v) n ≡ some (take n v)
unfolding load
load-length v n h = rw (le→leb n (length v) h)

pub length-load : (p : Pointer) (n : ℕ) (d : List ℕ) → load p n ≡ some d → length d ≡ n
unfolding load
length-load none n d h = cc
length-load (some v) n d h = ground (arith, length-take n v)

pub flatten_item_byte-zeros :
    (tag v : ℕ) (done : List ℕ) (n : ℕ)
    → 4 ≤ n
    → flatten_item_byte tag v (some (done ++ zeros n)) (some (length done))
      ≡ wrote (done ++ encode_item (tag % 256, v % 256 ∷ [])) (n - 4)
unfolding flatten_item_byte
flatten_item_byte-zeros tag v done n h =
    let e : n - 1 - 2 - 1 ≡ n - 4 = omega arith in
    rw
      (
        store-zeros done (tag % 256 ∷ []) n (omega arith),
        store-zeros (done ++ tag % 256 ∷ []) (word_bytes 1) (n - 1) (omega arith),
        store-zeros ((done ++ tag % 256 ∷ []) ++ word_bytes 1) (v % 256 ∷ []) (n - 1 - 2)
            (omega arith),
        e,
      )
      (simp append_assoc)

nil_of_length {ℓ} : {A : Type ℓ} (xs : List A) → length xs ≡ 0 → xs ≡ []
nil_of_length [] h = refl
nil_of_length (x ∷ xs) h = absurd (omega arith)

-- The contents of an item, which are copied only if there are any.
contents-zeros :
    (p : Pointer) (k : ℕ) (d done : List ℕ) (n : ℕ)
    → load p k ≡ some d
    → k ≤ n
    → (if ltb 0 k
        then write_buffer (done ++ zeros n) (length done) p k
        else some (done ++ zeros n, length done))
      ≡ some ((done ++ d) ++ zeros (n - k), length (done ++ d))
unfolding write_buffer
contents-zeros p zero d done n hd h =
    let e : d ≡ [] = nil_of_length d (length-load p 0 d hd) in
    let m : n - 0 ≡ n = omega arith in rw (e, append-nil, m)
contents-zeros p (suc k) d done n hd h =
    let e : length d ≡ suc k = length-load p (suc k) d hd in
    rw (lt→ltb 0 (suc k) (omega arith), hd, store-zeros done d n (omega arith), e)

pub flatten_item-zeros :
    (tag : ℕ) (p : Pointer) (k : ℕ) (d done : List ℕ) (n : ℕ)
    → load p k ≡ some d
    → 3 + k ≤ n
    → flatten_item tag p k (some (done ++ zeros n)) (some (length done))
      ≡ wrote (done ++ encode_item (tag % 256, d)) (n - (3 + k))
unfolding flatten_item
flatten_item-zeros tag p k d done n hd h =
    let e : n - 1 - 2 - k ≡ n - (3 + k) = omega arith in
    rw
      (
        store-zeros done (tag % 256 ∷ []) n (omega arith),
        store-zeros (done ++ tag % 256 ∷ []) (word_bytes k) (n - 1) (omega arith),
        contents-zeros p k d ((done ++ tag % 256 ∷ []) ++ word_bytes k) (n - 1 - 2) hd
            (omega arith),
        e,
        length-load p k d hd,
      )
      (simp append_assoc)

pub flatten_header-zeros :
    (h : Header) (done : List ℕ) (n : ℕ)
    → 8 ≤ n
    → flatten_header (some h) (some (done ++ zeros n)) (some (length done))
      ≡ wrote (done ++ encode_header h) (n - 8)
unfolding flatten_header
flatten_header-zeros h done n k =
    let maj = h.version_maj % 256 ∷ [] in
    let min = h.version_min % 256 ∷ [] in
    let e : n - 1 - 1 - 2 - 4 ≡ n - 8 = omega arith in
    rw
      (
        store-zeros done maj n (omega arith),
        store-zeros (done ++ maj) min (n - 1) (omega arith),
        store-zeros ((done ++ maj) ++ min) (word_bytes h.length) (n - 1 - 1) (omega arith),
        store-zeros (((done ++ maj) ++ min) ++ word_bytes h.length) (dword_bytes h.id)
            (n - 1 - 1 - 2) (omega arith),
        e,
      )
      (simp append_assoc)

-- The padding is the bytes that were zero before.
pub add_padding-zeros :
    (size : ℕ) (done : List ℕ)
    → add_padding size (some (done ++ zeros (3 + size))) (some (length done))
      ≡ some
          (no_error, some (done ++ encode_item (Tag.padding, zeros size)), some (length done + 3))
unfolding add_padding
add_padding-zeros size done =
    let e : 3 + size - 1 - 2 ≡ size = omega arith in
    let l : length ((done ++ Tag.padding ∷ []) ++ word_bytes size) ≡ length done + 3 = omega (
      arith,
      length-append done (Tag.padding ∷ []),
      length-append (done ++ Tag.padding ∷ []) (word_bytes size),
    ) in
    rw
      (
        store-zeros done (Tag.padding ∷ []) (3 + size) (omega arith),
        store-zeros (done ++ Tag.padding ∷ []) (word_bytes size) (3 + size - 1) (omega arith),
        e,
        l,
        length-zeros,
      )
      (simp append_assoc)
