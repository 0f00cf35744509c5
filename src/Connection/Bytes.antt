-- ===== src/Connection/Bytes.antt =====
-- Bytes that are read into a buffer, and headers that are made of them.
use keyless.Prelude.{
  ℕ, ◌+◌, ◌*◌, ◌/◌, ◌%◌, ◌≤◌, ◌≡◌, refl, ap, ◌∙◌, arith, some, List, [], ◌∷◌, ◌++◌, length, take,
  drop, All, length-append, length-drop, take-append_add, take-append, le→leb,
}
use keyless.Protocol.{Header, IsByte, no_error}
use keyless.Wire.{store, parse_header}
use keyless.Wire.Encoding.{encode_header}
use keyless.Connection.Spec.{IsHeader}

-- A buffer whose first bytes are written, after more of them are.
pub record Filled (w read b : List ℕ) (o : ℕ) : Type 0 where
  pub buffer : List ℕ
  pub result : store w o b ≡ some (buffer, o + length b)
  pub size : length buffer ≡ length w
  pub written : take (o + length b) buffer ≡ read ++ b

pub store-Filled :
    (w read b : List ℕ) (o : ℕ)
    → o ≡ length read
    → take o w ≡ read
    → o + length b ≤ length w
    → Filled w read b o
unfolding store
store-Filled w read b o len front room =
    let rest : List ℕ = drop (o + length b) w in
    let at : take (length read + length b) (read ++ (b ++ rest)) ≡ read ++ b =
      take-append_add read (b ++ rest) (length b) ∙ ap (λ t. read ++ t) (take-append b rest) in
    record {
      buffer = read ++ (b ++ rest);
      result =
          rw (le→leb (o + length b) (length w) room)
            (ap (λ t. some (t ++ (b ++ rest), o + length b)) front);
      size = omega (
        arith,
        length-append read (b ++ rest),
        length-append b rest,
        length-drop (o + length b) w,
      );
      written = ap (λ n. take (n + length b) (read ++ (b ++ rest))) len ∙ at;
    }

-- Eight bytes are a header, and its encoding is these bytes.
pub record Parsed (w : List ℕ) (before : Header) : Type 0 where
  pub header : Header
  pub result : parse_header (some w) (some before) ≡ some (no_error, some header)
  pub same : encode_header header ≡ w
  pub fits : IsHeader header

pub parse_header-Parsed :
    (w : List ℕ) (before : Header) → length w ≡ 8 → All IsByte w → Parsed w before
unfolding parse_header
parse_header-Parsed (a ∷ b ∷ c ∷ d ∷ e ∷ f ∷ g ∷ h ∷ []) before n
      (ha, (hb, (hc, (hd, (he, (hf, (hg, (hh, _)))))))) =
    record {
      header = record {
        version_maj = a;
        version_min = b;
        length = c * 256 + d;
        id = ((e * 256 + f) * 256 + g) * 256 + h;
      };
      result = refl;
      same = same;
      fits = record { maj = ha; min = hb; len = omega arith; num = omega arith };
    }
  where
    v : ℕ
    v = ((e * 256 + f) * 256 + g) * 256 + h

    same :
        encode_header (record { version_maj = a; version_min = b; length = c * 256 + d; id = v })
        ≡ a ∷ b ∷ c ∷ d ∷ e ∷ f ∷ g ∷ h ∷ []
    same =
        let e1 : a % 256 ≡ a = omega arith in
        let e2 : b % 256 ≡ b = omega arith in
        let e3 : (c * 256 + d) / 256 % 256 ≡ c = omega arith in
        let e4 : (c * 256 + d) % 256 ≡ d = omega arith in
        let e5 : v / 16777216 % 256 ≡ e = omega arith in
        let e6 : v / 65536 % 256 ≡ f = omega arith in
        let e7 : v / 256 % 256 ≡ g = omega arith in
        let e8 : v % 256 ≡ h = omega arith in rw (e1, e2, e3, e4, e5, e6, e7, e8)
parse_header-Parsed _ before n w = absurd (omega (arith, n))
