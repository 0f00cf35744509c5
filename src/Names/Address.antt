-- ===== src/Names/Address.antt =====
-- print_ip prints the address of the request.
use keyless.Prelude.{
  ℕ, ◌≡◌, ◌∙◌, refl, sym, ap, inl, inr, Option, none, some, List, [], true, length, if◌then◌else◌,
  ◌==◌, ==_iff, Bool-cases, some-eq-some,
}
use keyless.Protocol.{◌>>=◌, >>=-eq-some}
use keyless.Wire.{load}
use keyless.Wire.Encoding.{length-load}
use keyless.Message.{Operation}
use keyless.Message.Request.{Request, Shows, field}
use keyless.Names.{print_ip}

module _ (inet inet6 : List ℕ → List ℕ) where
  -- What is printed of an address
  abbrev pub shown : Option (List ℕ) → List ℕ
  shown none = []
  shown (some a) = if length a == 4 then inet a else if length a == 16 then inet6 a else []

  printed :
      (op : Operation) (d : List ℕ)
      → op.is_ip_set ≡ true
      → load op.ip op.ip_len ≡ some d
      → print_ip inet inet6 (some op) ≡ some (shown (some d))
  unfolding print_ip
  printed op d set h =
      let n : length d ≡ op.ip_len = length-load op.ip op.ip_len d h in
      elim (Bool-cases (op.ip_len == 4)) [
        | inl y ↦
            let h4 : load op.ip 4 ≡ some d = ap (load op.ip) (sym ((==_iff op.ip_len 4).0 y)) ∙ h in
            rw (set, n, y, h4) refl
        | inr x ↦ elim (Bool-cases (op.ip_len == 16)) [
          | inl y ↦
              let h16 : load op.ip 16 ≡ some d =
                ap (load op.ip) (sym ((==_iff op.ip_len 16).0 y)) ∙ h in
              rw (set, n, x, y, h16) refl
          | inr z ↦ rw (set, n, x, z) refl
        ]
      ]

  -- If an operation shows a request, print_ip reads no byte outside the address, and prints the
  -- request's address if it has 4 or 16 bytes, and nothing otherwise.
  pub print_ip-Shows :
      (op : Operation) (r : Request)
      → Shows op r
      → print_ip inet inet6 (some op) ≡ some (shown r.client_ip)
  unfolding print_ip
  print_ip-Shows op r s = elim (Bool-cases op.is_ip_set) [
    | inr n ↦
        let e : field op.is_ip_set op.ip op.ip_len ≡ some none = rw n refl in
        let same : none ≡ r.client_ip = some-eq-some (sym e ∙ s.client_ip) in rw (n, ← same) refl
    | inl y ↦
        let e : field op.is_ip_set op.ip op.ip_len ≡ (load op.ip op.ip_len >>= λ d. some (some d)) =
          rw y refl in
        let (d, l, f) = >>=-eq-some (load op.ip op.ip_len) _ (sym e ∙ s.client_ip) in
        printed op d y l ∙ ap (λ a. some (shown a)) (some-eq-some f)
  ]
