-- ===== src/Client/KeyRequests.antt =====
-- testclient.c: the requests of the test cases with a key.
use keyless.Prelude.{
  zero, suc, ◌+◌, ◌==◌, if_both, ◌/◌, ◌%◌, ◌<◌, ℕ, ◌≤◌, ◌≡◌, refl, sym, ap, ◌∙◌, arith, Option,
  none, some, List, [], ◌∷◌, ◌++◌, length, take, All, take-append, length-append, take-all,
}
use keyless.Protocol.{IsByte, digest_size}
use keyless.Protocol.Op
use keyless.Wire.{load}
use keyless.Wire.Encoding.{load-length}
use keyless.Message.{items_size, padding_size}
use keyless.Message.Request.{Request, no_request}
use keyless.Client.Sends.{CanSend}
use keyless.Client.Keyed.{hex_digit, hex_before, kryptos2, invisible}
use keyless.Client.Keyed.{flip_first, keyed_request, with_ip}

-- What the requests of these tests show.
abbrev pub keyed : List ℕ → List ℕ → Option (List ℕ) → Request
keyed digest payload ip = record no_request {
  opcode = some Op.rsa_decrypt;
  payload = some payload;
  digest = some digest;
  client_ip = ip;
}

hex_digit-IsByte : (n : ℕ) → n < 16 → IsByte (hex_digit n)
unfolding hex_digit
hex_digit-IsByte n h = ground arith

hex_before-IsByte : (k n : ℕ) (text : List ℕ) → All IsByte text → All IsByte (hex_before k n text)
unfolding hex_before
hex_before-IsByte zero n text w = w
hex_before-IsByte (suc k) n text w = if_both (All IsByte) (n == 0) _ _ w (
    hex_before-IsByte k (n / 16) (hex_digit (n % 16) ∷ text)
      (hex_digit-IsByte (n % 16) (omega arith), w))

pub kryptos2-IsByte : (count : ℕ) → All IsByte (kryptos2 count)
unfolding kryptos2
kryptos2-IsByte count = hex_before-IsByte 6 (count / 256) _ (
  hex_digit-IsByte (count / 16 % 16) (omega arith),
  (hex_digit-IsByte (count % 16) (omega arith), omega arith),
)

length-hex_before : (k n : ℕ) (text : List ℕ) → length (hex_before k n text) ≤ k + length text
unfolding hex_before
length-hex_before zero n text = omega arith
length-hex_before (suc k) n text =
    let text' : List ℕ = hex_digit (n % 16) ∷ text in
    if_both (λ t. length t ≤ suc k + length text) (n == 0) text (hex_before k (n / 16) text')
      (omega arith) (omega (arith, length-hex_before k (n / 16) text'))

pub length-kryptos2 : (count : ℕ) → length (kryptos2 count) ≤ 55
unfolding kryptos2
length-kryptos2 count =
    let text : List ℕ = hex_digit (count / 16 % 16) ∷ hex_digit (count % 16) ∷ 32 ∷ invisible in
    omega (arith, length-hex_before 6 (count / 256) text)

pub length-flip_first : (d : List ℕ) → length (flip_first d) ≡ length d
length-flip_first [] = refl
length-flip_first (b ∷ bs) = refl

pub flip_first-IsByte : (d : List ℕ) → All IsByte d → All IsByte (flip_first d)
flip_first-IsByte [] h = tt
flip_first-IsByte (b ∷ bs) h = (omega arith, h.1)

load-front : (c m : List ℕ) (n : ℕ) → length c ≡ n → load (some (c ++ m)) n ≡ some c
load-front c m n e =
    load-length (c ++ m) n (omega (arith, e, length-append c m))
    ∙ ap some (ap (λ k. take k (c ++ m)) (sym e) ∙ take-append c m)

load-exact : (c : List ℕ) (n : ℕ) → length c ≡ n → load (some c) n ≡ some c
load-exact c n e = load-length c n (omega (arith, e)) ∙ ap some (take-all n c (omega (arith, e)))

module _ (digest c m : List ℕ) (n : ℕ) (sized : length digest ≡ digest_size)
    (bytes : All IsByte digest) (clen : length c ≡ n) (cbytes : All IsByte c)
    (short : n ≤ 4096) where
  pub plain-CanSend : CanSend (keyed_request digest n (c ++ m)) (keyed digest c none)
  unfolding items_size padding_size
  plain-CanSend = record {
    alike = keyed_request digest n (c ++ m);
    same = λ h. refl;
    shows = record {
      opcode = refl;
      payload = rw (load-front c m n clen) refl;
      ski = refl;
      digest = rw (load-exact digest digest_size sized) refl;
      client_ip = refl;
    };
    opcode = omega arith;
    bytes = record { payload = cbytes; ski = tt; digest = bytes; client_ip = tt };
    complete = refl;
    fits = ground (arith, short);
  }

  pub with_ip-CanSend :
      (ip : List ℕ)
      → All IsByte ip
      → length ip ≤ 16
      → CanSend (with_ip ip (keyed_request digest n (c ++ m))) (keyed digest c (some ip))
  unfolding items_size padding_size
  with_ip-CanSend ip w l = record {
    alike = with_ip ip (keyed_request digest n (c ++ m));
    same = λ h. refl;
    shows = record {
      opcode = refl;
      payload = rw (load-front c m n clen) refl;
      ski = refl;
      digest = rw (load-exact digest digest_size sized) refl;
      client_ip = rw (load-exact ip (length ip) refl) refl;
    };
    opcode = omega arith;
    bytes = record { payload = cbytes; ski = tt; digest = bytes; client_ip = w };
    complete = refl;
    fits = ground (arith, short, l);
  }
