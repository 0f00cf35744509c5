-- ===== src/Protocol.antt =====
-- kssl.h: the constants and the data of the Keyless SSL protocol, with the byte and word
-- operations that kssl_helpers.c defines as macros.
-- A pointer to bytes is `none` for NULL, or the bytes from it to the end of its buffer. An
-- access outside a buffer is undefined in C: here it is a fault, the `none` of the outer option.
pub mod Tag
pub mod Op
pub mod Codes
use keyless.Prelude.{ℕ, ◌+◌, ◌<◌, ◌≡◌, refl, Option, none, some, List}

-- BYTE, WORD and DWORD
abbrev pub IsByte : ℕ → Type 0
IsByte v = v < 256

abbrev pub IsWord : ℕ → Type 0
IsWord v = v < 65536

abbrev pub IsDword : ℕ → Type 0
IsDword v = v < 4294967296

abbrev pub Pointer : Type 0
Pointer = Option (List ℕ)

-- `none` is a fault.
infixl 5 ◌>>=◌
abbrev pub ◌>>=◌ {ℓ κ} : {A : Type ℓ} {B : Type κ} → Option A → (A → Option B) → Option B
none >>= f = none
some a >>= f = f a

pub >>=-eq-some {ℓ κ} :
    {A : Type ℓ} {B : Type κ} (m : Option A) (f : A → Option B) {b : B}
    → (m >>= f) ≡ some b
    → (a : A) × (m ≡ some a) × (f a ≡ some b)
>>=-eq-some none f h = cc
>>=-eq-some (some a) f h = (a, refl, h)

-- kssl_header without its `data`, which no code of the server reads
pub record Header : Type 0 where
  pub version_maj : ℕ
  pub version_min : ℕ
  pub length : ℕ
  pub id : ℕ

-- kssl_item; `contents` is the pointer `data`
pub record Item : Type 0 where
  pub tag : ℕ
  pub length : ℕ
  pub contents : List ℕ

-- kssl_error_code
pub data ErrorCode : Type 0 where
  no_error crypto_failed key_not_found read_error version_mismatch bad_opcode : ErrorCode
  unexpected_opcode format internal : ErrorCode

-- The value of an error code on the wire.
unfoldable pub error_byte : ErrorCode → ℕ
error_byte no_error = 0x00
error_byte crypto_failed = 0x01
error_byte key_not_found = 0x02
error_byte read_error = 0x03
error_byte version_mismatch = 0x04
error_byte bad_opcode = 0x05
error_byte unexpected_opcode = 0x06
error_byte format = 0x07
error_byte internal = 0x08

abbrev pub header_size : ℕ
header_size = 8

abbrev pub item_header_size : ℕ
item_header_size = 3

abbrev pub version_maj : ℕ
version_maj = 0x01

abbrev pub version_min : ℕ
version_min = 0x00

abbrev pub pad_to : ℕ
pad_to = 1024

abbrev pub opcode_item_size : ℕ
opcode_item_size = item_header_size + 1

abbrev pub error_item_size : ℕ
error_item_size = item_header_size + 1

abbrev pub ski_size : ℕ
ski_size = 20

abbrev pub digest_size : ℕ
digest_size = 32
