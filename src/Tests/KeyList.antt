-- ===== src/Tests/KeyList.antt =====
-- The list of keys, at a list of two.
use keyless.Prelude.{
  ℕ, ◌≤◌, ◌≡◌, ◌≢◌, ◌↔◌, refl, arith, Option, none, some, List, [], ◌∷◌, true, length, replicate,
  take, All,
}
use keyless.Protocol.{ErrorCode, IsByte}
use keyless.Protocol.Op
use keyless.Wire.{load}
use keyless.KeyStore.{KeyStoreLaws}
use keyless.Keys.{
  PkList, unwritten, free_pk_list, find_private_key, add_key_from_file, key_of, key_size,
  private_key_operation,
}
use keyless.Keys.Equal.{constant_time_eq}
use keyless.Keys.ConstantTime.{constant_time_eq_lem}
use keyless.Keys.Find.{IsFirst, find_private_key-IsFirst}
use keyless.Keys.Free.{Frees, free_pk_list-Frees}
use keyless.Keys.Add.{Attempt, add_key_from_file-Attempt}
use keyless.Keys.Asked.{IsAsked}
use keyless.Keys.Operate.{Outcome, private_key_operation-Outcome, key_store, key_store-KeyStoreLaws}
use keyless.Tests.Sample.{toy, toy-OpensslLaws, two_keys, two_keys-IsValid}

abbrev left_bytes : List ℕ
left_bytes = 1 ∷ 2 ∷ 3 ∷ []

abbrev right_bytes : List ℕ
right_bytes = 1 ∷ 2 ∷ 4 ∷ []

two_same : All IsByte (1 ∷ 2 ∷ [])
two_same = (omega arith, (omega arith, tt))

constant_time_eq_lem_example :
    (r : ℕ) × (constant_time_eq left_bytes right_bytes 2 ≡ some r)
    × ((r ≡ 1) ↔ (take 2 left_bytes ≡ take 2 right_bytes))
    × ((r ≡ 0) ↔ (take 2 left_bytes ≢ take 2 right_bytes))
constant_time_eq_lem_example =
    constant_time_eq_lem left_bytes right_bytes 2 two_same two_same (omega arith) (omega arith)

ones : All IsByte (replicate 20 1)
ones = ground arith

find_private_key-IsFirst_example :
    (r : Option ℕ) × (find_private_key toy two_keys (some (replicate 20 1)) none ≡ some r)
    × IsFirst toy two_keys (some (replicate 20 1)) none 0 r
find_private_key-IsFirst_example =
    find_private_key-IsFirst toy two_keys (some (replicate 20 1)) none two_keys-IsValid
      (omega arith, ones) tt

private_key_operation-Outcome_example :
    (k : ℕ) × (room : ℕ) × (r : Option (List ℕ)) × (e : ErrorCode) × (out : List ℕ) × (key_of toy
        two_keys 1
      ≡ some k)
    × (key_size toy two_keys 1 ≡ some room)
    × (private_key_operation toy two_keys 1 Op.rsa_sign_sha256 2 (some left_bytes) room
        ≡ some (e, out))
    × (length out ≤ room)
    × IsAsked toy k (1 ∷ 2 ∷ []) Op.rsa_sign_sha256 r
    × Outcome toy toy-OpensslLaws r e out
unfolding load
private_key_operation-Outcome_example =
    private_key_operation-Outcome toy toy-OpensslLaws two_keys 1 Op.rsa_sign_sha256 2
      (some left_bytes) (1 ∷ 2 ∷ []) two_keys-IsValid (omega arith) refl

key_store-KeyStoreLaws_example : KeyStoreLaws (key_store toy toy-OpensslLaws two_keys)
key_store-KeyStoreLaws_example =
    key_store-KeyStoreLaws toy toy-OpensslLaws two_keys two_keys-IsValid

add_key_from_file-Attempt_example :
    Attempt toy toy-OpensslLaws two_keys (add_key_from_file toy true (some (5 ∷ [])) two_keys)
add_key_from_file-Attempt_example =
    add_key_from_file-Attempt toy toy-OpensslLaws true (some (5 ∷ [])) two_keys two_keys-IsValid

free_pk_list-Frees_example :
    (ks : List ℕ) × (free_pk_list toy (some two_keys) ≡ some ks) × Frees toy two_keys 0 ks
free_pk_list-Frees_example = free_pk_list-Frees toy two_keys two_keys-IsValid

abbrev empty_list : PkList toy
empty_list = record { current = 0; allocated = 2; privates = replicate 2 (unwritten toy) }
