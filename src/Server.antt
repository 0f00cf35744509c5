-- ===== src/Server.antt =====
-- keyless.c: the keys that the server loads and loads again, on platforms other than Windows.
pub mod Success
pub mod Keyed
pub mod Loaded
pub mod Options
pub mod Start
pub mod Handles
use keyless.Prelude.{
  ℕ, zero, suc, Option, none, some, List, [], ◌∷◌, Bool, true, false, ltb, length,
}
use keyless.Protocol.{ErrorCode, no_error, ◌>>=◌}
use keyless.Openssl.{Openssl}
use keyless.Keys.{PkList, Added, added, exited, add_key_from_file, new_pk_list, free_pk_list}

-- A file that glob found: whether BIO_new succeeds for it, and what it holds, if it can be opened.
pub record KeyFile : Type 0 where
  pub bio : Bool
  pub content : Option (List ℕ)

-- What load_private_keys is given: whether malloc succeeds for the pattern, what glob finds where it
-- returns 0, and whether the two allocations of new_pk_list succeed.
pub record KeyFolder : Type 0 where
  pub pattern_ok : Bool
  pub globbed : Option (List KeyFile)
  pub header_ok : Bool
  pub array_ok : Bool

module _ (o : Openssl) where
  open o use {PKey}

  -- `failed` is the end of the program, by fatal_error or in add_key_from_file by ssl_error.
  pub data Loading : Type 0 where
    failed : Loading
    loaded : PkList o → Loading

  -- The loop over the files
  unfoldable pub load_keys : List KeyFile → PkList o → Loading
  load_keys [] list = loaded list
  load_keys (f ∷ fs) list = elim (add_key_from_file o f.bio f.content list) [
    | exited ↦ failed
    | added e l ↦ elim e [ no_error ↦ load_keys fs l | _ ↦ failed ]
  ]

  unfoldable pub load_found : KeyFolder → List KeyFile → Loading
  unfolding load_keys
  load_found d [] = failed
  load_found d (f ∷ fs) = elim (new_pk_list o d.header_ok d.array_ok (length (f ∷ fs))) [
    | none ↦ failed
    | some list ↦ load_keys (f ∷ fs) list
  ]

  unfoldable pub load_private_keys : KeyFolder → Loading
  unfolding load_found
  load_private_keys d = elim d.pattern_ok [
    | false ↦ failed
    | true ↦ elim d.globbed [ none ↦ failed | some fs ↦ load_found d fs ]
  ]

  -- The keys that are freed, and what is loaded then; the argument is the global `privates`.
  unfoldable pub sighup_cb : KeyFolder → Option (PkList o) → Option (List PKey × Loading)
  unfolding load_private_keys
  sighup_cb d privates = free_pk_list o privates >>= λ ks. some (ks, load_private_keys d)
