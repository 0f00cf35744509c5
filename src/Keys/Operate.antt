-- ===== src/Keys/Operate.antt =====
-- private_key_operation on a key in use, and the list of keys as the store that the core uses.
use keyless.Prelude.{
  ℕ, ◌≤◌, ◌<◌, ◌≡◌, refl, sym, arith, Option, none, some, List, [], inl, inr, ◌⊎◌, ◌∙◌,
  some-eq-some, le→leb, length, if_both,
}
use keyless.Protocol.{Pointer, ErrorCode, no_error, crypto_failed, ◌>>=◌, >>=-eq-some}
use keyless.Wire.{load}
use keyless.Openssl.{Openssl, OpensslLaws}
use keyless.KeyStore.{KeyStore, KeyStoreLaws}
use keyless.Keys.Valid.{IsValid}
use keyless.Keys.Find.{IsFirst, find_private_key-IsFirst}
use keyless.Keys.Asked.{IsAsked, key_output-IsAsked}
use keyless.Keys.{
  PkList, key_of, key_size, key_output, write_out, private_key_operation, find_private_key,
  opcode_to_digest_nid, decrypt_padding,
}

module _ (o : Openssl) (laws : OpensslLaws o) where
  open o use {PKey}

  abbrev Fitting : PKey → Option (List ℕ) → Type 0
  Fitting k r = (out : List ℕ) → r ≡ some out → length out ≤ o.pkey_size k

  none_fits : (k : PKey) → Fitting k none
  none_fits k out h = cc

  -- Whatever OpenSSL returns for a key fits the buffer that key_size makes room for.
  key_output-Fitting : (k : PKey) (opcode : ℕ) (m : List ℕ) → Fitting k (key_output o k opcode m)
  unfolding key_output
  key_output-Fitting k opcode m =
      if_both (Fitting k) _ _ _ decrypted (
        if_both (Fitting k) _ _ _ rsa_signed (if_both (Fitting k) _ _ _ ecdsa_signed (none_fits k)))
    where
      decrypted :
          Fitting k (o.get1_rsa k >>= λ rsa. o.rsa_private_decrypt m rsa (decrypt_padding o opcode))
      decrypted out h =
          let (r, e, h') = >>=-eq-some (o.get1_rsa k) _ h in laws.decrypt_fits k r _ m out e h'

      rsa_signed :
          Fitting k (o.get1_rsa k >>= λ rsa. o.rsa_sign (opcode_to_digest_nid opcode) m rsa)
      rsa_signed out h =
          let (r, e, h') = >>=-eq-some (o.get1_rsa k) _ h in laws.rsa_sign_fits k r _ m out e h'

      ecdsa_signed :
          Fitting k (o.get1_ec_key k >>= λ ec. o.ecdsa_sign (opcode_to_digest_nid opcode) m ec)
      ecdsa_signed out h =
          let (r, e, h') = >>=-eq-some (o.get1_ec_key k) _ h in
          laws.ecdsa_sign_fits k r _ m out e h'

  -- What was asked of OpenSSL, and what came of it.
  pub data Outcome (r : Option (List ℕ)) : ErrorCode → List ℕ → Type 0 where
    failed : r ≡ none → Outcome r crypto_failed []
    produced : {out : List ℕ} → r ≡ some out → Outcome r no_error out

  write_out-Outcome :
      (k : PKey) (r : Option (List ℕ))
      → Fitting k r
      → (e : ErrorCode) × (out : List ℕ) × (write_out o (o.pkey_size k) r ≡ some (e, out))
        × (length out ≤ o.pkey_size k)
        × Outcome r e out
  unfolding write_out
  write_out-Outcome k none f = (crypto_failed, [], refl, omega arith, failed refl)
  write_out-Outcome k (some out) f = (
    no_error,
    out,
    rw (le→leb (length out) (o.pkey_size k) (f out refl)),
    f out refl,
    produced refl,
  )

  -- With the facts on the length of OpenSSL's output, on a key in use of a valid list and a message
  -- that can be read, private_key_operation writes no more than key_size bytes. It asks OpenSSL to
  -- decrypt with the opcode's padding, or to sign with the opcode's digest and kind of key, and gives
  -- exactly what comes of that; it gives KSSL_ERROR_CRYPTO_FAILED where nothing comes of it or the
  -- opcode is none of an operation.
  pub private_key_operation-Outcome :
      (list : PkList o) (key_id opcode len : ℕ) (message : Pointer) (m : List ℕ)
      → IsValid o list
      → key_id < list.current
      → load message len ≡ some m
      → (k : PKey) × (room : ℕ) × (r : Option (List ℕ)) × (e : ErrorCode) × (out : List ℕ) × (key_of
            o list key_id
          ≡ some k)
        × (key_size o list key_id ≡ some room)
        × (private_key_operation o list key_id opcode len message room ≡ some (e, out))
        × (length out ≤ room)
        × IsAsked o k m opcode r
        × Outcome r e out
  unfolding private_key_operation key_size
  private_key_operation-Outcome list key_id opcode len message m v h hm =
      let (x, is, w) = v.entry key_id h in
      let at : key_of o list key_id ≡ some w.key = rw is w.has_key in
      let (e, out, r, fits, q) =
        write_out-Outcome w.key (key_output o w.key opcode m) (key_output-Fitting w.key opcode m) in
      (
        w.key,
        o.pkey_size w.key,
        key_output o w.key opcode m,
        e,
        out,
        at,
        rw at,
        rw (at, hm) r,
        fits,
        key_output-IsAsked o w.key opcode m,
        q,
      )

  -- The list of keys, as the core sees it.
  abbrev pub key_store : PkList o → KeyStore
  key_store list = record {
    count = list.current;
    find = find_private_key o list;
    size = key_size o list;
    operation = private_key_operation o list;
  }

  Outcome-code :
      (r : Option (List ℕ)) (e : ErrorCode) (out : List ℕ)
      → Outcome r e out
      → (e ≡ no_error) ⊎ (e ≡ crypto_failed)
  Outcome-code r e out (failed h) = inr refl
  Outcome-code r e out (produced h) = inl refl

  -- A valid list keeps the laws that the core relies on.
  pub key_store-KeyStoreLaws : (list : PkList o) → IsValid o list → KeyStoreLaws (key_store list)
  unfolding key_size
  key_store-KeyStoreLaws list v = record {
    find_total = λ ski digest hs hd.
        let (r, e, f) = find_private_key-IsFirst o list ski digest v hs hd in
        (r, e, λ k is. found_in_use list ski digest r k f is);
    size_total = λ k h. let (x, is, w) = v.entry k h in (o.pkey_size w.key, rw (is, w.has_key));
    operation_total = λ k opcode len room message m h hr hm.
        let (_, room', _, e, out, _, hr', run, fits, _, q) =
          private_key_operation-Outcome list k opcode len message m v h hm in
        let same : room' ≡ room = some-eq-some (sym hr' ∙ hr) in
        (e, out, rw same at run, record { fits = rw same at fits; code = Outcome-code _ e out q });
  }
    where
      found_in_use :
          (list : PkList o) (ski digest : Pointer) (r : Option ℕ) (k : ℕ)
          → IsFirst o list ski digest 0 r
          → r ≡ some k
          → k < list.current
      found_in_use list ski digest none k f h = cc
      found_in_use list ski digest (some j) k f h = rw (← some-eq-some h) f.1
