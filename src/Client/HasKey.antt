-- ===== src/Client/HasKey.antt =====
-- What the test cases with a key rely on of the key, and how the protocol reacts to their requests.
use keyless.Prelude.{
  ℕ, ◌≤◌, ◌≡◌, ◌≢◌, refl, sym, ap, ◌∙◌, Option, none, some, List, [], Bool, true, false, length,
  take, replicate, All, some-eq-some,
}
use keyless.Protocol.{
  Pointer, ErrorCode, no_error, crypto_failed, key_not_found, IsByte, digest_size,
}
use keyless.Protocol.Op
use keyless.Wire.{load}
use keyless.KeyStore.{KeyStore}
use keyless.Message.{Operation}
use keyless.Message.Flatten.{field-true}
use keyless.Message.Request.{Request, Shows, no_request, field}
use keyless.Protocol.Codes.{has_code, reply_codes, key_codes}
use keyless.Core.Reacts.{
  Reacts, Finds, by_ski, by_digest, unexpected, pong, unnamed, unknown_key, no_memory, failed,
  operated, unknown_opcode, sent_payload, load-inverse,
}
use keyless.Client.Keyed.{PublicKey, flip_first}

-- The server has the private key `i` of `key`, and finds it by its digest, and no key by another
-- digest. What OpenSSL encrypts with the public key has its size, and is decrypted; zeros have no
-- right padding.
pub record HasKey (ks : KeyStore) (key : PublicKey) : Type 0 where
  pub i : ℕ
  pub digest_sized : length key.digest ≡ digest_size
  pub digest_bytes : All IsByte key.digest
  pub size : key.size ≤ 4096
  pub finds : (q : List ℕ) → take digest_size q ≡ key.digest → ks.find none (some q) ≡ some (some i)
  pub misses :
      (q : List ℕ) → take digest_size q ≡ flip_first key.digest → ks.find none (some q) ≡ some none
  pub encrypts :
      (m : List ℕ)
      → length m ≤ 55
      → All IsByte m
      → (c : List ℕ) × (key.encrypt m ≡ some c)
        × (length c ≡ key.size)
        × All IsByte c
        × ((q : Pointer) (room : ℕ)
            → load q key.size ≡ some c
            → ks.operation i Op.rsa_decrypt key.size q room ≡ some (no_error, m))
  pub zeros :
      (q : Pointer) (room : ℕ)
      → load q key.size ≡ some (replicate key.size 0)
      → ks.operation i Op.rsa_decrypt key.size q room ≡ some (crypto_failed, [])

module _ {op : Operation} {r : Request} (s : Shows op r) where
  not_set : r.ski ≡ none → op.is_ski_set ≡ false
  not_set e = go op.is_ski_set (s.ski ∙ ap some e)
    where
      go : (b : Bool) → field b op.ski 20 ≡ some none → b ≡ false
      go false h = refl
      go true h = let (d, l, e') = field-true op.ski 20 none h in cc

  -- The digest of a request can be read.
  pub digest_of :
      (d : List ℕ)
      → r.digest ≡ some d
      → (op.is_digest_set ≡ true) × (q : List ℕ) × (op.digest ≡ some q) × (take digest_size q ≡ d)
  unfolding load
  digest_of d e = go op.is_digest_set op.digest (s.digest ∙ ap some e)
    where
      go :
          (b : Bool) (q : Pointer)
          → field b q digest_size ≡ some (some d)
          → (b ≡ true) × (q' : List ℕ) × (q ≡ some q') × (take digest_size q' ≡ d)
      go false q h = cc
      go true none h = let (d', l, e') = field-true none digest_size (some d) h in cc
      go true (some q) h =
          let (d', l, e') = field-true (some q) digest_size (some d) h in
          let t = load-inverse q digest_size d' l in (refl, q, refl, t.1 ∙ sym (some-eq-some e'))

  -- A request that has no SKI and has a digest finds one key, by that digest.
  pub only_named :
      (ks : KeyStore) (d : List ℕ) (j k : Option ℕ)
      → r.ski ≡ none
      → r.digest ≡ some d
      → ((q : List ℕ) → take digest_size q ≡ d → ks.find none (some q) ≡ some k)
      → Finds ks op r j
      → j ≡ k
  only_named ks d j k e1 e2 f (by_ski d' is h) = cc
  only_named ks d j k e1 e2 f (by_digest d' none_ is h) =
      let (b, q, at, t) = digest_of d e2 in some-eq-some (sym (rw at at h) ∙ f q t)

module _ {ks : KeyStore} {op : Operation} {r : Request}
    (key_op : has_code key_codes op.opcode ≡ true)
    (no_reply : has_code reply_codes op.opcode ≡ false) (no_ping : op.opcode ≢ Op.ping) (d : List ℕ)
    (named : r.digest ≡ some d) (k : Option ℕ)
    (only : (j : Option ℕ) → Finds ks op r j → j ≡ k) where
  pub only_unknown :
      {e : ErrorCode} {shown : Request} → Reacts ks true op r e shown → k ≡ none → e ≡ key_not_found
  only_unknown (unexpected y) z = cc
  only_unknown (pong y) z = absurd (no_ping y)
  only_unknown (unnamed y e1 e2) z = cc
  only_unknown (unknown_key y g) z = refl
  only_unknown (no_memory i y g m) z = cc
  only_unknown (failed i room out y g e) z = cc (only (some i) g)
  only_unknown (operated i room out y g h l e) z = cc (only (some i) g)
  only_unknown (unknown_opcode n1 n2 n3) z = cc

  -- With a key, the code is that of the operation, and its output is sent.
  pub only_operated :
      (i : ℕ) (c : ErrorCode) (result : List ℕ) {e : ErrorCode} {shown : Request}
      → Reacts ks true op r e shown
      → k ≡ some i
      → ((room : ℕ) → ks.operation i op.opcode op.payload_len op.payload room ≡ some (c, result))
      → (e ≡ c)
        × (e ≡ no_error
            → shown ≡ record no_request {
              opcode = some Op.response;
              payload = some (sent_payload result);
            })
  only_operated i c result (unexpected y) f o = cc
  only_operated i c result (pong y) f o = absurd (no_ping y)
  only_operated i c result (unnamed y e1 e2) f o = cc
  only_operated i c result (unknown_key y g) f o = cc (only none g)
  only_operated i c result (no_memory j y g m) f o = cc
  only_operated i c result (failed j room out y g e) f o =
      let is : j ≡ i = some-eq-some (only (some j) g ∙ f) in
      let same : crypto_failed ≡ c = cc (o room) in (same, λ h. absurd (failure h))
    where
      failure : crypto_failed ≡ no_error → ⊥
      failure h = cc
  only_operated i c result (operated j room out y g h l e) f o =
      let is : j ≡ i = some-eq-some (only (some j) g ∙ f) in
      let same : no_error ≡ c = cc (o room) in
      let output : out ≡ result = cc (o room) in (same, λ h. rw output refl)
  only_operated i c result (unknown_opcode n1 n2 n3) f o = cc
