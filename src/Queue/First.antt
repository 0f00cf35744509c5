-- ===== src/Queue/First.antt =====
-- What sent_some does to a queue that holds its entry first.
use keyless.Prelude.{
  ℕ, zero, suc, ◌+◌, ◌-◌, ◌%◌, ◌<◌, ◌≡◌, ◌≢◌, ap, ◌∙◌, arith, some, List, ◌∷◌, ==_iff, ne→==,
  length, get_elem?, set, drop, length-set, get_elem?-set_self, get_elem?-set_ne,
}
use keyless.Queue.Holds.{Holds}
use keyless.Queue.Enqueue.{put_entry-set, step-mod}
use keyless.Queue.{Queue, Queued, sent_some}

-- The entry after `rc` of its bytes were taken.
abbrev pub rest_of : Queued → ℕ → Queued
rest_of e rc = record e { len = e.len - rc; send = drop rc e.send }

module _ (s : Queue) (e : Queued) (xs : List Queued) (rc : ℕ) (h : Holds s (e ∷ xs)) where
  pub first : get_elem? s.q s.qr ≡ some e
  first =
      let z : s.qr ≡ (s.qr + 0) % 16 = omega (arith, h.read_in) in
      ap (get_elem? s.q) z ∙ h.item 0 (omega arith)

  pub sent_some-done :
      e.len - rc ≡ 0
      → sent_some s e rc
        ≡ some (record { q = set s.q s.qr (rest_of e rc); qr = (s.qr + 1) % 16; qw = s.qw })
  unfolding sent_some
  sent_some-done z = rw (
    put_entry-set s.q s.qr (rest_of e rc) (omega (arith, h.sized, h.read_in)),
    (==_iff (e.len - rc) 0).1 z,
    step-mod s.qr h.read_in,
  )

  pub sent_some-more :
      e.len - rc ≢ 0 → sent_some s e rc ≡ some (record s { q = set s.q s.qr (rest_of e rc) })
  unfolding sent_some
  sent_some-more z = rw (
    put_entry-set s.q s.qr (rest_of e rc) (omega (arith, h.sized, h.read_in)),
    ne→== (e.len - rc) 0 z,
  )

  -- The entries behind the first are not touched.
  behind :
      (k : ℕ)
      → k < length xs
      → get_elem? (set s.q s.qr (rest_of e rc)) ((s.qr + suc k) % 16) ≡ get_elem? xs k
  behind k lt =
      get_elem?-set_ne s.q s.qr ((s.qr + suc k) % 16) (rest_of e rc) apart
      ∙ h.item (suc k) (omega arith)
    where
      apart : s.qr ≢ (s.qr + suc k) % 16
      apart = omega (arith, h.count, h.read_in, h.write_in)

  pub done-Holds :
      Holds (record { q = set s.q s.qr (rest_of e rc); qr = (s.qr + 1) % 16; qw = s.qw }) xs
  done-Holds = record {
    sized = length-set s.q s.qr (rest_of e rc) ∙ h.sized;
    read_in = omega arith;
    write_in = h.write_in;
    count = omega (arith, h.count, h.read_in, h.write_in);
    item = λ k lt.
        let next : ((s.qr + 1) % 16 + k) % 16 ≡ (s.qr + suc k) % 16 = omega arith in
        ap (get_elem? (set s.q s.qr (rest_of e rc))) next ∙ behind k lt;
  }

  more_item :
      (k : ℕ)
      → k < suc (length xs)
      → get_elem? (set s.q s.qr (rest_of e rc)) ((s.qr + k) % 16) ≡ get_elem? (rest_of e rc ∷ xs) k
  more_item zero lt =
      let z : (s.qr + 0) % 16 ≡ s.qr = omega (arith, h.read_in) in
      ap (get_elem? (set s.q s.qr (rest_of e rc))) z
      ∙ get_elem?-set_self s.q s.qr (rest_of e rc) (omega (arith, h.sized, h.read_in))
  more_item (suc k) lt = behind k (omega arith)

  pub more-Holds : Holds (record s { q = set s.q s.qr (rest_of e rc) }) (rest_of e rc ∷ xs)
  more-Holds = record {
    sized = length-set s.q s.qr (rest_of e rc) ∙ h.sized;
    read_in = h.read_in;
    write_in = h.write_in;
    count = h.count;
    item = more_item;
  }
