-- ===== src/Worker/Fields.antt =====
-- The fields of the states, under the stores that unlink a state.
use keyless.Prelude.{
  ℕ, ◌≡◌, ◌≢◌, inl, inr, refl, sym, ap, ◌∙◌, Option, none, some, Bool-cases, ◌==◌, ==_iff,
  some-eq-some,
}
use keyless.Protocol.{◌>>=◌, >>=-eq-some}
use keyless.Worker.{Link, head, next_of, Cell, Worker, update, write_link, write_prev}
use keyless.Worker.Linked.{deref, IsAt, update_self, update_other}
use keyless.Worker.Insert.{connection_at, modify_lem}

abbrev pub field_at {ℓ} : {A : Type ℓ} → (Cell → A) → Worker → ℕ → Option A
field_at g w r = w.cell r >>= λ c. some (g c)

abbrev pub back_at : Worker → ℕ → Option Link
back_at = field_at (λ c. c.prev)

pub IsAt-back : (w : Worker) (from : Link) (p : ℕ) → IsAt w from p → back_at w p ≡ some from
IsAt-back w from p i = rw (i.allocated, ◌>>=◌) (ap some i.back)

pub back-IsAt : (w : Worker) (from : Link) (p : ℕ) → back_at w p ≡ some from → IsAt w from p
back-IsAt w from p h =
    let (c, e, e') = >>=-eq-some (w.cell p) _ h in record { state = c; allocated = e; back = cc e' }

-- A store to a state, seen through a field.
module _ {ℓ} {A : Type ℓ} (g : Cell → A) (w : Worker) (p : ℕ) where
  abbrev stored : Cell → Worker
  stored c = record w { cell = update w.cell p (some c) }

  pub field_self : (c : Cell) → field_at g (stored c) p ≡ some (g c)
  field_self c = ap (λ o. o >>= λ (x : Cell). some (g x)) (update_self w.cell p (some c))

  pub field_other : (c : Cell) (r : ℕ) → r ≢ p → field_at g (stored c) r ≡ field_at g w r
  field_other c r n = ap (λ o. o >>= λ (x : Cell). some (g x)) (update_other w.cell p r (some c) n)

  -- A field that a store leaves is the same everywhere.
  pub field_same :
      (old c : Cell)
      → w.cell p ≡ some old
      → g c ≡ g old
      → (r : ℕ) → field_at g (stored c) r ≡ field_at g w r
  field_same old c h same r = elim (Bool-cases (r == p)) [
    | inl y ↦
        let e : r ≡ p = (==_iff r p).0 y in
        rw e (field_self c ∙ ap some same ∙ sym (ap (λ o. o >>= λ (x : Cell). some (g x)) h))
    | inr n ↦ field_other c r (λ e. cc (n, (==_iff r p).1 e))
  ]

-- A store through a pointer that can be read.
pub record LinkWritten (w : Worker) (l : Link) (a : Option ℕ) : Type 0 where
  pub after : Worker
  pub result : write_link l a w ≡ some after
  pub there : deref after l ≡ some a
  pub elsewhere : (k : Link) → k ≢ l → deref after k ≡ deref w k
  pub backs : (r : ℕ) → back_at after r ≡ back_at w r
  pub connections : (r : ℕ) → connection_at after r ≡ connection_at w r

pub write_link-LinkWritten :
    (w : Worker) (l : Link) (a old : Option ℕ) → deref w l ≡ some old → LinkWritten w l a
unfolding write_link
write_link-LinkWritten w head a old h = record {
  after = record w { active = a };
  result = refl;
  there = refl;
  elsewhere = elsewhere;
  backs = λ r. refl;
  connections = λ r. refl;
}
  where
    elsewhere : (k : Link) → k ≢ head → deref (record w { active = a }) k ≡ deref w k
    elsewhere head n = absurd (n refl)
    elsewhere (next_of x) n = refl
write_link-LinkWritten w (next_of p) a old h =
    let (c, e, _) = >>=-eq-some (w.cell p) _ h in
    let f : Cell → Cell = λ c. record c { next = a } in
    record {
      after = record w { cell = update w.cell p (some (f c)) };
      result = modify_lem p f w c e;
      there = field_self (λ x. x.next) w p (f c);
      elsewhere = elsewhere (f c);
      backs = field_same (λ x. x.prev) w p c (f c) e refl;
      connections = field_same (λ x. x.connection) w p c (f c) e refl;
    }
  where
    elsewhere :
        (c : Cell) (k : Link)
        → k ≢ next_of p
        → deref (record w { cell = update w.cell p (some c) }) k ≡ deref w k
    elsewhere c head n = refl
    elsewhere c (next_of x) n = field_other (λ x. x.next) w p c x (λ e. n (ap next_of e))

-- A store to the back pointer of a state, if there is one.
pub record PrevWritten (w : Worker) (a : Option ℕ) (l : Link) : Type 0 where
  pub after : Worker
  pub result : write_prev a l w ≡ some after
  pub links : (k : Link) → deref after k ≡ deref w k
  pub there : (r : ℕ) → a ≡ some r → back_at after r ≡ some l
  pub elsewhere : (r : ℕ) → a ≢ some r → back_at after r ≡ back_at w r
  pub connections : (r : ℕ) → connection_at after r ≡ connection_at w r

pub write_prev-PrevWritten :
    (w : Worker) (a : Option ℕ) (l : Link)
    → ((r : ℕ) → a ≡ some r → (c : Cell) × (w.cell r ≡ some c))
    → PrevWritten w a l
unfolding write_prev
write_prev-PrevWritten w none l h = record {
  after = w;
  result = refl;
  links = λ k. refl;
  there = λ r e. absurd (cc e);
  elsewhere = λ r n. refl;
  connections = λ r. refl;
}
write_prev-PrevWritten w (some p) l h =
    let (c, e) = h p refl in
    let f : Cell → Cell = λ c. record c { prev = l } in
    record {
      after = record w { cell = update w.cell p (some (f c)) };
      result = modify_lem p f w c e;
      links = links c (f c) e refl;
      there = λ r q. rw (sym (some-eq-some q)) (field_self (λ x. x.prev) w p (f c));
      elsewhere = λ r n. field_other (λ x. x.prev) w p (f c) r (λ e. n (ap some (sym e)));
      connections = field_same (λ x. x.connection) w p c (f c) e refl;
    }
  where
    links :
        (old c : Cell)
        → w.cell p ≡ some old
        → c.next ≡ old.next
        → (k : Link) → deref (record w { cell = update w.cell p (some c) }) k ≡ deref w k
    links old c e s head = refl
    links old c e s (next_of x) = field_same (λ x. x.next) w p old c e s x
