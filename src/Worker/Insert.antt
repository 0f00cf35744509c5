-- ===== src/Worker/Insert.antt =====
-- initialize_state puts a new state in front of the list.
use keyless.Prelude.{
  ℕ, ◌≡◌, ◌≢◌, refl, sym, ap, ◌∙◌, Option, none, some, List, [], ◌∷◌, false, some-eq-some, ◌==◌,
  ==_iff, ne→==, Bool-cases, inl, inr,
}
use keyless.Protocol.{◌>>=◌}
use keyless.ConnectionState.{Connection}
use keyless.Worker.{
  head, next_of, Cell, Worker, update, modify, write_prev, initialize_state, initial,
}
use keyless.Worker.Linked.{
  IsFresh, IsList, update_self, update_other, Linked-moved, Agree-pointwise,
}

-- The connection at an address.
abbrev pub connection_at : Worker → ℕ → Option Connection
connection_at w p = w.cell p >>= λ c. some c.connection

pub modify_lem :
    (p : ℕ) (f : Cell → Cell) (w : Worker) (c : Cell)
    → w.cell p ≡ some c
    → modify p f w ≡ some (record w { cell = update w.cell p (some (f c)) })
unfolding modify
modify_lem p f w c h = rw h

pub record Inserted (w : Worker) (p : ℕ) (m : Cell) (ps : List ℕ) : Type 0 where
  pub after : Worker
  pub result : initialize_state p w ≡ some after
  pub list : IsList after (p ∷ ps)
  pub own : connection_at after p ≡ some (initial m.connection)
  pub others : (x : ℕ) → x ≢ p → connection_at after x ≡ connection_at w x

module _ (w : Worker) (p : ℕ) (m : Cell) (h : w.cell p ≡ some m) where
  abbrev placed : Cell
  placed = record m { prev = head; next = w.active }

  abbrev ready : Cell
  ready = record placed { connection = initial m.connection }

  insert-empty : IsList w [] → Inserted w p m []
  unfolding initialize_state write_prev
  insert-empty l =
      let none_active : w.active ≡ none = some-eq-some l.linked in
      let f : ℕ → Option Cell = update w.cell p (some placed) in
      let w' : Worker = record { active = some p; cell = update f p (some ready) } in
      let now : w'.cell p ≡ some ready = update_self f p (some ready) in
      record {
        after = w';
        result = rw (h, none_active, (==_iff p p).1 refl);
        list = record {
          linked = (
            refl,
            record { state = ready; allocated = now; back = refl },
            rw now (ap some none_active),
          );
          distinct = (tt, tt);
        };
        own = rw now;
        others = λ x n.
            ap (λ o. o >>= λ (c : Cell). some c.connection)
              (update_other f p x (some ready) n ∙ update_other w.cell p x (some placed) n);
      }

  -- The old first state points back to the new one.
  insert-front :
      (q : ℕ) (qs : List ℕ) → IsFresh p (q ∷ qs) → IsList w (q ∷ qs) → Inserted w p m (q ∷ qs)
  unfolding initialize_state write_prev
  insert-front q qs fresh l =
      let n1 : (q == p) ≡ false = ne→== q p fresh.0 in
      let n2 : (p == q) ≡ false = ne→== p q (λ e. fresh.0 (sym e)) in
      let first : w.active ≡ some q = some-eq-some l.linked.0 in
      let i = l.linked.1 in
      let c : Cell = i.state in
      let moved : Cell = record c { prev = next_of p } in
      let f : ℕ → Option Cell = update w.cell p (some placed) in
      let g : ℕ → Option Cell = update f q (some moved) in
      let w' : Worker = record { active = some p; cell = update g p (some ready) } in
      let now : w'.cell p ≡ some ready = update_self g p (some ready) in
      record {
        after = w';
        result = rw (h, first, n1, i.allocated, (==_iff p p).1 refl, n2);
        list = record {
          linked = (
            refl,
            record { state = ready; allocated = now; back = refl },
            Linked-moved w w' head (next_of p) q c qs (rw now (ap some first)) i.allocated
                (rw (n1, (==_iff q q).1 refl))
                (Agree-pointwise w w' p q qs fresh.1 l.distinct.0 (λ x np nq.
                  update_other g p x (some ready) np
                  ∙ update_other f q x (some moved) nq
                  ∙ update_other w.cell p x (some placed) np))
                l.linked,
          );
          distinct = (fresh, l.distinct);
        };
        own = rw now;
        others = λ x n.
            ap (λ o. o >>= λ (c : Cell). some c.connection) (update_other g p x (some ready) n)
            ∙ elim (Bool-cases (x == q)) [
              | inl y ↦ let e : x ≡ q = (==_iff x q).0 y in rw (y, e, i.allocated)
              | inr d ↦
                  ap (λ o. o >>= λ (c : Cell). some c.connection)
                    (update_other f q x (some moved) (λ e. cc (d, (==_iff x q).1 e))
                      ∙ update_other w.cell p x (some placed) n)
            ];
      }

-- On a list that does not have `p`, where memory for a state is at `p`, initialize_state ends
-- without a fault. The list has `p` in front then; the new connection has no buffers queued and
-- nothing to read, and the others are what they were.
pub initialize_state-Inserted :
    (w : Worker) (p : ℕ) (m : Cell) (ps : List ℕ)
    → w.cell p ≡ some m
    → IsFresh p ps
    → IsList w ps
    → Inserted w p m ps
initialize_state-Inserted w p m [] h fresh l = insert-empty w p m h l
initialize_state-Inserted w p m (q ∷ qs) h fresh l = insert-front w p m h q qs fresh l
