-- ===== src/Worker/Linked.antt =====
-- The list of active connections: a doubly linked list whose back pointers point to pointers.
use keyless.Prelude.{
  ℕ, ◌≡◌, ◌≢◌, refl, ap, ◌∙◌, Option, none, some, List, [], ◌∷◌, ==_iff, ne→==, All,
}
use keyless.Protocol.{◌>>=◌}
use keyless.Worker.{Link, head, next_of, Cell, Worker, update}

-- `*link`
abbrev pub deref : Worker → Link → Option (Option ℕ)
deref w head = some w.active
deref w (next_of p) = w.cell p >>= λ c. some c.next

-- The state at `p` is allocated, and its back pointer is `from`.
pub record IsAt (w : Worker) (from : Link) (p : ℕ) : Type 0 where
  pub state : Cell
  pub allocated : w.cell p ≡ some state
  pub back : state.prev ≡ from

-- From a pointer on, the states of a list, each of which points back to the pointer to it.
abbrev pub Linked : Worker → Link → List ℕ → Type 0
Linked w from [] = deref w from ≡ some none
Linked w from (p ∷ ps) = (deref w from ≡ some (some p)) × IsAt w from p × Linked w (next_of p) ps

abbrev pub IsFresh : ℕ → List ℕ → Type 0
IsFresh p ps = All (λ x. x ≢ p) ps

abbrev pub IsDistinct : List ℕ → Type 0
IsDistinct [] = Unit {0}
IsDistinct (p ∷ ps) = IsFresh p ps × IsDistinct ps

-- The worker's list holds these states, each once.
pub record IsList (w : Worker) (ps : List ℕ) : Type 0 where
  pub linked : Linked w head ps
  pub distinct : IsDistinct ps

pub update_self : (f : ℕ → Option Cell) (p : ℕ) (c : Option Cell) → update f p c p ≡ c
update_self f p c = rw ((==_iff p p).1 refl)

pub update_other : (f : ℕ → Option Cell) (p q : ℕ) (c : Option Cell) → q ≢ p → update f p c q ≡ f q
update_other f p q c n = rw (ne→== q p n)

-- Two workers that agree on a part of the list.
abbrev pub Agree : Worker → Worker → List ℕ → Type 0
Agree w w' ps = All (λ x. w'.cell x ≡ w.cell x) ps

-- What a list does not touch may change.
pub Linked-Agree :
    (w w' : Worker) (from : Link) (ps : List ℕ)
    → deref w' from ≡ deref w from
    → Agree w w' ps
    → Linked w from ps
    → Linked w' from ps
Linked-Agree w w' from [] d a l = d ∙ l
Linked-Agree w w' from (p ∷ ps) d a (l, i, rest) = (
  d ∙ l,
  record { state = i.state; allocated = a.0 ∙ i.allocated; back = i.back },
  Linked-Agree w w' (next_of p) ps (ap (λ o. o >>= λ (c : Cell). some c.next) a.0) a.1 rest,
)

-- The same list behind another pointer, with the first back pointer changed.
pub Linked-moved :
    (w w' : Worker) (from to : Link) (p : ℕ) (c : Cell) (ps : List ℕ)
    → deref w' to ≡ some (some p)
    → w.cell p ≡ some c
    → w'.cell p ≡ some (record c { prev = to })
    → Agree w w' ps
    → Linked w from (p ∷ ps)
    → Linked w' to (p ∷ ps)
Linked-moved w w' from to p c ps d old now a (l, i, rest) = (
  d,
  record { state = record c { prev = to }; allocated = now; back = refl },
  Linked-Agree w w' (next_of p) ps next a rest,
)
  where
    next : deref w' (next_of p) ≡ deref w (next_of p)
    next = rw (now, old)

pub Agree-update :
    (w : Worker) (p : ℕ) (c : Option Cell) (ps : List ℕ)
    → IsFresh p ps
    → Agree w (record w { cell = update w.cell p c }) ps
Agree-update w p c [] h = tt
Agree-update w p c (q ∷ qs) h = (update_other w.cell p q c h.0, Agree-update w p c qs h.1)

pub Agree-pointwise :
    (w w' : Worker) (p q : ℕ) (ps : List ℕ)
    → IsFresh p ps
    → IsFresh q ps
    → ((x : ℕ) → x ≢ p → x ≢ q → w'.cell x ≡ w.cell x)
    → Agree w w' ps
Agree-pointwise w w' p q [] hp hq f = tt
Agree-pointwise w w' p q (x ∷ xs) hp hq f = (f x hp.0 hq.0, Agree-pointwise w w' p q xs hp.1 hq.1 f)
