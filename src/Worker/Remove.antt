-- ===== src/Worker/Remove.antt =====
-- The unlinking of try_shutdown takes one state out of the list.
use keyless.Prelude.{
  ℕ, ◌≡◌, ◌≢◌, refl, sym, ap, ◌∙◌, Option, none, some, List, [], ◌∷◌, ◌++◌, All, All-append,
  some-eq-some,
}
use keyless.Protocol.{◌>>=◌}
use keyless.Worker.{Link, head, next_of, Cell, Worker, unlink}
use keyless.Worker.Linked.{deref, IsAt, Linked, IsFresh, IsDistinct, IsList}
use keyless.Worker.Insert.{connection_at}
use keyless.Worker.Fields.{
  back_at, IsAt-back, back-IsAt, write_link-LinkWritten, write_prev-PrevWritten,
}

-- The pointer to what follows `xs`.
abbrev pub before : Link → List ℕ → Link
before from [] = from
before from (x ∷ xs) = before (next_of x) xs

abbrev first_of : List ℕ → Option ℕ
first_of [] = none
first_of (q ∷ qs) = some q

All-map {ℓ κ μ} :
    {A : Type ℓ} (P : A → Type κ) (Q : A → Type μ) (xs : List A)
    → ((x : A) → P x → Q x)
    → All P xs
    → All Q xs
All-map P Q [] f h = tt
All-map P Q (x ∷ xs) f h = (f x h.0, All-map P Q xs f h.1)

-- The pointers to the states of `xs`, the pointer behind the last one left out, are not `l`.
abbrev Apart : Link → Link → List ℕ → Type 0
Apart l from [] = Unit {0}
Apart l from (x ∷ xs) = (from ≢ l) × Apart l (next_of x) xs

before_differs :
    (from : Link) (x : ℕ) (xs : List ℕ)
    → All (λ z. from ≢ next_of z) (x ∷ xs)
    → from ≢ before (next_of x) xs
before_differs from x [] h = h.0
before_differs from x (y ∷ ys) h = before_differs from y ys h.1

next-injective : (x y : ℕ) → next_of x ≡ next_of y → x ≡ y
next-injective x y e = cc e

fresh_links : (x : ℕ) (xs : List ℕ) → IsFresh x xs → All (λ z. next_of x ≢ next_of z) xs
fresh_links x xs h =
    All-map (λ z. z ≢ x) (λ z. next_of x ≢ next_of z) xs (λ z n e. n (sym (next-injective x z e))) h

before-Apart :
    (from : Link) (xs : List ℕ)
    → All (λ z. from ≢ next_of z) xs
    → IsDistinct xs
    → Apart (before from xs) from xs
before-Apart from [] h d = tt
before-Apart from (x ∷ xs) h d =
    (before_differs from x xs h, before-Apart (next_of x) xs (fresh_links x xs d.0) d.1)

-- What the distinctness of the whole list says of its parts.
pub record Parts (xs : List ℕ) (p : ℕ) (ys : List ℕ) : Type 0 where
  pub front : IsDistinct xs
  pub back : IsDistinct ys
  pub both : IsDistinct (xs ++ ys)
  pub fresh : IsFresh p ys
  pub across : All (λ x. IsFresh x ys) xs

pub distinct-Parts : (xs : List ℕ) (p : ℕ) (ys : List ℕ) → IsDistinct (xs ++ p ∷ ys) → Parts xs p ys
distinct-Parts [] p ys d = record { front = tt; back = d.1; both = d.1; fresh = d.0; across = tt }
distinct-Parts (x ∷ xs) p ys d =
    let r = distinct-Parts xs p ys d.1 in
    let (a, b) = All-append (λ z. z ≢ x) xs (p ∷ ys) d.0 in
    record {
      front = (a, r.front);
      back = r.back;
      both = (join x xs ys a b.1, r.both);
      fresh = r.fresh;
      across = (b.1, r.across);
    }
  where
    join : (x : ℕ) (xs ys : List ℕ) → IsFresh x xs → IsFresh x ys → IsFresh x (xs ++ ys)
    join x [] ys hx hy = hy
    join x (z ∷ zs) ys hx hy = (hx.0, join x zs ys hx.1 hy)

-- No state of `ys` holds the pointer behind `xs`.
away :
    (from : Link) (xs ys : List ℕ)
    → All (λ z. from ≢ next_of z) ys
    → All (λ x. IsFresh x ys) xs
    → All (λ z. next_of z ≢ before from xs) ys
away from [] ys h a =
    All-map (λ z. from ≢ next_of z) (λ z. next_of z ≢ from) ys (λ z n e. n (sym e)) h
away from (x ∷ xs) ys h a = away (next_of x) xs ys (fresh_links x ys a.0) a.1

not_first : (xs ys : List ℕ) → All (λ x. IsFresh x ys) xs → All (λ x. first_of ys ≢ some x) xs
not_first xs [] a = All-map _ (λ x. none ≢ some x) xs (λ x _ e. cc e) a
not_first xs (q ∷ qs) a = All-map _ (λ x. some q ≢ some x) xs (λ x f e. f.0 (some-eq-some e)) a

split-Linked :
    (w : Worker) (from : Link) (xs : List ℕ) (p : ℕ) (ys : List ℕ)
    → Linked w from (xs ++ p ∷ ys)
    → (deref w (before from xs) ≡ some (some p))
      × IsAt w (before from xs) p
      × Linked w (next_of p) ys
split-Linked w from [] p ys l = l
split-Linked w from (x ∷ xs) p ys l = split-Linked w (next_of x) xs p ys l.2

first-deref :
    (w : Worker) (from : Link) (ys : List ℕ) → Linked w from ys → deref w from ≡ some (first_of ys)
first-deref w from [] l = l
first-deref w from (q ∷ qs) l = l.0

-- A worker in which the pointer `l` is led to `n`, and nothing else is changed but the back pointer
-- of `n`.
record Relinked (w w' : Worker) (l : Link) (n : Option ℕ) : Type 0 where
  there : deref w' l ≡ some n
  elsewhere : (k : Link) → k ≢ l → deref w' k ≡ deref w k
  front : (r : ℕ) → n ≡ some r → back_at w' r ≡ some l
  backs : (r : ℕ) → n ≢ some r → back_at w' r ≡ back_at w r

module _ (w w' : Worker) (l : Link) (n : Option ℕ) (f : Relinked w w' l n) where
  keeps-IsAt : (from : Link) (r : ℕ) → n ≢ some r → IsAt w from r → IsAt w' from r
  keeps-IsAt from r ne i = back-IsAt w' from r (f.backs r ne ∙ IsAt-back w from r i)

  keeps-Linked :
      (from : Link) (zs : List ℕ)
      → from ≢ l
      → All (λ z. next_of z ≢ l) zs
      → All (λ z. n ≢ some z) zs
      → Linked w from zs
      → Linked w' from zs
  keeps-Linked from [] d h m k = f.elsewhere from d ∙ k
  keeps-Linked from (z ∷ zs) d h m (k, i, rest) = (
    f.elsewhere from d ∙ k,
    keeps-IsAt from z m.0 i,
    keeps-Linked (next_of z) zs h.0 h.1 m.1 rest,
  )

  relink :
      (from : Link) (xs : List ℕ) (p : ℕ) (ys : List ℕ)
      → before from xs ≡ l
      → first_of ys ≡ n
      → Apart l from xs
      → All (λ z. next_of z ≢ l) ys
      → All (λ z. n ≢ some z) xs
      → IsDistinct ys
      → Linked w from (xs ++ p ∷ ys)
      → Linked w' from (xs ++ ys)
  relink from [] p [] b e a h m d k = ap (deref w') b ∙ f.there ∙ ap some (sym e)
  relink from [] p (q ∷ qs) b e a h m d k = (
    ap (deref w') b ∙ f.there ∙ ap some (sym e),
    back-IsAt w' from q (f.front q (sym e) ∙ ap some (sym b)),
    keeps-Linked (next_of q) qs h.0 h.1
        (All-map (λ z. z ≢ q) (λ z. n ≢ some z) qs (λ z ne e'. ne (sym (some-eq-some (e ∙ e'))))
          d.0)
        k.2.2,
  )
  relink from (x ∷ xs) p ys b e a h m d (k, i, rest) = (
    f.elsewhere from a.0 ∙ k,
    keeps-IsAt from x m.0 i,
    relink (next_of x) xs p ys b e a.1 h m.1 d rest,
  )

points_back :
    (w : Worker) (p : ℕ) (ys : List ℕ)
    → Linked w (next_of p) ys
    → (r : ℕ) → first_of ys ≡ some r
    → back_at w r ≡ some (next_of p)
points_back w p [] l r e = absurd (cc e)
points_back w p (q ∷ qs) l r e = rw (← some-eq-some e) (IsAt-back w (next_of p) q l.1)

-- What unlinking a state leads to: it leaves the list, and stays allocated.
pub record Unlinked (w : Worker) (xs : List ℕ) (p : ℕ) (ys : List ℕ) : Type 0 where
  pub after : Worker
  pub result : unlink p w ≡ some after
  pub list : IsList after (xs ++ ys)
  pub connections : (x : ℕ) → connection_at after x ≡ connection_at w x

-- On a list that has `p` anywhere, the two stores that take it out do not fault, and they leave the
-- list of the others, in their order, with every connection as it was.
pub unlink-Unlinked :
    (w : Worker) (xs : List ℕ) (p : ℕ) (ys : List ℕ) → IsList w (xs ++ p ∷ ys) → Unlinked w xs p ys
unfolding unlink
unlink-Unlinked w xs p ys list =
    let parts = distinct-Parts xs p ys list.distinct in
    let (d, i, rest) = split-Linked w head xs p ys list.linked in
    let c : Cell = i.state in
    let l : Link = before head xs in
    let next : c.next ≡ first_of ys = some-eq-some (
      ap (λ o. o >>= λ (c : Cell). some c.next) (sym i.allocated)
      ∙ first-deref w (next_of p) ys rest) in
    let a = write_link-LinkWritten w l c.next (some p) d in
    let b = write_prev-PrevWritten a.after c.next l (λ r e.
      let at =
        back-IsAt a.after (next_of p) r (a.backs r ∙ points_back w p ys rest r (sym next ∙ e)) in
      (at.state, at.allocated)) in
    record {
      after = b.after;
      result = rw (i.allocated, i.back, a.result, b.result);
      list = record {
        linked =
            relink w b.after l c.next
              (record {
                there = b.links l ∙ a.there;
                elsewhere = λ k n. b.links k ∙ a.elsewhere k n;
                front = b.there;
                backs = λ r n. b.elsewhere r n ∙ a.backs r;
              })
              head xs p ys refl (sym next) (before-Apart head xs (no_head xs) parts.front)
              (away head xs ys (no_head ys) parts.across)
              (rw (← next) at (not_first xs ys parts.across)) parts.back list.linked;
        distinct = parts.both;
      };
      connections = λ x. b.connections x ∙ a.connections x;
    }
  where
    no_head : (zs : List ℕ) → All (λ z. head ≢ next_of z) zs
    no_head [] = tt
    no_head (z ∷ zs) = ((λ e. cc e), no_head zs)
