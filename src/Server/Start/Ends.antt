-- ===== src/Server/Start/Ends.antt =====
-- keyless.c: a part of main that goes on.
use keyless.Prelude.{◌≡◌, refl, ap}
use keyless.Server.Options.{Result, fault, exits, goes, ◌>>+◌}

pub from_goes : {A : Type 0} → A → Result A → A
from_goes d (goes a) = a
from_goes d _ = d

pub goes_inj : {A : Type 0} {a b : A} → goes a ≡ goes b → a ≡ b
unfolding from_goes
goes_inj {a} h = ap (from_goes a) h

-- A chain that goes on went on at its first part.
pub >>+-goes :
    {A B : Type 0} (r : Result A) (f : A → Result B) (b : B)
    → (r >>+ f) ≡ goes b
    → (a : A) × (r ≡ goes a) × (f a ≡ goes b)
>>+-goes fault f b h = cc
>>+-goes (exits n) f b h = cc
>>+-goes (goes a) f b h = (a, refl, h)
