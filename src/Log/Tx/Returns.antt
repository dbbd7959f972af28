-- ===== src/Log/Tx/Returns.antt =====
-- Actions that return a value, from the parts that do.
use trillian.Prelude.{
  ◌≡◌, refl, sym, subst, Outcome, ok, err, panic, out_of_fuel, Bool, true, false, if◌then◌else◌,
}
use trillian.Log.Tx.{Action, after, return, fail}
use trillian.Log.Tx.Returned.{value}

-- An action returns a value.
abbrev pub Returns : {T E A : Type 0} → T × Outcome E A → Type 0
Returns {A = A} p = (a : A) × (p.1 ≡ ok a)

pub Returns-after :
    {T E A B : Type 0} (p : T × Outcome E A) (k : A → Action T E B)
    → Returns p
    → ((a : A) (t : T) → p.1 ≡ ok a → Returns (k a t))
    → Returns (after p k)
Returns-after (t, ok a) k first next = next a t refl
Returns-after (t, err e) k (a, is) next = absurd (cc)
Returns-after (t, panic) k (a, is) next = absurd (cc)
Returns-after (t, out_of_fuel) k (a, is) next = absurd (cc)

-- The same where the state matters that the first part leaves.
pub Returns-then :
    {T E A B : Type 0} (a : A) (p : T × Outcome E A) (k : A → Action T E B)
    → p.1 ≡ ok a
    → Returns (k a p.0)
    → Returns (after p k)
Returns-then a (t, ok b) k is next = subst (λ x. Returns (k x t)) (value a b (sym is)) next
Returns-then a (t, err e) k is next = absurd (cc)
Returns-then a (t, panic) k is next = absurd (cc)
Returns-then a (t, out_of_fuel) k is next = absurd (cc)

pub Returns-check :
    {T E : Type 0} (c : Bool) (e : E) (t : T)
    → c ≡ true
    → Returns {E = E} ((if c then return tt else fail e) t)
Returns-check true e t h = (tt, refl)
Returns-check false e t h = absurd (cc)

pub Returns-if :
    {T E A : Type 0} (c : Bool) (m k : Action T E A) (t : T)
    → Returns (m t)
    → Returns (k t)
    → Returns ((if c then m else k) t)
Returns-if true m k t first second = first
Returns-if false m k t first second = second
