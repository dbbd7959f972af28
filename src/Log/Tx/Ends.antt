-- ===== src/Log/Tx/Ends.antt =====
-- The end of an action: what holds of the state, however it ends, and of a value that it returns
-- and the state together.
use trillian.Prelude.{
  Outcome, ok, err, panic, out_of_fuel, Bool, true, false, ◌≡◌, refl, subst, if◌then◌else◌,
}
use trillian.Log.Tx.{Action, after, return, fail, lift, rolled_back}
use trillian.Log.Tx.Returned.{value}

pub record Ends {T E A : Type 0} (S : T → Type 0) (Q : A → T → Type 0) (p : T × Outcome E A)
    : Type 0 where
  pub state : S p.0
  pub holds : (a : A) → p.1 ≡ ok a → Q a p.0

module _ {T E : Type 0} where
  pub Ends-into :
      {S S' : T → Type 0} {A B : Type 0} {P : A → T → Type 0} {Q : B → T → Type 0}
      (p : T × Outcome E A) (k : A → Action T E B)
      → ((t : T) → S t → S' t)
      → Ends S P p
      → ((a : A) (t : T) → S t → P a t → Ends S' Q (k a t))
      → Ends S' Q (after p k)
  Ends-into (t, ok a) k weaker first next = next a t first.state (first.holds a refl)
  Ends-into (t, err e) k weaker first next = record {
    state = weaker t first.state;
    holds = λ b h. absurd (cc);
  }
  Ends-into (t, panic) k weaker first next = record {
    state = weaker t first.state;
    holds = λ b h. absurd (cc);
  }
  Ends-into (t, out_of_fuel) k weaker first next = record {
    state = weaker t first.state;
    holds = λ b h. absurd (cc);
  }

module _ {T E : Type 0} {S : T → Type 0} where
  pub Ends-after :
      {A B : Type 0} {P : A → T → Type 0} {Q : B → T → Type 0} (p : T × Outcome E A)
      (k : A → Action T E B)
      → Ends S P p
      → ((a : A) (t : T) → S t → P a t → Ends S Q (k a t))
      → Ends S Q (after p k)
  Ends-after p k first next = Ends-into p k (λ t h. h) first next

  pub Ends-return :
      {A : Type 0} {Q : A → T → Type 0} (a : A) (t : T)
      → S t
      → Q a t
      → Ends {E = E} S Q (return a t)
  Ends-return {Q = Q} a t s h = record {
    state = s;
    holds = λ b e. subst (λ x. Q x t) (value a b e) h;
  }

  pub Ends-fail :
      {A : Type 0} {Q : A → T → Type 0} (e : E) (t : T) → S t → Ends S Q (fail {A = A} e t)
  Ends-fail e t s = record { state = s; holds = λ b h. absurd (cc) }

  -- A result that leaves the state alone.
  pub Ends-lift :
      {A : Type 0} (r : Outcome E A) (t : T) → S t → Ends S (λ a t'. r ≡ ok a) (lift r t)
  Ends-lift r t s = record { state = s; holds = λ a h. h }

  pub Ends-if :
      {A : Type 0} {Q : A → T → Type 0} (c : Bool) (m k : Action T E A) (t : T)
      → (c ≡ true → Ends S Q (m t))
      → (c ≡ false → Ends S Q (k t))
      → Ends S Q ((if c then m else k) t)
  Ends-if true m k t first second = first refl
  Ends-if false m k t first second = second refl

  pub Ends-weaken :
      {A : Type 0} {S' : T → Type 0} {P Q : A → T → Type 0} (p : T × Outcome E A)
      → Ends S P p
      → (S p.0 → S' p.0)
      → ((a : A) → S p.0 → P a p.0 → Q a p.0)
      → Ends S' Q p
  Ends-weaken p e weaker weaker_value = record {
    state = weaker e.state;
    holds = λ a h. weaker_value a e.state (e.holds a h);
  }

-- Two accounts of one end.
pub Ends-both :
    {T E A : Type 0} {S U : T → Type 0} {P Q : A → T → Type 0} (p : T × Outcome E A)
    → Ends S P p
    → Ends U Q p
    → Ends S (λ a t. P a t × Q a t) p
Ends-both p e f = record { state = e.state; holds = λ a h. (e.holds a h, f.holds a h) }

-- A transaction keeps what holds before it and at each end that is committed.
pub Ends-rolled_back :
    {T E A : Type 0} {S U : T → Type 0} (s : T) (p : T × Outcome E A)
    → S s
    → Ends U (λ a t. S t) p
    → Ends S (λ a t. Unit {0}) (rolled_back s p)
Ends-rolled_back s (t, ok a) h e = record { state = e.holds a refl; holds = λ b x. tt }
Ends-rolled_back s (t, err x) h e = record { state = h; holds = λ b x. tt }
Ends-rolled_back s (t, panic) h e = record { state = h; holds = λ b x. tt }
Ends-rolled_back s (t, out_of_fuel) h e = record { state = h; holds = λ b x. tt }
