-- ===== src/Log/Tx/Returned.antt =====
-- What holds of the value that an action returns, if it returns one.
use trillian.Prelude.{
  ℕ, zero, suc, Outcome, ok, err, panic, out_of_fuel, Bool, true, false, ◌≡◌, refl, sym, subst,
  if◌then◌else◌,
}
use trillian.Log.Tx.{Action, after, return, fail, Transactions, closed, attempt, unless_ok, tries}

pub record Gives {T E A : Type 0} (P : A → Type 0) (p : T × Outcome E A) : Type 0 where
  pub holds : (a : A) → p.1 ≡ ok a → P a

pub value : {E A : Type 0} (a b : A) → ◌≡◌ {A = Outcome E A} (ok a) (ok b) → a ≡ b
value a b e = cc

module _ {T E : Type 0} where
  pub Gives-after :
      {A B : Type 0} {P : A → Type 0} {Q : B → Type 0} (p : T × Outcome E A) (k : A → Action T E B)
      → Gives P p
      → ((a : A) (t : T) → P a → Gives Q (k a t))
      → Gives Q (after p k)
  Gives-after (t, ok a) k first next = next a t (first.holds a refl)
  Gives-after (t, err e) k first next = record { holds = λ b h. absurd (cc) }
  Gives-after (t, panic) k first next = record { holds = λ b h. absurd (cc) }
  Gives-after (t, out_of_fuel) k first next = record { holds = λ b h. absurd (cc) }

  -- The same where the state matters that the first part leaves.
  pub Gives-then :
      {A B : Type 0} {Q : B → Type 0} (a : A) (p : T × Outcome E A) (k : A → Action T E B)
      → p.1 ≡ ok a
      → Gives Q (k a p.0)
      → Gives Q (after p k)
  Gives-then {Q = Q} a (t, ok b) k is next = subst (λ x. Gives Q (k x t)) (value a b (sym is)) next
  Gives-then a (t, err e) k is next = absurd (cc)
  Gives-then a (t, panic) k is next = absurd (cc)
  Gives-then a (t, out_of_fuel) k is next = absurd (cc)

  -- Whatever it is, it is what was returned.
  pub Gives-any : {A : Type 0} (p : T × Outcome E A) → Gives (λ (a : A). p.1 ≡ ok a) p
  Gives-any p = record { holds = λ a h. h }

  pub Gives-return :
      {A : Type 0} {P : A → Type 0} (a : A) (t : T) → P a → Gives {E = E} P (return a t)
  Gives-return {A} {P} a t h = record { holds = λ b e. subst P (value a b e) h }

  pub Gives-fail : {A : Type 0} {P : A → Type 0} (e : E) (t : T) → Gives P (fail {A = A} e t)
  Gives-fail e t = record { holds = λ b h. absurd (cc) }

  -- A check.
  pub Gives-check :
      (c : Bool) (e : E) (t : T)
      → Gives (λ (u : Unit {0}). c ≡ true) ((if c then return tt else fail e) t)
  Gives-check true e t = record { holds = λ u h. refl }
  Gives-check false e t = Gives-fail e t

  pub Gives-if :
      {A : Type 0} {P : A → Type 0} (c : Bool) (m k : Action T E A) (t : T)
      → Gives P (m t)
      → Gives P (k t)
      → Gives P ((if c then m else k) t)
  Gives-if true m k t first second = first
  Gives-if false m k t first second = second

  pub Gives-weaken :
      {A : Type 0} {P Q : A → Type 0} (p : T × Outcome E A)
      → Gives P p
      → ((a : A) → P a → Q a)
      → Gives Q p
  Gives-weaken p g weaker = record { holds = λ a h. weaker a (g.holds a h) }

  Gives-closed :
      {A : Type 0} {P : A → Type 0} (rollback : T → T) (p : T × Outcome E A)
      → Gives P p
      → Gives P (closed rollback p)
  Gives-closed rollback (t, ok a) g = g
  Gives-closed rollback (t, err e) g = record { holds = λ b h. absurd (cc) }
  Gives-closed rollback (t, panic) g = record { holds = λ b h. absurd (cc) }
  Gives-closed rollback (t, out_of_fuel) g = record { holds = λ b h. absurd (cc) }

  -- An action returns a value in some state.
  abbrev pub ReturnedAt : {A : Type 0} → Action T E A → A → Type 0
  ReturnedAt m a = (t : T) × ((m t).1 ≡ ok a)

  Gives-attempt :
      {A : Type 0} (tx : Transactions T E) (m : Action T E A) (t : T)
      → Gives (ReturnedAt m) (attempt tx m t)
  unfolding attempt
  Gives-attempt tx m t = Gives-after (tx.begin t) _ (Gives-any _) (λ u t₁ begun.
      Gives-closed tx.rollback _ (
        Gives-after (m t₁) _ (Gives-any _) (λ a t₂ is.
          Gives-after (tx.commit t₂) _ (Gives-any _)
            (λ u t₃ committed. Gives-return a t₃ (t₁, is)))))

  Gives-unless_ok :
      {A : Type 0} {P : A → Type 0} (p : T × Outcome E A) (again : Action T E A)
      → Gives P p
      → ((t : T) → Gives P (again t))
      → Gives P (unless_ok p again)
  Gives-unless_ok (t, ok a) again g later = g
  Gives-unless_ok (t, err e) again g later = later t
  Gives-unless_ok (t, panic) again g later = record { holds = λ b h. absurd (cc) }
  Gives-unless_ok (t, out_of_fuel) again g later = record { holds = λ b h. absurd (cc) }

  -- What a transaction returns, at whatever try, its action returned.
  pub Gives-tries :
      {A : Type 0} (n : ℕ) (tx : Transactions T E) (m : Action T E A) (t : T)
      → Gives (ReturnedAt m) (tries n tx m t)
  unfolding tries
  Gives-tries zero tx m t = Gives-attempt tx m t
  Gives-tries (suc n) tx m t =
      Gives-unless_ok (attempt tx m t) (tries n tx m) (Gives-attempt tx m t)
        (λ t'. Gives-tries n tx m t')
