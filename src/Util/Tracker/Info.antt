-- ===== src/Util/Tracker/Info.antt =====
-- What HeldInfo of util/tracker.go prints.
use trillian.Prelude.{
  ◌≡◌, refl, List, [], ◌∷◌, Bool, true, false, if◌then◌else◌, arith, Bool-cases, inl, inr,
}
use trillian.Prelude.Int.{ℤ, eqb_ℤ, ltb_ℤ}
use trillian.Util.Tracker.{Shown, number, dots, shows, held_info}

abbrev pub member : List ℤ → ℤ → Bool
member [] id = false
member (h ∷ held) id = if eqb_ℤ h id then true else member held id

abbrev pub AllAbove : ℤ → List ℤ → Type 0
AllAbove h [] = Unit {0}
AllAbove h (x ∷ xs) = (ltb_ℤ h x ≡ true) × AllAbove h xs

abbrev pub Increasing : List ℤ → Type 0
Increasing [] = Unit {0}
Increasing (h ∷ held) = AllAbove h held × Increasing held

not_above :
    (h id : ℤ) (held : List ℤ) → AllAbove h held → ltb_ℤ h id ≡ false → member held id ≡ false
not_above h id [] above past = refl
not_above h id (x ∷ held) (first, rest) past =
    let other : eqb_ℤ x id ≡ false = ground arith in rw other (not_above h id held rest past)

shows_number : (id : ℤ) (held : List ℤ) → Increasing held → shows held id (number id) ≡ number id
unfolding shows
shows_number id [] increasing = refl
shows_number id (h ∷ held) (above, increasing) =
    let rest = shows_number id held increasing in
    elim (Bool-cases (eqb_ℤ h id)) [
      | inl here ↦ elim (Bool-cases (ltb_ℤ h id)) [
        | inl less ↦ rw (here, less) rest
        | inr past ↦ rw (here, past) refl
      ]
      | inr other ↦ elim (Bool-cases (ltb_ℤ h id)) [
        | inl less ↦ rw (other, less) rest
        | inr past ↦ rw (other, past) refl
      ]
    ]

shows-member :
    (id : ℤ) (held : List ℤ)
    → Increasing held
    → shows held id (dots id) ≡ (if member held id then number id else dots id)
unfolding shows
shows-member id [] increasing = refl
shows-member id (h ∷ held) (above, increasing) = elim (Bool-cases (eqb_ℤ h id)) [
  | inl here ↦ let past : ltb_ℤ h id ≡ false = ground arith in rw (here, past) refl
  | inr other ↦ elim (Bool-cases (ltb_ℤ h id)) [
    | inl less ↦ rw (other, less) (shows-member id held increasing)
    | inr past ↦ rw (other, past, not_above h id held above past) refl
  ]
]

-- What is printed where membership is tested for each id.
abbrev pub info : List ℤ → List ℤ → List Shown
info held [] = []
info held (id ∷ ids) = (if member held id then number id else dots id) ∷ info held ids

-- For increasing held ids, HeldInfo prints a number for the ids that are held, and dots for others.
pub held_info_lem : (held ids : List ℤ) → Increasing held → held_info held ids ≡ info held ids
unfolding held_info
held_info_lem held [] increasing = refl
held_info_lem held (id ∷ ids) increasing =
    rw (shows-member id held increasing, held_info_lem held ids increasing) refl
