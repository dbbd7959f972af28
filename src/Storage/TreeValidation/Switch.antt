-- ===== src/Storage/TreeValidation/Switch.antt =====
-- The switches of storage/tree_validation.go: what it means that no test holds.
use trillian.Prelude.{◌≡◌, refl, List, [], ◌∷◌, Option, none, Bool, true, false, not}
use trillian.Storage.TreeValidation.{Error, first}

-- Every test of a switch passes.
abbrev pub AllPass : List (Bool × Error) → Type 0
AllPass [] = Unit {0}
AllPass ((fails, e) ∷ tests) = (fails ≡ false) × AllPass tests

pub first-AllPass :
    (tests : List (Bool × Error)) (rest : Option Error)
    → first tests rest ≡ none
    → AllPass tests × (rest ≡ none)
first-AllPass [] rest h = (tt, h)
first-AllPass ((true, e) ∷ tests) rest h = cc
first-AllPass ((false, e) ∷ tests) rest h =
    let (pass, good) = first-AllPass tests rest h in ((refl, pass), good)

pub AllPass-first :
    (tests : List (Bool × Error)) (rest : Option Error) → AllPass tests → first tests rest ≡ rest
AllPass-first [] rest h = refl
AllPass-first ((fails, e) ∷ tests) rest (pass, h) = rw pass (AllPass-first tests rest h)

pub passed : (b : Bool) → not b ≡ false → b ≡ true
passed true h = refl
passed false h = cc

pub passes : (b : Bool) → b ≡ true → not b ≡ false
passes true h = refl
passes false h = cc
