-- ===== src/Util/Tracker.antt =====
-- util/tracker.go: the logs that an instance is master for. The map is an association list, its
-- locks are left out, and sort.Sort is a parameter.
pub mod Counts
pub mod Info
mod Tests
use trillian.Prelude.{
  ℕ, List, [], ◌∷◌, Option, none, some, Bool, true, false, not, ◌&&◌, if◌then◌else◌,
}
use trillian.Prelude.Int.{ℤ, pos, ◌+ℤ◌, ◌-ℤ◌, eqb_ℤ, ltb_ℤ}

-- `MasterTracker`
pub record MasterTracker : Type 0 where
  pub master_for : List (ℤ × Bool)
  pub master_count : ℤ

abbrev pub get : List (ℤ × Bool) → ℤ → Option Bool
get [] id = none
get ((k, v) ∷ entries) id = if eqb_ℤ k id then some v else get entries id

abbrev pub put : List (ℤ × Bool) → ℤ → Bool → List (ℤ × Bool)
put [] id val = (id, val) ∷ []
put ((k, v) ∷ entries) id val =
    let rest = put entries id val in if eqb_ℤ k id then (k, val) ∷ entries else (k, v) ∷ rest

-- A missing id is not held.
abbrev pub or_false : Option Bool → Bool
or_false none = false
or_false (some v) = v

abbrev pub track : List ℤ → List (ℤ × Bool) → List (ℤ × Bool)
track [] entries = entries
track (id ∷ ids) entries = track ids (put entries id false)

unfoldable pub new_master_tracker : List ℤ → MasterTracker
new_master_tracker ids = record { master_for = track ids []; master_count = pos 0 }

unfoldable pub set : ℤ → Bool → MasterTracker → MasterTracker
set id val mt =
    let existing = or_false (get mt.master_for id) in
    record {
      master_for = put mt.master_for id val;
      master_count =
          if val && not existing
          then mt.master_count +ℤ pos 1
          else if not val && existing
          then mt.master_count -ℤ pos 1
          else mt.master_count;
    }

abbrev pub count : MasterTracker → ℤ
count mt = mt.master_count

abbrev pub held_ids : List (ℤ × Bool) → List ℤ
held_ids [] = []
held_ids ((k, v) ∷ entries) = let rest = held_ids entries in if v then k ∷ rest else rest

abbrev pub all_ids : List (ℤ × Bool) → List ℤ
all_ids [] = []
all_ids ((k, v) ∷ entries) = k ∷ all_ids entries

module _ (sort : List ℤ → List ℤ) where
  unfoldable pub held : MasterTracker → List ℤ
  held mt = sort (held_ids mt.master_for)

  unfoldable pub ids : MasterTracker → List ℤ
  ids mt = sort (all_ids mt.master_for)

-- What HeldInfo prints for an id: the number, or as many dots as it has characters.
pub data Shown : Type 0 where
  number dots : ℤ → Shown

-- The loop over the held ids, which ends at one that is not smaller.
unfoldable pub shows : List ℤ → ℤ → Shown → Shown
shows [] id show = show
shows (h ∷ held) id show =
    let show' = if eqb_ℤ h id then number id else show in
    let rest = shows held id show' in if not (ltb_ℤ h id) then show' else rest

unfoldable pub held_info : List ℤ → List ℤ → List Shown
held_info held [] = []
held_info held (id ∷ ids) = shows held id (dots id) ∷ held_info held ids
