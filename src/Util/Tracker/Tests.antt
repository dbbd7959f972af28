-- ===== src/Util/Tracker/Tests.antt =====
-- Runs of util/tracker.go.
use trillian.Prelude.{◌≡◌, refl, [], ◌∷◌, Bool, true, false, List, length}
use trillian.Prelude.Int.{ℤ, pos}
use trillian.Util.Tracker.{new_master_tracker, set, count, held, held_info}
use trillian.Util.Tracker.Counts.{sets, count-sets}
use trillian.Util.Tracker.Info.{info, held_info_lem}

abbrev reverse_pair : List ℤ → List ℤ
reverse_pair (a ∷ b ∷ []) = b ∷ a ∷ []
reverse_pair xs = xs

abbrev calls : List (ℤ × Bool)
calls = (pos 7, true) ∷ (pos 5, true) ∷ (pos 9, false) ∷ (pos 7, true) ∷ []

-- An id that was not tracked is added, and setting one again does not count it again.
two_held :
    held reverse_pair (sets calls (new_master_tracker (pos 7 ∷ pos 9 ∷ []))) ≡ pos 5 ∷ pos 7 ∷ []
unfolding held set new_master_tracker
two_held = refl

reverse_length : (xs : List ℤ) → length (reverse_pair xs) ≡ length xs
reverse_length [] = refl
reverse_length (a ∷ []) = refl
reverse_length (a ∷ b ∷ []) = refl
reverse_length (a ∷ b ∷ c ∷ xs) = refl

count-sets_example :
    count (sets calls (new_master_tracker (pos 7 ∷ pos 9 ∷ [])))
    ≡ pos (length (held reverse_pair (sets calls (new_master_tracker (pos 7 ∷ pos 9 ∷ [])))))
count-sets_example = count-sets reverse_pair (pos 7 ∷ pos 9 ∷ []) calls reverse_length

held_info_lem_example :
    held_info (pos 5 ∷ pos 7 ∷ []) (pos 5 ∷ pos 6 ∷ pos 7 ∷ [])
    ≡ info (pos 5 ∷ pos 7 ∷ []) (pos 5 ∷ pos 6 ∷ pos 7 ∷ [])
held_info_lem_example =
    held_info_lem (pos 5 ∷ pos 7 ∷ []) (pos 5 ∷ pos 6 ∷ pos 7 ∷ []) ((refl, tt), (tt, tt))
