-- ===== src/Trees/Tests.antt =====
-- Runs of GetTree of trees/trees.go.
use trillian.Prelude.{[], ◌∷◌, Outcome, ok, err, none, some, true, false, ◌≡◌, refl, sym, ap}
use trillian.Prelude.Int.{ℤ, pos}
use trillian.Trees.{
  Tree, Error, type_not_allowed, permission_denied, not_found, log, preordered_log, map_tree,
  frozen, GetOpts, new_get_opts, validate, find_tree, get_tree,
}
use trillian.Trees.Access.{Permitted, get_tree_sound}

abbrev frozen_log : ℤ → Tree
frozen_log i = record { tree_id = i; tree_state = frozen; tree_type = log; deleted = false }

abbrev stored : ℤ → Outcome Error Tree
stored i = ok (frozen_log i)

abbrev reading : GetOpts
reading = new_get_opts true (preordered_log ∷ log ∷ [])

stored-id : (i : ℤ) (tree : Tree) → stored i ≡ ok tree → tree.tree_id ≡ i
stored-id i tree found = ap (λ (x : Tree). x.tree_id) (sym (same tree found))
  where
    same : (tree : Tree) → stored i ≡ ok tree → frozen_log i ≡ tree
    same tree found = cc

read_allowed : get_tree (some (frozen_log (pos 4))) stored (pos 7) reading ≡ ok (frozen_log (pos 7))
unfolding get_tree find_tree validate
read_allowed = refl

write_refused : get_tree none stored (pos 7) (new_get_opts false (log ∷ [])) ≡ err permission_denied
unfolding get_tree find_tree validate
write_refused = refl

other_type : get_tree none stored (pos 7) (new_get_opts true (map_tree ∷ [])) ≡ err type_not_allowed
unfolding get_tree find_tree validate
other_type = refl

-- A map that has entries, all false, refuses every type.
no_type_allowed :
    get_tree none stored (pos 7) (record { tree_types = (log, false) ∷ []; readonly = true })
    ≡ err type_not_allowed
unfolding get_tree find_tree validate
no_type_allowed = refl

deleted_tree :
    get_tree (some (record (frozen_log (pos 7)) { deleted = true })) stored (pos 7) reading
    ≡ err not_found
unfolding get_tree find_tree validate
deleted_tree = refl

get_tree_sound_example :
    (find_tree (some (frozen_log (pos 4))) stored (pos 7) ≡ ok (frozen_log (pos 7)))
    × (pos 7 ≡ pos 7)
    × Permitted reading (frozen_log (pos 7))
get_tree_sound_example =
    get_tree_sound (some (frozen_log (pos 4))) stored (pos 7) reading (frozen_log (pos 7)) stored-id
      read_allowed
