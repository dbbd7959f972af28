-- ===== src/Server/Validate/Tests.antt =====
-- Runs of the checks of server/validate.go.
use trillian.Prelude.{ℕ, ◌≡◌, ◌<◌, refl, List, [], ◌∷◌, Bytes, ok, err, Option, some, length}
use trillian.Prelude.Int.{pos, negsuc}
use trillian.Server.Validate.{
  LogLeaf, tree_size, leaf_index, invalid_argument, invalid_argument_at, failed_precondition_at,
  validate_get_inclusion_proof_request, validate_get_leaves_by_index_request, validate_leaf_indices,
  validate_add_sequenced_leaves_request, validate_log_leaves, validate_each_leaf, validate_log_leaf,
  sequence_from_first, validate_sequence, next_int64,
}
use trillian.Server.Validate.Sequenced.{
  numbered, AllFilled, validate_add_sequenced_leaves_request_sound,
}

abbrev two_values : List Bytes
two_values = (1 ∷ []) ∷ (2 ∷ 3 ∷ []) ∷ []

abbrev two_leaves : List (Option LogLeaf)
two_leaves =
    some (record { leaf_value = 1 ∷ []; leaf_index = pos 5 })
    ∷ some (record { leaf_value = 2 ∷ 3 ∷ []; leaf_index = pos 6 })
    ∷ []

empty_tree :
    validate_get_inclusion_proof_request (record { leaf_index = pos 0; tree_size = pos 0 })
    ≡ err (invalid_argument tree_size)
unfolding validate_get_inclusion_proof_request
empty_tree = refl

past_the_end :
    validate_get_inclusion_proof_request (record { leaf_index = pos 3; tree_size = pos 3 })
    ≡ err (invalid_argument leaf_index)
unfolding validate_get_inclusion_proof_request
past_the_end = refl

second_negative :
    validate_get_leaves_by_index_request (pos 3 ∷ negsuc 0 ∷ [])
    ≡ err (invalid_argument_at 1 leaf_index)
unfolding validate_get_leaves_by_index_request validate_leaf_indices
second_negative = refl

index_skipped :
    validate_add_sequenced_leaves_request (
      some (record { leaf_value = 1 ∷ []; leaf_index = pos 5 })
      ∷ some (record { leaf_value = 1 ∷ []; leaf_index = pos 7 })
      ∷ [])
    ≡ err (failed_precondition_at 1 leaf_index)
unfolding validate_add_sequenced_leaves_request validate_log_leaves validate_each_leaf
    validate_log_leaf sequence_from_first validate_sequence next_int64
index_skipped = refl

two_leaves_accepted : validate_add_sequenced_leaves_request two_leaves ≡ ok tt
unfolding validate_add_sequenced_leaves_request validate_log_leaves validate_each_leaf
    validate_log_leaf sequence_from_first validate_sequence next_int64
two_leaves_accepted = refl

validate_add_sequenced_leaves_request_sound_example :
    (start : ℕ) × (vs : List Bytes) × (two_leaves ≡ numbered start vs)
    × (0 < length vs)
    × AllFilled vs
validate_add_sequenced_leaves_request_sound_example =
    validate_add_sequenced_leaves_request_sound two_leaves two_leaves_accepted
