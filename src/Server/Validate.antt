-- ===== src/Server/Validate.antt =====
-- server/validate.go: the checks of the log's requests. A status is a constructor for its code,
-- with the field and the position that its message names.
pub mod Sequenced
mod Tests
use trillian.Prelude.{
  zero, not, panic, ℕ, suc, ◌+◌, ◌-◌, ◌^◌, List, [], ◌∷◌, Bytes, Outcome, ok, err, ◌>>◌, Option,
  none, some, Bool, length, leb, ◌==◌, if◌then◌else◌,
}
use trillian.Prelude.Int.{ℤ, pos, negsuc, ltb_ℤ, eqb_ℤ}

pub data Field : Type 0 where
  tree_size leaf_index leaf_hash start_index count first_tree_size second_tree_size leaves leaf
        leaf_value :
      Field

pub data Status : Type 0 where
  invalid_argument : Field → Status
  invalid_argument_at : ℕ → Field → Status
  failed_precondition_at : ℕ → Field → Status

abbrev pub Check : Type 0
Check = Outcome Status (Unit {0})

pub record GetInclusionProofRequest : Type 0 where
  pub leaf_index : ℤ
  pub tree_size : ℤ

pub record GetInclusionProofByHashRequest : Type 0 where
  pub leaf_hash : Bytes
  pub tree_size : ℤ

pub record GetLeavesByRangeRequest : Type 0 where
  pub start_index : ℤ
  pub count : ℤ

pub record GetConsistencyProofRequest : Type 0 where
  pub first_tree_size : ℤ
  pub second_tree_size : ℤ

-- The fields of LogLeaf that the checks read.
pub record LogLeaf : Type 0 where
  pub leaf_value : Bytes
  pub leaf_index : ℤ

-- `if cond { return err }`
abbrev pub refuse_if : Bool → Status → Check
refuse_if cond status = if cond then err status else ok tt

abbrev pub not_positive : ℤ → Bool
not_positive i = ltb_ℤ i (pos 1)

abbrev pub negative : ℤ → Bool
negative i = ltb_ℤ i (pos 0)

abbrev pub at_least : ℤ → ℤ → Bool
at_least a b = not (ltb_ℤ a b)

unfoldable pub validate_leaf_hash : Bytes → Status → Check
validate_leaf_hash hash status = refuse_if (length hash == 0) status

unfoldable pub validate_get_inclusion_proof_request : GetInclusionProofRequest → Check
validate_get_inclusion_proof_request req =
    refuse_if (not_positive req.tree_size) (invalid_argument tree_size)
    >> refuse_if (negative req.leaf_index) (invalid_argument leaf_index)
    >> refuse_if (at_least req.leaf_index req.tree_size) (invalid_argument leaf_index)

unfoldable pub validate_get_inclusion_proof_by_hash_request : GetInclusionProofByHashRequest → Check
validate_get_inclusion_proof_by_hash_request req =
    refuse_if (not_positive req.tree_size) (invalid_argument tree_size)
    >> validate_leaf_hash req.leaf_hash (invalid_argument leaf_hash)

-- The loop over the hashes, with the position of the first.
unfoldable pub validate_leaf_hashes : ℕ → List Bytes → Check
validate_leaf_hashes i [] = ok tt
validate_leaf_hashes i (hash ∷ hashes) =
    validate_leaf_hash hash (invalid_argument_at i leaf_hash) >> validate_leaf_hashes (suc i) hashes

unfoldable pub validate_get_leaves_by_hash_request : List Bytes → Check
validate_get_leaves_by_hash_request hashes =
    refuse_if (length hashes == 0) (invalid_argument leaf_hash) >> validate_leaf_hashes 0 hashes

unfoldable pub validate_leaf_indices : ℕ → List ℤ → Check
validate_leaf_indices i [] = ok tt
validate_leaf_indices i (index ∷ indices) =
    refuse_if (negative index) (invalid_argument_at i leaf_index)
    >> validate_leaf_indices (suc i) indices

unfoldable pub validate_get_leaves_by_index_request : List ℤ → Check
validate_get_leaves_by_index_request indices =
    refuse_if (length indices == 0) (invalid_argument leaf_index) >> validate_leaf_indices 0 indices

unfoldable pub validate_get_leaves_by_range_request : GetLeavesByRangeRequest → Check
validate_get_leaves_by_range_request req =
    refuse_if (negative req.start_index) (invalid_argument start_index)
    >> refuse_if (not_positive req.count) (invalid_argument count)

unfoldable pub validate_get_consistency_proof_request : GetConsistencyProofRequest → Check
validate_get_consistency_proof_request req =
    refuse_if (not_positive req.first_tree_size) (invalid_argument first_tree_size)
    >> refuse_if (not_positive req.second_tree_size) (invalid_argument second_tree_size)
    >> refuse_if (ltb_ℤ req.second_tree_size req.first_tree_size) (invalid_argument first_tree_size)

-- GetEntryAndProofRequest has the fields of GetInclusionProofRequest.
unfoldable pub validate_get_entry_and_proof_request : GetInclusionProofRequest → Check
validate_get_entry_and_proof_request req =
    refuse_if (not_positive req.tree_size) (invalid_argument tree_size)
    >> refuse_if (negative req.leaf_index) (invalid_argument leaf_index)
    >> refuse_if (at_least req.leaf_index req.tree_size) (invalid_argument leaf_index)

-- A leaf that is nil is none.
unfoldable pub validate_log_leaf : ℕ → Option LogLeaf → Check
validate_log_leaf i none = err (invalid_argument_at i leaf)
validate_log_leaf i (some l) =
    refuse_if (length l.leaf_value == 0) (invalid_argument_at i leaf_value)
    >> refuse_if (negative l.leaf_index) (invalid_argument_at i leaf_index)

unfoldable pub validate_each_leaf : ℕ → List (Option LogLeaf) → Check
validate_each_leaf i [] = ok tt
validate_each_leaf i (l ∷ ls) = validate_log_leaf i l >> validate_each_leaf (suc i) ls

unfoldable pub validate_log_leaves : List (Option LogLeaf) → Check
validate_log_leaves ls =
    refuse_if (length ls == 0) (invalid_argument leaves) >> validate_each_leaf 0 ls

-- `nextIndex++` of an int64.
unfoldable pub next_int64 : ℤ → ℤ
next_int64 (pos n) = if suc n == 2 ^ 63 then negsuc (2 ^ 63 - 1) else pos (suc n)
next_int64 (negsuc zero) = pos 0
next_int64 (negsuc (suc n)) = negsuc n

-- The loop of validateAddSequencedLeavesRequest; a nil leaf would be dereferenced.
unfoldable pub validate_sequence : ℕ → ℤ → List (Option LogLeaf) → Check
validate_sequence i next_index [] = ok tt
validate_sequence i next_index (none ∷ ls) = panic
validate_sequence i next_index (some l ∷ ls) =
    refuse_if (not (eqb_ℤ l.leaf_index next_index)) (failed_precondition_at i leaf_index)
    >> validate_sequence (suc i) (next_int64 next_index) ls

unfoldable pub sequence_from_first : List (Option LogLeaf) → Check
sequence_from_first [] = panic
sequence_from_first (none ∷ ls) = panic
sequence_from_first (some l ∷ ls) = validate_sequence 0 l.leaf_index (some l ∷ ls)

unfoldable pub validate_add_sequenced_leaves_request : List (Option LogLeaf) → Check
validate_add_sequenced_leaves_request ls = validate_log_leaves ls >> sequence_from_first ls
