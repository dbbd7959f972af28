-- ===== src/Merkle/MerklePath/Tests.antt =====
-- Runs of merkle/merkle_path.go on a tree of seven leaves, the one of RFC 6962.
use trillian.Prelude.{ℕ, ◌≡◌, refl, [], ◌∷◌, ok, err, true, false, Bool, arith}
use trillian.Prelude.Int.{pos}
use trillian.Merkle.BitLen.{bit_len}
use trillian.Storage.NodeId.{
  new_node_id_for_tree_coords, coords_node_id, new_empty_node_id, write_index,
}
use trillian.Merkle.MerklePath.{
  NodeFetch, index_past_snapshot, last_node_present, skip_loop, sibling_id_skip_levels,
  check_recomputation, rehash_node, rehash_loop, rehash_from, climb_loop, recompute_past_snapshot,
  sibling_fetches, path_loop, path_from_node_to_root_at_snapshot,
}
use trillian.Merkle.MerklePath.Addresses.{
  calc_inclusion_proof_node_addresses, calc_consistency_proof_node_addresses, snapshot_consistency,
  left_climb,
}
use trillian.Merkle.MerklePath.Ends.{
  Ends, calc_inclusion_proof_node_addresses-Ends, calc_consistency_proof_node_addresses-Ends,
}
use trillian.Merkle.MerklePath.Skip.{
  Stored, LeftmostBelow, MissingAbove, skip_missing_levels-Stored,
}

abbrev node : Bool → ℕ → ℕ → NodeFetch
node rehash b len = record { id = record { path = b ∷ []; prefix_len_bits = len }; rehash = rehash }

-- The last leaf stands for its missing ancestors.
sixth_of_seven :
    calc_inclusion_proof_node_addresses (pos 7) (pos 5) (pos 7) (pos 8)
    ≡ ok (node false 4 8 ∷ node false 6 8 ∷ node false 0 6 ∷ [])
unfolding calc_inclusion_proof_node_addresses path_from_node_to_root_at_snapshot path_loop
    sibling_fetches sibling_id_skip_levels skip_loop last_node_present new_node_id_for_tree_coords
    coords_node_id new_empty_node_id write_index bit_len
sixth_of_seven = refl

-- In a tree of eight leaves the subtree of the last three leaves of a tree of seven is rehashed.
first_of_seven_past :
    calc_inclusion_proof_node_addresses (pos 7) (pos 0) (pos 8) (pos 8)
    ≡ ok (node false 1 8 ∷ node false 2 7 ∷ node true 6 8 ∷ node true 4 7 ∷ [])
unfolding calc_inclusion_proof_node_addresses path_from_node_to_root_at_snapshot path_loop
    sibling_fetches sibling_id_skip_levels skip_loop last_node_present check_recomputation
    rehash_node rehash_loop rehash_from climb_loop recompute_past_snapshot
    new_node_id_for_tree_coords coords_node_id new_empty_node_id write_index bit_len
first_of_seven_past = refl

-- PROOF(3, D[7]) of RFC 6962.
three_to_seven :
    calc_consistency_proof_node_addresses (pos 3) (pos 7) (pos 7) (pos 8)
    ≡ ok (node false 2 8 ∷ node false 3 8 ∷ node false 0 7 ∷ node false 4 6 ∷ [])
unfolding calc_consistency_proof_node_addresses snapshot_consistency left_climb
    path_from_node_to_root_at_snapshot path_loop sibling_fetches sibling_id_skip_levels skip_loop
    last_node_present new_node_id_for_tree_coords coords_node_id new_empty_node_id write_index
    bit_len
three_to_seven = refl

index_too_large :
    calc_inclusion_proof_node_addresses (pos 7) (pos 7) (pos 8) (pos 8) ≡ err index_past_snapshot
unfolding calc_inclusion_proof_node_addresses
index_too_large = refl

skip_missing_levels-Stored_example : Stored 5 0 4 × LeftmostBelow 2 1 0 4 × MissingAbove 5 2 1 0
unfolding skip_loop last_node_present
skip_missing_levels-Stored_example = skip_missing_levels-Stored 5 2 0 (omega arith) (omega arith)

calc_inclusion_proof_node_addresses-Ends_example :
    Ends (calc_inclusion_proof_node_addresses (pos 7) (pos 0) (pos 8) (pos 8))
calc_inclusion_proof_node_addresses-Ends_example =
    calc_inclusion_proof_node_addresses-Ends (pos 7) (pos 0) (pos 8) (pos 8)

calc_consistency_proof_node_addresses-Ends_example :
    Ends (calc_consistency_proof_node_addresses (pos 3) (pos 7) (pos 7) (pos 8))
calc_consistency_proof_node_addresses-Ends_example =
    calc_consistency_proof_node_addresses-Ends (pos 3) (pos 7) (pos 7) (pos 8)
