-- ===== src/Merkle/MerklePath/Addresses.antt =====
-- merkle/merkle_path.go: the two functions that the server calls, with their guards.
use trillian.Prelude.{
  ℕ, zero, suc, ◌-◌, ◌/◌, ◌%◌, [], ◌∷◌, ◌++◌, Outcome, ok, err, out_of_fuel, ◌>>=◌, ◌>>◌, Bool,
  false, not, ◌==◌, if◌then◌else◌,
}
use trillian.Prelude.Int.{ℤ, pos, pos_part, ltb_ℤ}
use trillian.Merkle.MerklePath.{
  Error, snapshot_below_one, snapshot_past_tree, index_past_snapshot, negative_index,
  bad_max_bit_len, snapshots_out_of_order, Fetches, tree_coords, fetch_of,
  path_from_node_to_root_at_snapshot,
}

-- `if cond { return err }`
abbrev refuse_if : Bool → Error → Outcome Error (Unit {0})
refuse_if cond e = if cond then err e else ok tt

abbrev pub check_snapshot : ℤ → ℤ → Outcome Error (Unit {0})
check_snapshot ss tree_size =
    refuse_if (ltb_ℤ ss (pos 1)) snapshot_below_one
    >> refuse_if (ltb_ℤ tree_size ss) snapshot_past_tree

-- Behind the guards the arguments are not negative, and `pos_part` is their value.
unfoldable pub calc_inclusion_proof_node_addresses : ℤ → ℤ → ℤ → ℤ → Fetches
calc_inclusion_proof_node_addresses snapshot index tree_size max_bit_len =
    (check_snapshot snapshot tree_size
      >> refuse_if (not (ltb_ℤ index snapshot)) index_past_snapshot
      >> refuse_if (ltb_ℤ index (pos 0)) negative_index
      >> refuse_if (ltb_ℤ max_bit_len (pos 1)) bad_max_bit_len)
    >>= λ _.
        path_from_node_to_root_at_snapshot (pos_part snapshot) (pos_part tree_size)
          (pos_part max_bit_len) (pos_part index) 0

-- The first loop of snapshotConsistency: the node and the level that it stops at.
unfoldable pub left_climb : ℕ → ℕ → ℕ → Outcome Error (ℕ × ℕ)
left_climb zero node level = out_of_fuel
left_climb (suc f) node level =
    let rest = left_climb f (node / 2) (suc level) in
    if node % 2 == 0 then ok (node, level) else rest

unfoldable pub snapshot_consistency : ℕ → ℕ → ℕ → ℕ → Fetches
snapshot_consistency snapshot1 snapshot2 tree_size max_bit_len =
    if snapshot1 == snapshot2 then ok [] else (do
      top ← left_climb snapshot1 (snapshot1 - 1) 0
      first ←
          if top.0 == 0
          then ok []
          else (do n ← tree_coords max_bit_len top.1 top.0; ok (fetch_of false n ∷ []))
      p ← path_from_node_to_root_at_snapshot snapshot2 tree_size max_bit_len top.0 top.1
      ok (first ++ p))

unfoldable pub calc_consistency_proof_node_addresses : ℤ → ℤ → ℤ → ℤ → Fetches
calc_consistency_proof_node_addresses snapshot1 snapshot2 tree_size max_bit_len =
    (check_snapshot snapshot1 tree_size
      >> check_snapshot snapshot2 tree_size
      >> refuse_if (ltb_ℤ snapshot2 snapshot1) snapshots_out_of_order
      >> refuse_if (ltb_ℤ max_bit_len (pos 1)) bad_max_bit_len)
    >>= λ _.
        snapshot_consistency (pos_part snapshot1) (pos_part snapshot2) (pos_part tree_size)
          (pos_part max_bit_len)
