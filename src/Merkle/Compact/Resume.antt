-- ===== src/Merkle/Compact/Resume.antt =====
-- NewCompactMerkleTreeWithState of merkle/compact_merkle_tree.go: a tree from stored nodes.
use trillian.Prelude.{
  ℕ, zero, suc, ◌+◌, ◌-◌, ◌/◌, ◌%◌, List, [], Bytes, bytes_equal, Outcome, ok, err, panic,
  out_of_fuel, none, set, replicate, ◌==◌, if◌then◌else◌,
}
use trillian.Merkle.Hashers.{LogHasher}
use trillian.Merkle.BitLen.{bit_len}
use trillian.Merkle.Compact.{
  Error, external, root_hash_mismatch, CompactMerkleTree, GetNodeFunc, SetNodeFunc, is_perfect_tree,
  recalculate_root,
}

module _ {E : Type 0} where
  -- The loop of NewCompactMerkleTreeWithState over the depths that are left.
  unfoldable pub fetch_loop : ℕ → GetNodeFunc E → ℕ → ℕ → List Bytes → Outcome E (List Bytes)
  fetch_loop zero f depth size nodes = ok nodes
  fetch_loop (suc r) f depth size nodes =
      let skip = fetch_loop r f (depth + 1) (size / 2) nodes in
      let fetch : Outcome E (List Bytes) = elim (f depth (size - 1)) [
        | ok h ↦ fetch_loop r f (depth + 1) (size / 2) (set nodes depth h)
        | err e ↦ err e
        | panic ↦ panic
        | out_of_fuel ↦ out_of_fuel
      ] in
      if size % 2 == 1 then fetch else skip

  -- The callback of NewCompactMerkleTreeWithState, which does nothing.
  abbrev pub ignore_node : SetNodeFunc (Unit {0}) E
  ignore_node depth index hash s = (s, none)

  -- The end of NewCompactMerkleTreeWithState: the comparison with the expected root.
  unfoldable pub checked : CompactMerkleTree → Bytes → Outcome (Error E) CompactMerkleTree
  checked r expected_root =
      if bytes_equal r.root expected_root
      then ok r
      else err (root_hash_mismatch expected_root r.root)

  -- From the nodes that were fetched to the root; the error of recalculateRoot is dropped.
  unfoldable pub rebuilt :
      LogHasher E → ℕ → Bytes → Outcome E (List Bytes) → Outcome (Error E) CompactMerkleTree
  rebuilt hasher size expected_root (ok nodes) =
      let r : CompactMerkleTree = record { root = hasher.empty_root; nodes = nodes; size = size } in
      let (r', s, result) = recalculate_root hasher ignore_node r tt in
      elim result [
        | ok _ ↦ checked r' expected_root
        | err _ ↦ checked r' expected_root
        | panic ↦ panic
        | out_of_fuel ↦ out_of_fuel
      ]
  rebuilt hasher size expected_root (err e) = err (external e)
  rebuilt hasher size expected_root panic = panic
  rebuilt hasher size expected_root out_of_fuel = out_of_fuel

  unfoldable pub new_compact_merkle_tree_with_state :
      LogHasher E → ℕ → GetNodeFunc E → Bytes → Outcome (Error E) CompactMerkleTree
  new_compact_merkle_tree_with_state hasher size f expected_root =
      let size_bits = bit_len size in
      let nodes = replicate size_bits [] in
      if is_perfect_tree size
      then checked
          (record {
            root = expected_root;
            nodes = set nodes (size_bits - 1) expected_root;
            size = size;
          })
          expected_root
      else rebuilt hasher size expected_root (fetch_loop size_bits f 0 size nodes)
