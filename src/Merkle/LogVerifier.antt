-- ===== src/Merkle/LogVerifier.antt =====
-- merkle/log_verifier.go: inclusion and consistency proofs of a log, checked against root hashes.
-- A loop runs on fuel; each round halves its bound, so one more than the bound is enough.
pub mod Walk
pub mod Inclusion
pub mod Soundness
pub mod Consistency
pub mod Total
mod Tests
use trillian.Prelude.{
  ℕ, zero, suc, ◌+◌, ◌-◌, List, [], ◌∷◌, Bytes, bytes_equal, Outcome, ok, err, panic, out_of_fuel,
  ◌>>=◌, ◌>>◌, or_panic, Option, none, some, length, get_elem?, ltb, leb, ◌==◌, if◌then◌else◌, not,
}
use trillian.Prelude.Int.{ℤ, pos, negsuc}
use trillian.Merkle.Common.{parent, is_right_child}

-- The errors; `root_mismatch` is `RootMismatchError`, the others are messages.
pub data Error : Type 0 where
  negative_leaf_index negative_tree_size leaf_index_not_in_tree : Error
  insufficient_proof invalid_proof : Error
  negative_snapshot snapshots_reversed : Error
  proof_of_equal_snapshots proof_of_empty_snapshot empty_proof : Error
  insufficient_newer_proof too_many_components : Error
  root_mismatch : Bytes → Bytes → Error

-- The `for isRightChild(node)` of VerifyConsistencyProof: `node` and `lastNode` at its end.
unfoldable pub climb : ℕ → ℕ → ℕ → Outcome Error (ℕ × ℕ)
climb zero node last_node = out_of_fuel
climb (suc f) node last_node =
    let rest = climb f (parent node) (parent last_node) in
    if is_right_child node then rest else ok (node, last_node)

module _ (hash_children : Bytes → Bytes → Bytes) where
  -- The hash and the proof index after a round of the loop.
  abbrev pub fold_sibling : ℕ → ℕ → Bytes → Bytes → ℕ → Bytes × ℕ
  fold_sibling cnt_index last_index cnt_hash element proof_index =
      if is_right_child cnt_index
      then (hash_children element cnt_hash, proof_index + 1)
      else if ltb cnt_index last_index
      then (hash_children cnt_hash element, proof_index + 1)
      else (cnt_hash, proof_index)

  -- The `for lastIndex > 0` of RootFromInclusionProof: the hash and the proof index at its end.
  -- `get_elem?` is the length check of `proof` and its read at once.
  unfoldable pub inclusion_loop : ℕ → ℕ → ℕ → Bytes → List Bytes → ℕ → Outcome Error (Bytes × ℕ)
  inclusion_loop zero cnt_index last_index cnt_hash proof proof_index = out_of_fuel
  inclusion_loop (suc f) cnt_index last_index cnt_hash proof proof_index =
      let round : Outcome Error (Bytes × ℕ) = elim (get_elem? proof proof_index) [
        | none ↦ err insufficient_proof
        | some element ↦
            let (h, k) = fold_sibling cnt_index last_index cnt_hash element proof_index in
            inclusion_loop f (parent cnt_index) (parent last_index) h proof k
      ] in
      if ltb 0 last_index then round else ok (cnt_hash, proof_index)

  unfoldable pub root_from_inclusion_proof : ℤ → ℤ → List Bytes → Bytes → Outcome Error Bytes
  unfolding inclusion_loop
  root_from_inclusion_proof (negsuc _) tree_size proof leaf_hash = err negative_leaf_index
  root_from_inclusion_proof (pos _) (negsuc _) proof leaf_hash = err negative_tree_size
  root_from_inclusion_proof (pos leaf_index) (pos tree_size) proof leaf_hash =
      if leb tree_size leaf_index then err leaf_index_not_in_tree else do
        (calc, used) ←
            inclusion_loop (suc (tree_size - 1)) leaf_index (tree_size - 1) leaf_hash proof 0
        if used == length proof then ok calc else err invalid_proof

  unfoldable pub verify_inclusion_proof :
      ℤ → ℤ → List Bytes → Bytes → Bytes → Outcome Error (Unit {0})
  verify_inclusion_proof leaf_index tree_size proof root leaf_hash = do
    calc_root ← root_from_inclusion_proof leaf_index tree_size proof leaf_hash
    if bytes_equal calc_root root then ok tt else err (root_mismatch calc_root root)

  -- The hashes of a node in both trees, and the proof index, after a round of `for node > 0`.
  abbrev pub fold_both : ℕ → ℕ → Bytes → Bytes → Bytes → ℕ → Bytes × Bytes × ℕ
  fold_both node last_node node1_hash node2_hash element proof_index =
      if is_right_child node
      then (hash_children element node1_hash, hash_children element node2_hash, proof_index + 1)
      else if ltb node last_node
      then (node1_hash, hash_children node2_hash element, proof_index + 1)
      else (node1_hash, node2_hash, proof_index)

  -- The loop `for node > 0`: both hashes, `lastNode` and the proof index at its end.
  unfoldable pub older_loop :
      ℕ → ℕ → ℕ → Bytes → Bytes → List Bytes → ℕ → Outcome Error (Bytes × Bytes × ℕ × ℕ)
  older_loop zero node last_node node1_hash node2_hash proof proof_index = out_of_fuel
  older_loop (suc f) node last_node node1_hash node2_hash proof proof_index =
      let round : Outcome Error (Bytes × Bytes × ℕ × ℕ) = elim (get_elem? proof proof_index) [
        | none ↦ err insufficient_proof
        | some element ↦
            let (h1, h2, k) = fold_both node last_node node1_hash node2_hash element proof_index in
            older_loop f (parent node) (parent last_node) h1 h2 proof k
      ] in
      if ltb 0 node then round else ok (node1_hash, node2_hash, last_node, proof_index)

  -- The loop `for lastNode > 0`: the newer hash and the proof index at its end.
  unfoldable pub newer_loop : ℕ → ℕ → Bytes → List Bytes → ℕ → Outcome Error (Bytes × ℕ)
  newer_loop zero last_node node2_hash proof proof_index = out_of_fuel
  newer_loop (suc f) last_node node2_hash proof proof_index =
      let round : Outcome Error (Bytes × ℕ) = elim (get_elem? proof proof_index) [
        | none ↦ err insufficient_newer_proof
        | some element ↦
            newer_loop f (parent last_node) (hash_children node2_hash element) proof
              (proof_index + 1)
      ] in
      if ltb 0 last_node then round else ok (node2_hash, proof_index)

  -- From the loop `for lastNode > 0` to the result.
  unfoldable pub check_newer : ℕ → Bytes → Bytes → List Bytes → ℕ → Outcome Error (Unit {0})
  check_newer last_node root2 node2_hash proof proof_index = do
    (h, used) ← newer_loop (suc last_node) last_node node2_hash proof proof_index
    if bytes_equal h root2
        then (if used == length proof then ok tt else err too_many_components)
        else err (root_mismatch h root2)

  -- From the loop `for node > 0` to the result.
  unfoldable pub check_roots :
      ℕ → ℕ → Bytes → Bytes → Bytes → Bytes → List Bytes → ℕ → Outcome Error (Unit {0})
  check_roots node last_node root1 root2 node1_hash node2_hash proof proof_index = do
    (h1, h2, last, k) ← older_loop (suc node) node last_node node1_hash node2_hash proof proof_index
    if bytes_equal h1 root1 then check_newer last root2 h2 proof k else err (root_mismatch h1 root1)

  -- The start of both hashes: the proof's first element, or the older root if it is a full tree's.
  unfoldable pub check_from : Bytes → Bytes → List Bytes → ℕ → ℕ → Outcome Error (Unit {0})
  check_from root1 root2 proof node last_node =
      let seeded : Outcome Error (Unit {0}) = do
        first ← or_panic (get_elem? proof 0)
        check_roots node last_node root1 root2 first first proof 1
      in if ltb 0 node then seeded else check_roots node last_node root1 root2 root1 root1 proof 0

  -- VerifyConsistencyProof for snapshots with 0 < snapshot1 < snapshot2 and a proof.
  unfoldable pub check_consistency : ℕ → ℕ → Bytes → Bytes → List Bytes → Outcome Error (Unit {0})
  check_consistency snapshot1 snapshot2 root1 root2 proof = do
    (node, last_node) ← climb (suc (snapshot1 - 1)) (snapshot1 - 1) (snapshot2 - 1)
    check_from root1 root2 proof node last_node

  unfoldable pub verify_consistency_proof :
      ℤ → ℤ → Bytes → Bytes → List Bytes → Outcome Error (Unit {0})
  verify_consistency_proof (negsuc _) snapshot2 root1 root2 proof = err negative_snapshot
  verify_consistency_proof (pos _) (negsuc _) root1 root2 proof = err snapshots_reversed
  verify_consistency_proof (pos snapshot1) (pos snapshot2) root1 root2 proof =
      if ltb snapshot2 snapshot1
      then err snapshots_reversed
      else if snapshot1 == snapshot2
      then (if not (bytes_equal root1 root2)
          then err (root_mismatch root1 root2)
          else if ltb 0 (length proof)
          then err proof_of_equal_snapshots
          else ok tt)
      else if snapshot1 == 0
      then (if ltb 0 (length proof) then err proof_of_empty_snapshot else ok tt)
      else if length proof == 0
      then err empty_proof
      else check_consistency snapshot1 snapshot2 root1 root2 proof
