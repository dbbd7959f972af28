-- ===== src/Merkle/MerklePath/Ends.antt =====
-- merkle/merkle_path.go: the loops end, so the fuel of the model is enough.
use trillian.Prelude.{
  ℕ, zero, suc, ◌+◌, ◌-◌, ◌/◌, ◌%◌, ◌^◌, ◌<◌, List, [], ◌∷◌, Outcome, ok, err, ◌>>=◌, Bool, true,
  false, not, ◌&&◌, ltb, ◌==◌, if◌then◌else◌, ◌||◌, ◌≡◌, arith, Bool-cases, refl, inl, inr,
}
use trillian.Prelude.Int.{ℤ, pos, negsuc, ltb_ℤ, pos_part}
use trillian.Storage.NodeId
use trillian.Merkle.BitLen.{bit_len}
use trillian.Storage.NodeId.{NodeId, new_empty_node_id, coords_node_id, new_node_id_for_tree_coords}
use trillian.Merkle.MerklePath.{
  NodeFetch, Error, tree_coords, coords_result, sibling_id_skip_levels, skip_missing_levels,
  xor_one, mismatched, check_recomputation, Rehashing, rehash_node, rehash_loop, rehash_from,
  climb_loop, recompute_past_snapshot, sibling_fetches, path_loop,
  path_from_node_to_root_at_snapshot,
}
use trillian.Merkle.MerklePath.Addresses.{
  check_snapshot, calc_inclusion_proof_node_addresses, calc_consistency_proof_node_addresses,
  left_climb, snapshot_consistency,
}

-- A call that returns a value or an error: it does not panic and does not use up its fuel.
pub data Ends {ℓ κ} {E : Type ℓ} {A : Type κ} : Outcome E A → Type (ℓ ⊔ κ) where
  with_ok : {a : A} → Ends (ok a)
  with_err : {e : E} → Ends (err e)

pub Ends-bind {ℓ κ λ'} :
    {E : Type ℓ} {A : Type κ} {B : Type λ'} {m : Outcome E A} {k : A → Outcome E B}
    → Ends m
    → ((a : A) → Ends (k a))
    → Ends (m >>= k)
Ends-bind (with_ok {a}) next = next a
Ends-bind with_err next = with_err

pub Ends-if {ℓ κ} :
    {E : Type ℓ} {A : Type κ} (c : Bool) {m n : Outcome E A}
    → Ends m
    → Ends n
    → Ends (if c then m else n)
Ends-if true first second = first
Ends-if false first second = second

Ends-guard {ℓ κ} :
    {E : Type ℓ} {A : Type κ} (b c : Bool) (e : E) {m : Outcome E A}
    → (c ≡ false → Ends m)
    → Ends (if b || c then err e else m)
Ends-guard true c e rest = with_err
Ends-guard false true e rest = with_err
Ends-guard false false e rest = rest refl

new_empty_node_id-Ends : (max : ℕ) → not (max % 8 == 0) ≡ false → Ends (new_empty_node_id max)
unfolding new_empty_node_id
new_empty_node_id-Ends max bytes = rw bytes with_ok

coords_node_id-Ends : (level node max : ℕ) → Ends (coords_node_id level node max)
unfolding coords_node_id
coords_node_id-Ends level node max =
    Ends-guard (ltb max (bit_len node + level)) (not (max % 8 == 0)) _
      (λ bytes. Ends-bind (new_empty_node_id-Ends max bytes) (λ r. with_ok))

coords_result-Ends : {m : Outcome NodeId.Error NodeId} → Ends m → Ends (coords_result m)
coords_result-Ends with_ok = with_ok
coords_result-Ends with_err = with_err

tree_coords-Ends : (max level node : ℕ) → Ends (tree_coords max level node)
unfolding new_node_id_for_tree_coords
tree_coords-Ends max level node = coords_result-Ends (coords_node_id-Ends level node max)

sibling_id_skip_levels-Ends :
    (snapshot last level node max : ℕ) → Ends (sibling_id_skip_levels snapshot last level node max)
unfolding sibling_id_skip_levels
sibling_id_skip_levels-Ends snapshot last level node max =
    let found = skip_missing_levels snapshot last level node in tree_coords-Ends max found.0 found.1

check_recomputation-Ends : (fs : List NodeFetch) → Ends (check_recomputation fs)
unfolding check_recomputation
check_recomputation-Ends [] = with_err
check_recomputation-Ends (f ∷ []) = Ends-if f.rehash with_err with_ok
check_recomputation-Ends (f ∷ g ∷ fs) = Ends-if (mismatched f.rehash (g ∷ fs)) with_err with_ok

refusal-Ends : (c : Bool) (e : Error) → Ends {A = Unit {0}} (if c then err e else ok tt)
refusal-Ends c e = Ends-if c with_err with_ok

check_snapshot-Ends : (ss tree_size : ℤ) → Ends (check_snapshot ss tree_size)
check_snapshot-Ends ss tree_size =
    Ends-bind (refusal-Ends (ltb_ℤ ss (pos 1)) _) (λ _. refusal-Ends (ltb_ℤ tree_size ss) _)

module _ (snapshot tree_size node_level max : ℕ) where
  rehash_node-Ends :
      (saved : NodeId) (level last at : ℕ) (s : Rehashing snapshot tree_size node_level max)
      → Ends (rehash_node snapshot tree_size node_level max saved level last at s)
  unfolding rehash_node
  rehash_node-Ends saved level last at s = Ends-if (last % 2 == 0) with_ok (
      Ends-bind (sibling_id_skip_levels-Ends snapshot at level (xor_one (last - 1)) max)
        (λ n. with_ok))

  rehash_loop-Ends :
      (f : ℕ) (saved : NodeId) (level last at : ℕ) (s : Rehashing snapshot tree_size node_level max)
      → last < f
      → Ends (rehash_loop snapshot tree_size node_level max f saved level last at s)
  unfolding rehash_loop
  rehash_loop-Ends zero saved level last at s enough = absurd (omega arith)
  rehash_loop-Ends (suc f) saved level last at s enough = elim (Bool-cases (last == 0)) [
    | inl done ↦ rw done with_ok
    | inr going ↦ rw going (
        Ends-bind (rehash_node-Ends saved level last at s) (λ t.
          Ends-if (node_level == suc level && not t.sub_root_emitted) with_ok (
            Ends-if (suc level == node_level) with_ok
              (rehash_loop-Ends f saved (suc level) (last / 2) (at / 2) t (ground arith)))))
  ]

  rehash_from-Ends :
      (level last at : ℕ) → Ends (rehash_from snapshot tree_size node_level max level last at)
  unfolding rehash_from
  rehash_from-Ends level last at =
      Ends-bind (sibling_id_skip_levels-Ends snapshot at level (xor_one last) max) (λ saved.
        Ends-if (node_level == level) with_ok
          (rehash_loop-Ends (suc last) saved level last at _ (omega arith)))

  climb_loop-Ends :
      (f level last at : ℕ)
      → last < f
      → Ends (climb_loop snapshot tree_size node_level max f level last at)
  unfolding climb_loop
  climb_loop-Ends zero level last at enough = absurd (omega arith)
  climb_loop-Ends (suc f) level last at enough = elim (Bool-cases (last % 2 == 0)) [
    | inl left ↦ rw left (rehash_from-Ends level last at)
    | inr right ↦ rw right (
        Ends-if (node_level == level)
          (Ends-bind (sibling_id_skip_levels-Ends snapshot at level (last - 1) max) (λ n. with_ok))
          (climb_loop-Ends f (suc level) (last / 2) (at / 2) (ground arith)))
  ]

  recompute_past_snapshot-Ends :
      0 < snapshot → Ends (recompute_past_snapshot snapshot tree_size node_level max)
  unfolding recompute_past_snapshot
  recompute_past_snapshot-Ends some_leaf = Ends-if (snapshot == tree_size) with_ok (
      Ends-if (ltb tree_size snapshot) with_err
        (climb_loop-Ends snapshot 0 (snapshot - 1) (tree_size - 1) (omega arith)))

module _ (snapshot tree_size max : ℕ) where
  sibling_fetches-Ends :
      (node level last : ℕ)
      → 0 < snapshot
      → Ends (sibling_fetches snapshot tree_size max node level last)
  unfolding sibling_fetches
  sibling_fetches-Ends node level last some_leaf =
      Ends-if (ltb (xor_one node) last)
        (Ends-bind (tree_coords-Ends max level (xor_one node)) (λ n. with_ok))
        (Ends-if (xor_one node == last)
          (Ends-if (snapshot == tree_size)
            (Ends-bind (sibling_id_skip_levels-Ends snapshot last level node max) (λ n. with_ok))
            (Ends-bind (recompute_past_snapshot-Ends snapshot tree_size level max some_leaf)
              (λ fs. Ends-bind (check_recomputation-Ends fs) (λ _. with_ok))))
          with_ok)

  path_loop-Ends :
      (f node level last : ℕ)
      → 0 < snapshot
      → last < f
      → Ends (path_loop snapshot tree_size max f node level last)
  unfolding path_loop
  path_loop-Ends zero node level last some_leaf enough = absurd (omega arith)
  path_loop-Ends (suc f) node level last some_leaf enough = elim (Bool-cases (last == 0)) [
    | inl done ↦ rw done with_ok
    | inr going ↦ rw going (
        Ends-bind (sibling_fetches-Ends node level last some_leaf) (λ here.
          Ends-bind (path_loop-Ends f (node / 2) (suc level) (last / 2) some_leaf (ground arith))
            (λ above. with_ok)))
  ]

  path_from_node_to_root_at_snapshot-Ends :
      (node level : ℕ) → Ends (path_from_node_to_root_at_snapshot snapshot tree_size max node level)
  unfolding path_from_node_to_root_at_snapshot
  path_from_node_to_root_at_snapshot-Ends node level = elim (Bool-cases (snapshot == 0)) [
    | inl empty ↦ rw empty with_ok
    | inr some_leaf ↦ rw some_leaf (
        path_loop-Ends (suc ((snapshot - 1) / 2 ^ level)) node level ((snapshot - 1) / 2 ^ level)
          (ground arith) (omega arith))
  ]

-- Whatever its arguments, CalcInclusionProofNodeAddresses returns a value or an error: it does not
-- panic, and the fuel of its loops is enough.
pub calc_inclusion_proof_node_addresses-Ends :
    (snapshot index tree_size max_bit_len : ℤ)
    → Ends (calc_inclusion_proof_node_addresses snapshot index tree_size max_bit_len)
unfolding calc_inclusion_proof_node_addresses
calc_inclusion_proof_node_addresses-Ends snapshot index tree_size max_bit_len =
    Ends-bind
      (Ends-bind
        (Ends-bind
          (Ends-bind (check_snapshot-Ends snapshot tree_size)
            (λ _. refusal-Ends (not (ltb_ℤ index snapshot)) _))
          (λ _. refusal-Ends (ltb_ℤ index (pos 0)) _))
        (λ _. refusal-Ends (ltb_ℤ max_bit_len (pos 1)) _))
      (λ _.
        path_from_node_to_root_at_snapshot-Ends (pos_part snapshot) (pos_part tree_size)
          (pos_part max_bit_len) (pos_part index) 0)

left_climb-Ends : (f node level : ℕ) → node < f → Ends (left_climb f node level)
unfolding left_climb
left_climb-Ends zero node level enough = absurd (omega arith)
left_climb-Ends (suc f) node level enough = elim (Bool-cases (node % 2 == 0)) [
  | inl left ↦ rw left with_ok
  | inr right ↦ rw right (left_climb-Ends f (node / 2) (suc level) (ground arith))
]

snapshot_consistency-Ends :
    (n snapshot2 tree_size max : ℕ) → Ends (snapshot_consistency (suc n) snapshot2 tree_size max)
unfolding snapshot_consistency
snapshot_consistency-Ends n snapshot2 tree_size max = Ends-if (suc n == snapshot2) with_ok (
    Ends-bind (left_climb-Ends (suc n) (suc n - 1) 0 (omega arith)) (λ top.
      Ends-bind
        (Ends-if (top.0 == 0) with_ok (Ends-bind (tree_coords-Ends max top.1 top.0) (λ n. with_ok)))
        (λ first.
          Ends-bind (path_from_node_to_root_at_snapshot-Ends snapshot2 tree_size max top.0 top.1)
            (λ p. with_ok))))

-- Whatever its arguments, CalcConsistencyProofNodeAddresses returns a value or an error: it does
-- not panic, and the fuel of its loops is enough.
pub calc_consistency_proof_node_addresses-Ends :
    (snapshot1 snapshot2 tree_size max_bit_len : ℤ)
    → Ends (calc_consistency_proof_node_addresses snapshot1 snapshot2 tree_size max_bit_len)
unfolding calc_consistency_proof_node_addresses
calc_consistency_proof_node_addresses-Ends (negsuc m) snapshot2 tree_size max_bit_len =
    let refused : ltb_ℤ (negsuc m) (pos 1) ≡ true = ground arith in rw refused with_err
calc_consistency_proof_node_addresses-Ends (pos zero) snapshot2 tree_size max_bit_len = with_err
calc_consistency_proof_node_addresses-Ends (pos (suc n)) snapshot2 tree_size max_bit_len =
    Ends-bind
      (Ends-bind
        (Ends-bind
          (Ends-bind (check_snapshot-Ends (pos (suc n)) tree_size)
            (λ _. check_snapshot-Ends snapshot2 tree_size))
          (λ _. refusal-Ends (ltb_ℤ snapshot2 (pos (suc n))) _))
        (λ _. refusal-Ends (ltb_ℤ max_bit_len (pos 1)) _))
      (λ _.
        snapshot_consistency-Ends n (pos_part snapshot2) (pos_part tree_size)
          (pos_part max_bit_len))
