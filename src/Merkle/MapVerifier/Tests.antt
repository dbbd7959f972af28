-- ===== src/Merkle/MapVerifier/Tests.antt =====
-- Runs of merkle/map_verifier.go on a tree of 8 bits, with a hash of one byte.
use trillian.Prelude.{
  ℕ, ◌+◌, ◌*◌, ◌%◌, ◌≡◌, ◌⊎◌, refl, [], ◌∷◌, Bytes, ok, err, Option, none, some, length, get_or,
  ◌==◌, if◌then◌else◌, arith, Bool-cases, inl, inr,
}
use trillian.Prelude.Int.{pos}
use trillian.Storage.NodeId.{
  new_node_id_from_hash, bit, set_bit, set_bit_byte, path_len_bits, bytes_for_bits,
}
use trillian.Storage.NodeId.Paths.{
  masked_path, mask_left, flip_right_bit, neighbor, siblings_from, siblings,
}
use trillian.Merkle.MapHasher.{MapHasher}
use trillian.Merkle.Hstar2.Tree.{node_value, node}
use trillian.Merkle.MapVerifier.{
  proof_length, calculated_root, verify_map_inclusion_proof, calculated, check_elements,
  siblings_loop, combined, empty_branch,
}
use trillian.Merkle.MapVerifier.Complete.{Sized, sibling_nodes, verify_map_inclusion_proof-node}
use trillian.Merkle.MapVerifier.Sound.{Broken, verify_map_inclusion_proof_sound}

abbrev hasher : MapHasher (Unit {0})
hasher = record {
  hash_empty = λ tree_id path height. height ∷ [];
  hash_leaf = λ tree_id index leaf. ok ((40 + length leaf) ∷ []);
  hash_children = λ l r. ((get_or l 0 0 * 3 + get_or r 0 0 * 5 + 1) % 256) ∷ [];
  size = 1;
  bit_len = 8;
}

abbrev leaves : ℕ → Option Bytes
leaves k = if k == 5 then some (42 ∷ []) else (if k == 6 then some (43 ∷ []) else none)

leaves-Sized : (k : ℕ) → Sized 1 (leaves k)
leaves-Sized k = elim (Bool-cases (k == 5)) [
  | inl here ↦ rw here refl
  | inr later ↦ elim (Bool-cases (k == 6)) [
    | inl here ↦ rw (later, here) refl
    | inr neither ↦ rw (later, neither) tt
  ]
]

abbrev root : Bytes
root = node_value hasher (pos 7) 0 0 (node hasher (pos 7) leaves 8 0 0)

verify_map_inclusion_proof-node_example :
    verify_map_inclusion_proof hasher
      (pos 7)
      (5 ∷ [])
      (1 ∷ 2 ∷ [])
      root
      (sibling_nodes hasher (pos 7) leaves 5 0 8)
    ≡ ok tt
verify_map_inclusion_proof-node_example =
    verify_map_inclusion_proof-node hasher (pos 7) (omega arith) (λ l r. refl) leaves leaves-Sized 1
      (5 ∷ []) (1 ∷ 2 ∷ []) refl refl (omega arith, tt) (refl, refl)

verify_map_inclusion_proof_sound_example :
    (node_value hasher (pos 7) 8 5 (some (42 ∷ [])) ≡ node_value hasher (pos 7) 8 5 (leaves 5))
    ⊎ Broken hasher (pos 7)
verify_map_inclusion_proof_sound_example =
    verify_map_inclusion_proof_sound hasher (pos 7) leaves 1 (5 ∷ []) (1 ∷ 2 ∷ [])
      (sibling_nodes hasher (pos 7) leaves 5 0 8) (some (42 ∷ [])) (omega arith) (λ l r. refl)
      leaves-Sized refl (omega arith, tt) (refl, refl)
      (verify_map_inclusion_proof-node hasher (pos 7) (omega arith) (λ l r. refl) leaves
        leaves-Sized 1 (5 ∷ []) (1 ∷ 2 ∷ []) refl refl (omega arith, tt) (refl, refl))

-- An empty leaf at an index that has one is not accepted.
wrong_leaf :
    verify_map_inclusion_proof hasher
      (pos 7)
      (5 ∷ [])
      []
      root
      (sibling_nodes hasher (pos 7) leaves 5 0 8)
    ≡ err calculated_root
unfolding verify_map_inclusion_proof calculated check_elements siblings_loop combined empty_branch
    new_node_id_from_hash bit set_bit set_bit_byte path_len_bits bytes_for_bits masked_path
    mask_left flip_right_bit neighbor siblings_from siblings node
wrong_leaf = refl

short_proof : verify_map_inclusion_proof hasher (pos 7) (5 ∷ []) [] root [] ≡ err proof_length
unfolding verify_map_inclusion_proof
short_proof = refl
