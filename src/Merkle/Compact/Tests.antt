-- ===== src/Merkle/Compact/Tests.antt =====
-- Runs of the compact tree of merkle/compact_merkle_tree.go, with a hash that keeps its input and a
-- callback that records its calls.
use trillian.Prelude.{ℕ, ◌≡◌, refl, List, [], ◌∷◌, ◌++◌, Bytes, ok, none, arith}
use trillian.Merkle.Hashers.{LogHasher}
use trillian.Merkle.Tree.{mth}
use trillian.Merkle.BitLen.{bit_len}
use trillian.Merkle.Compact.{
  SetNodeFunc, new_compact_merkle_tree, current_root, add_leaf_hash, add_leaf, add_nodes, add_loop,
  recalculate_root, recalculate_loop, depth,
}
use trillian.Merkle.Compact.Root.{Quiet}
use trillian.Merkle.Compact.Correct.{
  IsTree, new_compact_merkle_tree-IsTree, add_leaf_hash-IsTree, add_leaf-IsTree, add_hashes,
  current_root-add_hashes,
}

abbrev Call : Type 0
Call = ℕ × ℕ × Bytes

abbrev hasher : LogHasher ℕ
hasher = record {
  empty_root = 9 ∷ [];
  hash_leaf = λ l. ok (0 ∷ l);
  hash_children = λ l r. 1 ∷ l ++ r;
  size = 1;
}

abbrev log : SetNodeFunc (List Call) ℕ
log depth index hash calls = (calls ++ (depth, index, hash) ∷ [], none)

log-Quiet : Quiet 8 log
log-Quiet depth index hash calls first half = refl

abbrev three : List Bytes
three = (10 ∷ []) ∷ (11 ∷ []) ∷ (12 ∷ []) ∷ []

-- The coordinates that the third leaf writes: the leaf, and the root above it and its sibling.
calls_of_third :
    (add_leaf_hash hasher log
      (add_hashes hasher log 8 log-Quiet
        (new_compact_merkle_tree hasher)
        ((10 ∷ []) ∷ (11 ∷ []) ∷ [])
        []).0
      (12 ∷ [])
      []).1
    ≡ (0, 2, 12 ∷ []) ∷ (2, 0, 1 ∷ 1 ∷ 10 ∷ 11 ∷ 12 ∷ []) ∷ []
unfolding add_leaf_hash add_nodes add_loop recalculate_root recalculate_loop add_hashes
    new_compact_merkle_tree bit_len
calls_of_third = refl

add_leaf_hash-IsTree_example :
    IsTree hasher
      (add_leaf_hash hasher log (new_compact_merkle_tree hasher) (10 ∷ []) []).0
      ((10 ∷ []) ∷ [])
    × ((add_leaf_hash hasher log (new_compact_merkle_tree hasher) (10 ∷ []) []).2 ≡ ok 0)
add_leaf_hash-IsTree_example =
    add_leaf_hash-IsTree hasher log 8 log-Quiet (new_compact_merkle_tree hasher) [] (10 ∷ []) []
      (new_compact_merkle_tree-IsTree hasher) (omega arith)

add_leaf-IsTree_example :
    IsTree hasher
      (add_leaf hasher log (new_compact_merkle_tree hasher) (10 ∷ []) []).0
      ((0 ∷ 10 ∷ []) ∷ [])
    × ((add_leaf hasher log (new_compact_merkle_tree hasher) (10 ∷ []) []).2 ≡ ok (0, 0 ∷ 10 ∷ []))
add_leaf-IsTree_example =
    add_leaf-IsTree hasher log 8 log-Quiet (new_compact_merkle_tree hasher) [] (10 ∷ [])
      (0 ∷ 10 ∷ []) [] refl (new_compact_merkle_tree-IsTree hasher) (omega arith)

current_root-add_hashes_example :
    current_root (add_hashes hasher log 8 log-Quiet (new_compact_merkle_tree hasher) three []).0
    ≡ mth hasher.hash_children (9 ∷ []) three
current_root-add_hashes_example =
    current_root-add_hashes hasher log 8 log-Quiet three [] (omega arith)
