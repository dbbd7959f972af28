-- ===== src/Merkle/Compact.antt =====
-- merkle/compact_merkle_tree.go: the compact Merkle tree of a log. `[]byte` and `nil` are lists; a
-- size is a number, and stays below 2 ^ 63. A method of the pointer returns the new tree.
pub mod Resume
pub mod Repr
pub mod Root
pub mod Add
pub mod Correct
mod Tests
use Prim.Native.Nat.{bit_and}
use trillian.Prelude.{
  ℕ, zero, suc, ◌+◌, ◌-◌, ◌*◌, ◌/◌, ◌%◌, List, [], ◌∷◌, ◌++◌, Bytes, Outcome, ok, err, panic,
  out_of_fuel, Option, none, some, Bool, not, ◌&&◌, length, get_elem?, set, ltb, leb, ◌==◌,
  if◌then◌else◌,
}
use trillian.Merkle.Hashers.{LogHasher}
use trillian.Merkle.BitLen.{bit_len}

-- `external` is an error of a callback or of the hasher.
pub data Error (E : Type 0) : Type 0 where
  external : E → Error E
  hash_not_cleared : Error E
  root_hash_mismatch : Bytes → Bytes → Error E

-- `hasher` is an argument of the functions.
pub record CompactMerkleTree : Type 0 where
  pub root : Bytes
  pub nodes : List Bytes
  pub size : ℕ

unfoldable pub is_perfect_tree : ℕ → Bool
is_perfect_tree x = not (x == 0) && bit_and x (x - 1) == 0

-- `GetNodeFunc` and `setNodeFunc`: what they read and write is a state `S`.
abbrev pub GetNodeFunc : Type 0 → Type 0
GetNodeFunc E = ℕ → ℕ → Outcome E Bytes

abbrev pub SetNodeFunc : Type 0 → Type 0 → Type 0
SetNodeFunc S E = ℕ → ℕ → Bytes → S → S × Option E

unfoldable pub new_compact_merkle_tree : {E : Type 0} → LogHasher E → CompactMerkleTree
new_compact_merkle_tree hasher = record { root = hasher.empty_root; nodes = []; size = 0 }

unfoldable pub current_root : CompactMerkleTree → Bytes
current_root c = c.root

unfoldable pub hashes : CompactMerkleTree → List Bytes
hashes c = if is_perfect_tree c.size then [] else c.nodes

unfoldable pub depth : CompactMerkleTree → ℕ
depth c = if c.size == 0 then 0 else bit_len (c.size - 1)

module _ {S E : Type 0} (hasher : LogHasher E) (f : SetNodeFunc S E) where
  -- The loop of recalculateRoot over the bits that are left; `new_root` is `none` while `first`.
  unfoldable pub recalculate_loop :
      ℕ → ℕ → List Bytes → ℕ → ℕ → ℕ → Option Bytes → S → S × Outcome (Error E) (Option Bytes)
  recalculate_loop zero size nodes bit index mask new_root s = (s, ok new_root)
  recalculate_loop (suc r) size nodes bit index mask new_root s =
      let index' = index / 2 in
      let skip = recalculate_loop r size nodes (bit + 1) index' (mask * 2) new_root s in
      let take_node : S × Outcome (Error E) (Option Bytes) = elim (get_elem? nodes bit) [
        | none ↦ (s, panic)
        | some node ↦ elim new_root [
          | none ↦ recalculate_loop r size nodes (bit + 1) index' (mask * 2) (some node) s
          | some below ↦
              let h = hasher.hash_children node below in
              let (s', failed) = f (bit + 1) index' h s in
              let result : S × Outcome (Error E) (Option Bytes) = elim failed [
                | none ↦ recalculate_loop r size nodes (bit + 1) index' (mask * 2) (some h) s'
                | some e ↦ (s', err (external e))
              ] in
              result
        ]
      ] in
      if bit_and size mask == 0 then skip else take_node

  -- The new root goes into the tree; on an error the tree keeps its root.
  abbrev pub store_root :
      CompactMerkleTree
      → S × Outcome (Error E) (Option Bytes)
      → CompactMerkleTree × S × Outcome (Error E) (Unit {0})
  store_root c (s, ok none) = (record c { root = [] }, s, ok tt)
  store_root c (s, ok (some r)) = (record c { root = r }, s, ok tt)
  store_root c (s, err e) = (c, s, err e)
  store_root c (s, panic) = (c, s, panic)
  store_root c (s, out_of_fuel) = (c, s, out_of_fuel)

  unfoldable pub recalculate_root :
      CompactMerkleTree → S → CompactMerkleTree × S × Outcome (Error E) (Unit {0})
  recalculate_root c s =
      if c.size == 0
      then (c, s, ok tt)
      else store_root c (recalculate_loop (bit_len c.size) c.size c.nodes 0 c.size 1 none s)

  -- The loop of AddLeafHash: the nodes, the callback's state and the result.
  unfoldable pub add_loop :
      ℕ → ℕ → List Bytes → ℕ → ℕ → ℕ → Bytes → S → List Bytes × S × Outcome (Error E) ℕ
  add_loop zero assigned_seq nodes t bit index hash s = (nodes, s, out_of_fuel)
  add_loop (suc fuel) assigned_seq nodes t bit index hash s =
      let index' = index / 2 in
      let keep : List Bytes × S × Outcome (Error E) ℕ =
        if ltb bit (length nodes)
        then (let nodes' = set nodes bit hash in
            let (s', failed) = f bit index' hash s in
            if bit == 0 then (nodes', s, ok assigned_seq) else elim failed [
              | none ↦ (nodes', s', ok assigned_seq)
              | some e ↦ (nodes', s', err (external e))
            ])
        else (nodes, s, panic) in
      let carry : List Bytes × S × Outcome (Error E) ℕ = elim (get_elem? nodes bit) [
        | none ↦ (nodes, s, panic)
        | some node ↦
            let hash' = hasher.hash_children node hash in
            let (s', failed) = f (bit + 1) index' hash' s in
            let nodes' = set nodes bit [] in
            let again = add_loop fuel assigned_seq nodes' (t / 2) (bit + 1) index' hash' s' in
            let result : List Bytes × S × Outcome (Error E) ℕ = elim failed [
              | some e ↦ (nodes, s', err (external e))
              | none ↦
                  if leb (length nodes') (bit + 1)
                  then (nodes' ++ hash' ∷ [], s', ok assigned_seq)
                  else if bit_and t 2 == 0
                  then (set nodes' (bit + 1) hash', s', ok assigned_seq)
                  else again
            ] in
            result
      ] in
      if t == 0 then (nodes, s, err hash_not_cleared) else if t % 2 == 0 then keep else carry

  -- What the deferred recalculateRoot makes of the result: its error is dropped, its panic is not.
  abbrev pub deferred : Outcome (Error E) ℕ → Outcome (Error E) (Unit {0}) → Outcome (Error E) ℕ
  deferred result (ok _) = result
  deferred result (err _) = result
  deferred result panic = panic
  deferred result out_of_fuel = out_of_fuel

  -- AddLeafHash up to its return: the nodes, the callback's state and the result.
  unfoldable pub add_nodes : CompactMerkleTree → Bytes → S → List Bytes × S × Outcome (Error E) ℕ
  add_nodes c leaf_hash s =
      let (s', failed) = f 0 c.size leaf_hash s in
      let result : List Bytes × S × Outcome (Error E) ℕ = elim failed [
        | some e ↦ (c.nodes, s', err (external e))
        | none ↦
            if c.size == 0
            then (c.nodes ++ leaf_hash ∷ [], s', ok c.size)
            else add_loop (suc c.size) c.size c.nodes c.size 0 c.size leaf_hash s'
      ] in
      result

  -- AddLeafHash with what it defers: the size grows and the root is calculated on every return.
  unfoldable pub add_leaf_hash :
      CompactMerkleTree → Bytes → S → CompactMerkleTree × S × Outcome (Error E) ℕ
  add_leaf_hash c leaf_hash s =
      let (nodes, s', result) = add_nodes c leaf_hash s in
      let (c', s'', root_result) =
        recalculate_root (record c { nodes = nodes; size = c.size + 1 }) s' in
      (c', s'', deferred result root_result)

  -- The results of AddLeaf: the sequence number and the leaf hash.
  abbrev pub with_hash : Bytes → Outcome (Error E) ℕ → Outcome (Error E) (ℕ × Bytes)
  with_hash h (ok seq) = ok (seq, h)
  with_hash h (err e) = err e
  with_hash h panic = panic
  with_hash h out_of_fuel = out_of_fuel

  abbrev pub add_hashed :
      CompactMerkleTree
      → S
      → Outcome E Bytes
      → CompactMerkleTree × S × Outcome (Error E) (ℕ × Bytes)
  add_hashed c s (ok h) = let (c', s', result) = add_leaf_hash c h s in (c', s', with_hash h result)
  add_hashed c s (err e) = (c, s, err (external e))
  add_hashed c s panic = (c, s, panic)
  add_hashed c s out_of_fuel = (c, s, out_of_fuel)

  unfoldable pub add_leaf :
      CompactMerkleTree → Bytes → S → CompactMerkleTree × S × Outcome (Error E) (ℕ × Bytes)
  add_leaf c leaf s = add_hashed c s (hasher.hash_leaf leaf)
