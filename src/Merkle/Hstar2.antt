-- ===== src/Merkle/Hstar2.antt =====
-- merkle/hstar2.go: the root of a sparse Merkle tree. Indices and offsets, which are big integers,
-- are numbers. The functions that read and write nodes pass a state `S`; `sort` and `search` are
-- those of the standard library, at the types that they are used at.
pub mod Tree
pub mod Sorted
pub mod Levels
pub mod Placed
pub mod Correct
pub mod Written
pub mod Root
pub mod Nodes
pub mod Repeated
mod Insertion
mod Tests
use trillian.Prelude.{
  ℕ, zero, suc, ◌+◌, ◌-◌, ◌*◌, ◌^◌, List, [], ◌∷◌, Bytes, Outcome, ok, err, panic, out_of_fuel,
  Option, none, some, Bool, length, get_elem?, take, drop, ltb, leb, if◌then◌else◌,
}
use trillian.Prelude.Int.{ℤ}
use trillian.Merkle.BitLen.{bit_len}
use trillian.Merkle.MapHasher.{MapHasher}
use trillian.Storage.NodeId
use trillian.Storage.NodeId.{NodeId}
use trillian.Storage.NodeId.Paths.{
  new_node_id_from_big_int, new_node_id_from_prefix_suffix, no_error, big_int,
}
use trillian.Log.Tx.{Action, ◌>>=◌, ◌>>◌, return, fail, lift}

-- `HStar2LeafHash`
pub record LeafHash : Type 0 where
  pub index : ℕ
  pub leaf_hash : Bytes

-- The errors: those of the two functions are `E`.
pub data Error (E : Type 0) : Type 0 where
  subtree_overrun : Error E
  leaves_at_one_index : Error E
  get_failed : E → Error E

abbrev pub SparseGetNodeFunc : Type 0 → Type 0 → Type 0
SparseGetNodeFunc S E = ℕ → ℕ → Action S E (Option Bytes)

abbrev pub SparseSetNodeFunc : Type 0 → Type 0 → Type 0
SparseSetNodeFunc S E = ℕ → ℕ → Bytes → Action S E (Unit {0})

-- sort.Sort by index, and sort.Search.
pub record Sorting : Type 0 where
  pub sort : List LeafHash → List LeafHash
  pub search : ℕ → (ℕ → Bool) → ℕ

-- The index of an element of a slice; the code asks for none out of range.
abbrev pub index_at : List LeafHash → ℕ → ℕ
index_at [] i = 0
index_at (v ∷ values) zero = v.index
index_at (v ∷ values) (suc i) = index_at values i

abbrev pub get_result : {S E A : Type 0} → S × Outcome E A → S × Outcome (Error E) A
get_result (s, ok a) = (s, ok a)
get_result (s, err e) = (s, err (get_failed e))
get_result (s, panic) = (s, panic)
get_result (s, out_of_fuel) = (s, out_of_fuel)

-- A result whose error is dropped.
abbrev pub ignore_error :
    {S E : Type 0} → S × Outcome E (Unit {0}) → S × Outcome (Error E) (Unit {0})
ignore_error (s, ok u) = (s, ok u)
ignore_error (s, err e) = (s, ok tt)
ignore_error (s, panic) = (s, panic)
ignore_error (s, out_of_fuel) = (s, out_of_fuel)

module _ {E : Type 0} (hasher : MapHasher E) (tree_id : ℤ) where
  -- HashEmpty at a node.
  abbrev pub empty_hash : ℕ → ℕ → Outcome (Error E) Bytes
  empty_hash index depth = elim (new_node_id_from_big_int (bit_len index) index hasher.bit_len) [
    | ok id ↦ ok (hasher.hash_empty tree_id id.path (hasher.bit_len - depth))
    | err e ↦ panic
    | panic ↦ panic
    | out_of_fuel ↦ out_of_fuel
  ]

-- The place of the first value of the right subtree.
abbrev pub split_index : Sorting → List LeafHash → ℕ → ℕ
split_index sorting values split =
    sorting.search (length values) (λ i. leb split (index_at values i))

-- `HStar2.set`, whose error hStar2b drops.
abbrev pub set_node :
    {S E : Type 0} → Option (SparseSetNodeFunc S E) → ℕ → ℕ → Bytes → Action S (Error E) (Unit {0})
set_node none index depth h = return tt
set_node (some setter) index depth h = λ s. ignore_error (setter depth index h s)

module _ {S E : Type 0} (hasher : MapHasher E) (tree_id : ℤ) where
  abbrev pub or_empty : ℕ → ℕ → Option Bytes → Action S (Error E) Bytes
  or_empty index depth none = lift (empty_hash hasher tree_id index depth)
  or_empty index depth (some h) = return h

  -- `HStar2.get`
  abbrev pub get_node : Option (SparseGetNodeFunc S E) → ℕ → ℕ → Action S (Error E) Bytes
  get_node none index depth = lift (empty_hash hasher tree_id index depth)
  get_node (some getter) index depth = do
    h ← (λ s. get_result (getter depth index s))
    or_empty index depth h

  -- The base case of hStar2b.
  abbrev pub at_leaf :
      Option (SparseGetNodeFunc S E) → ℕ → List LeafHash → ℕ → Action S (Error E) Bytes
  at_leaf get depth [] offset = get_node get offset depth
  at_leaf get depth (v ∷ []) offset = return v.leaf_hash
  at_leaf get depth (v ∷ w ∷ values) offset = fail leaves_at_one_index

module _ {S E : Type 0} (hasher : MapHasher E) (tree_id : ℤ) (sorting : Sorting) where
  -- hStar2b for `levels` more levels, `maxDepth - depth`. A shift by a negative number, which is a
  -- large `uint`, panics.
  unfoldable pub hstar2b :
      ℕ
      → ℕ
      → List LeafHash
      → ℕ
      → Option (SparseGetNodeFunc S E)
      → Option (SparseSetNodeFunc S E)
      → Action S (Error E) Bytes
  hstar2b zero depth values offset get set = at_leaf hasher tree_id get depth values offset
  hstar2b (suc levels) depth [] offset get set = get_node hasher tree_id get offset depth
  hstar2b (suc levels) depth (v ∷ vs) offset get set =
      let split = 2 ^ (hasher.bit_len - depth - 1) + offset in
      let i = split_index sorting (v ∷ vs) split in
      if leb hasher.bit_len depth then lift panic else (do
        lhs ← hstar2b levels (suc depth) (take i (v ∷ vs)) offset get set
        rhs ← hstar2b levels (suc depth) (drop i (v ∷ vs)) split get set
        set_node set offset depth (hasher.hash_children lhs rhs)
        return (hasher.hash_children lhs rhs))

  unfoldable pub hstar2_root : ℕ → List LeafHash → Action S (Error E) Bytes
  hstar2_root depth values = hstar2b depth 0 (sorting.sort values) 0 none none

  unfoldable pub hstar2_nodes :
      Bytes
      → ℕ
      → List LeafHash
      → Option (SparseGetNodeFunc S E)
      → Option (SparseSetNodeFunc S E)
      → Action S (Error E) Bytes
  hstar2_nodes prefix subtree_depth values get set =
      let depth = length prefix * 8 in
      if ltb hasher.bit_len (depth + subtree_depth) then fail subtree_overrun else (do
        id ← lift (
            no_error (
              new_node_id_from_prefix_suffix prefix (record { bits = 0; path = [] })
                hasher.bit_len))
        hstar2b subtree_depth depth (sorting.sort values) (big_int id) get set)
