-- ===== src/Merkle/Hstar2/Root.antt =====
-- HStar2Root of merkle/hstar2.go, against the tree with all its leaves.
use mathlib.Core.Path.{ap₂}
use trillian.Prelude.{
  ℕ, zero, suc, ◌+◌, ◌-◌, ◌*◌, ◌/◌, ◌%◌, ◌^◌, ◌<◌, ◌≡◌, refl, sym, ap, ◌∙◌, List, [], ◌∷◌, Bytes,
  ok, Option, none, false, ◌||◌, not, ltb, ◌==◌, arith,
}
use native.Mathlib.Nat.{mul-lt-mul_of_pos_right, zero-mul}
use trillian.Prelude.Bits.{two-pow_pos}
use trillian.Prelude.Int.{ℤ}
use trillian.Storage.NodeId.Coords.{two-pow-add, two-pow_bytes}
use trillian.Storage.NodeId.Paths.{be_bytes, new_node_id_from_big_int}
use trillian.Merkle.MapHasher.{MapHasher}
use trillian.Merkle.Hstar2.{LeafHash, Sorting, empty_hash, hstar2_root}
use trillian.Merkle.Hstar2.Tree.{empty_node, node_value, join, node}
use trillian.Merkle.Hstar2.Sorted.{All, Sorts, Searches}
use trillian.Merkle.Hstar2.Levels.{Within}
use trillian.Merkle.Hstar2.Placed.{Apart}
use trillian.Merkle.Hstar2.Correct.{Reads, Writes, hstar2b-node}
use trillian.Merkle.Hstar2.Written.{written, sort-Placed}

abbrev pub no_leaves : ℕ → Option Bytes
no_leaves k = none

module _ {E : Type 0} (hasher : MapHasher E) (tree_id : ℤ) (bytes : hasher.bit_len % 8 ≡ 0) where
  node-no_leaves : (n d j : ℕ) → node hasher tree_id no_leaves n d j ≡ none
  unfolding node
  node-no_leaves zero d j = refl
  node-no_leaves (suc n) d j =
      ap₂ (join hasher tree_id d j) (node-no_leaves n (suc d) (2 * j))
        (node-no_leaves n (suc d) (suc (2 * j)))

  -- The first index below a node fits the path.
  pub offset_fits :
      (n d j w : ℕ)
      → d + n + w ≡ hasher.bit_len
      → j < 2 ^ d
      → j * (2 ^ n * 2 ^ w) < 256 ^ (hasher.bit_len / 8)
  offset_fits n d j w levels small =
      let span = two-pow-add n w in
      let width : 2 ^ d * 2 ^ (n + w) ≡ 256 ^ (hasher.bit_len / 8) =
        sym (two-pow-add d (n + w))
        ∙ ap (λ (x : ℕ). 2 ^ x) (omega arith)
        ∙ two-pow_bytes (hasher.bit_len / 8) in
      let below : j * 2 ^ (n + w) < 2 ^ d * 2 ^ (n + w) =
        mul-lt-mul_of_pos_right small (two-pow_pos (n + w)) in
      grind arith

  -- HashEmpty of a node, whose first index is a multiple of the indices below it.
  pub empty_hash-node :
      (n d j w : ℕ)
      → d + n + w ≡ hasher.bit_len
      → j < 2 ^ d
      → empty_hash hasher tree_id (j * (2 ^ n * 2 ^ w)) d ≡ ok (empty_node hasher tree_id d j)
  unfolding new_node_id_from_big_int
  empty_hash-node n d j w levels small =
      let fits = offset_fits n d j w levels small in
      let index = j * (2 ^ n * 2 ^ w) in
      let valid : (not (hasher.bit_len % 8 == 0) || not (ltb index (256 ^ (hasher.bit_len / 8))))
          ≡ false =
        ground arith in
      let same : index ≡ j * 2 ^ (hasher.bit_len - d) =
        ap (λ (x : ℕ). j * x) (sym (two-pow-add n w) ∙ ap (λ (x : ℕ). 2 ^ x) (omega arith)) in
      rw (empty_hash, valid)
        (ap
          (λ (x : ℕ).
            ok (hasher.hash_empty tree_id (be_bytes (hasher.bit_len / 8) x) (hasher.bit_len - d)))
          same)

  -- Without a function that gets nodes, those of a tree without leaves are read.
  pub no_getter-Reads :
      {S : Type 0} (w : ℕ) (s : S) (new : ℕ → Option Bytes)
      → Reads hasher tree_id w (λ t. t ≡ s) no_leaves new none
  no_getter-Reads w s new n d j t levels small p same = record {
    state = p;
    returned =
        empty_hash-node n d j w levels small
        ∙ ap (λ x. ok (node_value hasher tree_id d j x)) (sym (same ∙ node-no_leaves n d j));
  }

  pub no_setter-Writes :
      {S : Type 0} (w : ℕ) (s : S) (new : ℕ → Option Bytes)
      → Writes {E = E} hasher tree_id w (λ t. t ≡ s) new none
  no_setter-Writes w s new n d j t levels small p = record { state = p; returned = refl }

pub in_tree :
    (depth w : ℕ) (values : List LeafHash)
    → All (λ v. v.index < 2 ^ (depth + w)) values
    → All (Within (2 ^ w) depth 0) values
in_tree depth w [] h = tt
in_tree depth w (v ∷ values) (first, rest) =
    let whole = two-pow-add depth w in ((omega arith, omega arith), in_tree depth w values rest)

-- HStar2Root of values in any order, of which no two are at one leaf of the tree of the depth, is
-- the root of the full tree that has exactly these leaves, an empty subtree having the hash of its
-- place and height. The indices and the depth are at most the hasher's, which are whole bytes.
pub hstar2_root_lem :
    {S E : Type 0} (hasher : MapHasher E) (tree_id : ℤ) (sorting : Sorting)
    → Sorts sorting
    → Searches sorting
    → (depth w : ℕ) (values : List LeafHash) (s : S) → hasher.bit_len % 8 ≡ 0
    → depth + w ≡ hasher.bit_len
    → All (λ v. v.index < 2 ^ (depth + w)) values
    → Apart (2 ^ w) values
    → hstar2_root hasher tree_id sorting depth values s ≡ (
      s,
      ok (
          node_value hasher tree_id 0 0
            (node hasher tree_id (written (2 ^ w) values no_leaves) depth 0 0)),
    )
unfolding hstar2_root
hstar2_root_lem hasher tree_id sorting sorts searches depth w values s bytes whole inside apart =
    let new = written (2 ^ w) values no_leaves in
    let placed =
      sort-Placed sorting sorts (2 ^ w) depth 0 values no_leaves (in_tree depth w values inside)
        apart in
    let start : 0 * (2 ^ depth * 2 ^ w) ≡ 0 = zero-mul (2 ^ depth * 2 ^ w) in
    let result = rw start at (
      hstar2b-node hasher tree_id sorting searches w (λ t. t ≡ s) no_leaves new none none
        (no_getter-Reads hasher tree_id bytes w s new)
        (no_setter-Writes hasher tree_id bytes w s new) depth 0 0 (sorting.sort values) s
        (omega arith) (omega arith) placed refl) in
    ap₂ (λ t r. (t, r)) result.state result.returned
