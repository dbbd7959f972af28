-- ===== src/Merkle/Hstar2/Tests.antt =====
-- Runs of merkle/hstar2.go on trees of 16 bits, with a hash that keeps its input.
use trillian.Prelude.{
  ℕ, ◌+◌, ◌-◌, ◌/◌, ◌^◌, ◌≡◌, refl, List, [], ◌∷◌, ◌++◌, Bytes, ok, err, Option, none, some,
  if◌then◌else◌, ◌==◌, arith,
}
use native.Mathlib.Nat.{mul-div_cancel}
use trillian.Prelude.Bits.{two-pow_pos}
use trillian.Prelude.Int.{pos}
use trillian.Merkle.MapHasher.{MapHasher}
use trillian.Merkle.Hstar2.{
  LeafHash, leaves_at_one_index, SparseGetNodeFunc, SparseSetNodeFunc, hstar2_root, hstar2_nodes,
}
use trillian.Merkle.Hstar2.Tree.{node_value, node}
use trillian.Merkle.Hstar2.Insertion.{insertion, insertion-Sorts, insertion-Searches}
use trillian.Merkle.Hstar2.Correct.{Yields}
use trillian.Merkle.Hstar2.Written.{written}
use trillian.Merkle.Hstar2.Root.{no_leaves, hstar2_root_lem}
use trillian.Merkle.Hstar2.Repeated.{hstar2_root-err}
use trillian.Merkle.Hstar2.Nodes.{Gets, Sets, hstar2_nodes_lem}

abbrev hasher : MapHasher (Unit {0})
hasher = record {
  hash_empty = λ tree_id path height. 0 ∷ height ∷ path;
  hash_leaf = λ tree_id index leaf. ok (2 ∷ leaf);
  hash_children = λ l r. 1 ∷ l ++ r;
  size = 1;
  bit_len = 16;
}

-- Two leaves of a tree of two levels, the second one first.
abbrev two_values : List LeafHash
two_values =
    record { index = 0x8001; leaf_hash = 12 ∷ [] }
    ∷ record { index = 0x0003; leaf_hash = 10 ∷ [] }
    ∷ []

abbrev root_of_two : Bytes
root_of_two =
    node_value hasher (pos 7) 0 0
      (node hasher (pos 7) (written (2 ^ 14) two_values no_leaves) 2 0 0)

-- The leaves, and the empty ones at their places.
root_of_two_test : root_of_two ≡ 1 ∷ 1 ∷ 10 ∷ 0 ∷ 14 ∷ 0x40 ∷ 0 ∷ 1 ∷ 12 ∷ 0 ∷ 14 ∷ 0xC0 ∷ 0 ∷ []
unfolding node
root_of_two_test = refl

hstar2_root_lem_example :
    hstar2_root {S = Unit {0}} hasher (pos 7) insertion 2 two_values tt ≡ (tt, ok root_of_two)
hstar2_root_lem_example =
    hstar2_root_lem hasher (pos 7) insertion insertion-Sorts insertion-Searches 2 14 two_values tt
      (omega arith) (omega arith) (omega arith, (omega arith, tt))
      (((λ e. absurd (omega arith)), tt), (tt, tt))

abbrev one_place : List LeafHash
one_place =
    record { index = 0x8001; leaf_hash = 12 ∷ [] }
    ∷ record { index = 0x0003; leaf_hash = 10 ∷ [] }
    ∷ record { index = 0x8001; leaf_hash = 11 ∷ [] }
    ∷ []

hstar2_root-err_example :
    hstar2_root {S = Unit {0}} hasher (pos 7) insertion 16 one_place tt
    ≡ (tt, err leaves_at_one_index)
hstar2_root-err_example =
    hstar2_root-err hasher (pos 7) insertion insertion-Sorts insertion-Searches 16 0 one_place tt
      (omega arith) (omega arith) (omega arith, (omega arith, (omega arith, tt)))
      (λ apart. apart.0.1.0 refl)

-- A tree of two levels below the prefix 5, which has a leaf at each place but the last.
abbrev old : ℕ → Option Bytes
old k = if k == 23 then none else some (9 ∷ k ∷ [])

abbrev below_five : List LeafHash
below_five = record { index = 0x0581; leaf_hash = 12 ∷ [] } ∷ []

-- The nodes that were written, the last one first.
abbrev Log : Type 0
Log = List (ℕ × ℕ × Bytes)

-- The nodes of the old tree, of which the leaves are at the depth 10.
abbrev getter : SparseGetNodeFunc Log (Unit {0})
getter depth index log =
    (log, ok (node hasher (pos 7) old (10 - depth) depth (index / 2 ^ (16 - depth))))

abbrev setter : SparseSetNodeFunc Log (Unit {0})
setter depth index hash log = ((depth, index, hash) ∷ log, ok tt)

old_nodes : Gets hasher (pos 7) 6 (λ log. Unit {0}) (written (2 ^ 6) below_five old) old getter
old_nodes n d j log levels small p same =
    let height : 16 - d ≡ n + 6 = omega arith in
    let level : 10 - d ≡ n = omega arith in
    record {
      state = tt;
      returned = rw (height, level, mul-div_cancel j (two-pow_pos (n + 6))) refl;
    }

takes_nodes : Sets hasher (pos 7) 6 (λ log. Unit {0}) (written (2 ^ 6) below_five old) setter
takes_nodes n d j log levels small p = record { state = tt; returned = refl }

hstar2_nodes_lem_example :
    Yields
      (λ log. Unit {0})
      (node_value hasher (pos 7) 8 5 (node hasher (pos 7) (written (2 ^ 6) below_five old) 2 8 5))
      (hstar2_nodes hasher (pos 7) insertion (5 ∷ []) 2 below_five (some getter) (some setter) [])
hstar2_nodes_lem_example =
    hstar2_nodes_lem hasher (pos 7) insertion insertion-Sorts insertion-Searches (5 ∷ []) 2 6 old
      below_five (λ log. Unit {0}) getter setter [] (omega arith) (omega arith) (omega arith, tt)
      ((omega arith, omega arith), tt) (tt, tt) old_nodes takes_nodes tt
