-- ===== src/Merkle/Tree.antt =====
-- What a log's Merkle tree is: the tree hash of RFC 6962, and the same tree read level by level,
-- as the code in merkle/ walks it. Neither is code of the repository; the code is compared to them.
pub mod Levels
pub mod Split
pub mod Collision
pub mod Position
pub mod Siblings
use trillian.Prelude.{
  ℕ, zero, suc, ◌+◌, ◌-◌, ◌*◌, ◌/◌, ◌%◌, ◌<◌, List, [], ◌∷◌, ◌++◌, Bytes, Option, none, some,
  length, get_elem?, get_or, take, drop, ltb, leb, ◌==◌, if◌then◌else◌,
}

-- The largest power of two that is smaller than `n`, found by doubling.
unfoldable pub split_from : ℕ → ℕ → ℕ → ℕ
split_from zero k n = k
split_from (suc f) k n = let rest = split_from f (2 * k) n in if ltb (2 * k) n then rest else k

unfoldable pub split_point : ℕ → ℕ
unfolding split_from
split_point n = split_from n 1 n

module _ (hash_children : Bytes → Bytes → Bytes) where
  -- MTH of RFC 6962, section 2.1, over the hashes of the leaves; the fuel is a bound on the length.
  unfoldable pub mth_fuel : ℕ → Bytes → List Bytes → Bytes
  mth_fuel zero empty leaves = empty
  mth_fuel (suc f) empty [] = empty
  mth_fuel (suc f) empty (x ∷ []) = x
  mth_fuel (suc f) empty (x ∷ y ∷ r) =
      let k = split_point (length (x ∷ y ∷ r)) in
      hash_children (mth_fuel f empty (take k (x ∷ y ∷ r))) (mth_fuel f empty (drop k (x ∷ y ∷ r)))

  unfoldable pub mth : Bytes → List Bytes → Bytes
  mth empty leaves = mth_fuel (length leaves) empty leaves

  -- The next level: siblings are hashed together, and a last node with no sibling is carried up.
  unfoldable pub up : List Bytes → List Bytes
  up [] = []
  up (x ∷ []) = x ∷ []
  up (x ∷ y ∷ r) = hash_children x y ∷ up r

  -- The first node of the level `k` above a level.
  unfoldable pub top : ℕ → List Bytes → Bytes
  top zero l = get_or l 0 []
  top (suc k) l = top k (up l)

  -- The root above a level that is not empty.
  unfoldable pub root : List Bytes → Bytes
  root l = top (length l) l

  -- The sibling of node `i` of a level, if it has one.
  unfoldable pub sibling : ℕ → List Bytes → List Bytes
  sibling i l =
      if i % 2 == 1
      then get_or l (i - 1) [] ∷ []
      else if ltb (i + 1) (length l)
      then get_or l (i + 1) [] ∷ []
      else []

  -- The siblings on the way from node `i` of a level to the root; the fuel bounds the length.
  unfoldable pub siblings_fuel : ℕ → ℕ → List Bytes → List Bytes
  siblings_fuel zero i l = []
  siblings_fuel (suc f) i [] = []
  siblings_fuel (suc f) i (x ∷ []) = []
  siblings_fuel (suc f) i (x ∷ y ∷ r) =
      sibling i (x ∷ y ∷ r) ++ siblings_fuel f (i / 2) (up (x ∷ y ∷ r))

  unfoldable pub siblings : ℕ → List Bytes → List Bytes
  siblings i l = siblings_fuel (length l) i l

  -- The proof that a tree extends the tree of its first nodes, up to `node`: the hash of the largest
  -- full subtree that ends at `node`, unless this is the whole older tree, and the siblings on the
  -- way from it to the root.
  unfoldable pub extension_fuel : ℕ → ℕ → List Bytes → List Bytes
  extension_fuel zero node l = []
  extension_fuel (suc f) node l =
      let climbed = extension_fuel f (node / 2) (up l) in
      let here = if ltb 0 node then get_or l node [] ∷ siblings node l else siblings node l in
      if node % 2 == 1 then climbed else here

  -- The consistency proof between a tree's first `m` leaves, at least one, and the tree.
  unfoldable pub extension : ℕ → List Bytes → List Bytes
  extension m l = extension_fuel m (m - 1) l

  -- The next level without the node that is carried up: what the program stores.
  unfoldable pub pairs : List Bytes → List Bytes
  pairs [] = []
  pairs (x ∷ []) = []
  pairs (x ∷ y ∷ r) = hash_children x y ∷ pairs r

  -- The nodes of level `k` that have a full subtree below them.
  unfoldable pub level : ℕ → List Bytes → List Bytes
  level zero l = l
  level (suc k) l = level k (pairs l)
