-- ===== src/Merkle/Hstar2/Placed.antt =====
-- The slices that hStar2b of merkle/hstar2.go is called with: the leaves below a node.
use trillian.Prelude.{
  ℕ, suc, ◌*◌, ◌^◌, ◌<◌, ◌≤◌, ◌≡◌, ◌≢◌, subst, List, Bytes, Option, some, take, drop,
}
use trillian.Merkle.Hstar2.{LeafHash, Sorting, split_index}
use trillian.Merkle.Hstar2.Tree.{Below, left-Below, right-Below}
use trillian.Merkle.Hstar2.Sorted.{
  All, Pairwise, Ascending, Searches, All-take, All-drop, Pairwise-take, Pairwise-drop, left_half,
  right_half,
}
use trillian.Merkle.Hstar2.Levels.{
  slot_of, Within, left-Within, right-Within, left-Missed, right-Missed, All-parts,
}

abbrev pub Apart : ℕ → List LeafHash → Type 0
Apart u = Pairwise (λ v w. slot_of u v ≢ slot_of u w)

-- The leaves of a slice are below a node, in order and at different places, and the leaves of the
-- new tree below the node are those of the old one and these.
pub record Placed (u : ℕ) (old new : ℕ → Option Bytes) (n j : ℕ) (vs : List LeafHash) : Type 0 where
  pub within : All (Within u n j) vs
  pub ascending : Ascending vs
  pub apart : Apart u vs
  pub written : All (λ v. new (slot_of u v) ≡ some v.leaf_hash) vs
  pub kept : (k : ℕ) → Below n j k → All (λ v. slot_of u v ≢ k) vs → new k ≡ old k

module _ (sorting : Sorting) (searches : Searches sorting) (u n j : ℕ) (vs : List LeafHash)
    (split : ℕ) (middle : split ≡ suc (2 * j) * (2 ^ n * u)) (ascending : Ascending vs)
    (within : All (Within u (suc n) j) vs) where
  -- The two slices that hStar2b calls itself with are below the two children.
  pub left_part : All (Within u n (2 * j)) (take (split_index sorting vs split) vs)
  left_part =
      let i = split_index sorting vs split in
      let below =
        subst (λ x. All (λ v. v.index < x) (take i vs)) middle
          (left_half sorting searches vs ascending split) in
      left-Within u n j (take i vs) (All-take (Within u (suc n) j) i vs within) below

  pub right_part : All (Within u n (suc (2 * j))) (drop (split_index sorting vs split) vs)
  right_part =
      let i = split_index sorting vs split in
      let above =
        subst (λ x. All (λ v. x ≤ v.index) (drop i vs)) middle
          (right_half sorting searches vs ascending split) in
      right-Within u n j (drop i vs) (All-drop (Within u (suc n) j) i vs within) above

module _ (sorting : Sorting) (searches : Searches sorting) (u : ℕ) (positive : 0 < u)
    (old new : ℕ → Option Bytes) (n j : ℕ) (vs : List LeafHash) (split : ℕ)
    (middle : split ≡ suc (2 * j) * (2 ^ n * u)) (placed : Placed u old new (suc n) j vs) where
  lefts : All (Within u n (2 * j)) (take (split_index sorting vs split) vs)
  lefts = left_part sorting searches u n j vs split middle placed.ascending placed.within

  rights : All (Within u n (suc (2 * j))) (drop (split_index sorting vs split) vs)
  rights = right_part sorting searches u n j vs split middle placed.ascending placed.within

  pub left-Placed : Placed u old new n (2 * j) (take (split_index sorting vs split) vs)
  left-Placed =
      let i = split_index sorting vs split in
      record {
        within = lefts;
        ascending = Pairwise-take (λ v w. v.index ≤ w.index) i vs placed.ascending;
        apart = Pairwise-take (λ v w. slot_of u v ≢ slot_of u w) i vs placed.apart;
        written = All-take (λ v. new (slot_of u v) ≡ some v.leaf_hash) i vs placed.written;
        kept = λ k b missed. placed.kept k (left-Below n j k b) (
            All-parts (λ v. slot_of u v ≢ k) i vs missed
              (right-Missed u n j k (drop i vs) positive b rights));
      }

  pub right-Placed : Placed u old new n (suc (2 * j)) (drop (split_index sorting vs split) vs)
  right-Placed =
      let i = split_index sorting vs split in
      record {
        within = rights;
        ascending = Pairwise-drop (λ v w. v.index ≤ w.index) i vs placed.ascending;
        apart = Pairwise-drop (λ v w. slot_of u v ≢ slot_of u w) i vs placed.apart;
        written = All-drop (λ v. new (slot_of u v) ≡ some v.leaf_hash) i vs placed.written;
        kept = λ k b missed. placed.kept k (right-Below n j k b) (
            All-parts (λ v. slot_of u v ≢ k) i vs (left-Missed u n j k (take i vs) positive b lefts)
              missed);
      }
