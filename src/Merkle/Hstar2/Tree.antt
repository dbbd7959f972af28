-- ===== src/Merkle/Hstar2/Tree.antt =====
-- The sparse Merkle tree that merkle/hstar2.go calculates roots of, with all its leaves. No code of
-- the repository builds it; the code is compared to it.
use mathlib.Core.Path.{ap₂}
use trillian.Prelude.{
  ℕ, zero, suc, ◌-◌, ◌*◌, ◌/◌, ◌^◌, ◌<◌, ◌≤◌, ◌≡◌, Bytes, Option, none, some, arith,
}
use trillian.Prelude.Bits.{two-pow-suc}
use trillian.Prelude.Int.{ℤ}
use trillian.Merkle.MapHasher.{MapHasher}
use trillian.Storage.NodeId.Paths.{be_bytes}

-- The slots below a node.
abbrev pub Below : ℕ → ℕ → ℕ → Type 0
Below levels slot k = (slot * 2 ^ levels ≤ k) × (k < suc slot * 2 ^ levels)

low_half :
    (j k q : ℕ) → 2 * j * q ≤ k → k < suc (2 * j) * q → (j * (2 * q) ≤ k) × (k < suc j * (2 * q))
low_half j k q low high = (grind arith, grind arith)

high_half :
    (j k q : ℕ)
    → suc (2 * j) * q ≤ k
    → k < suc (suc (2 * j)) * q
    → (j * (2 * q) ≤ k) × (k < suc j * (2 * q))
high_half j k q low high = (grind arith, grind arith)

pub left-Below : (n j k : ℕ) → Below n (2 * j) k → Below (suc n) j k
left-Below n j k (low, high) = rw (two-pow-suc n) (low_half j k (2 ^ n) low high)

pub right-Below : (n j k : ℕ) → Below n (suc (2 * j)) k → Below (suc n) j k
right-Below n j k (low, high) = rw (two-pow-suc n) (high_half j k (2 ^ n) low high)

module _ {E : Type 0} (hasher : MapHasher E) (tree_id : ℤ) where
  -- The hash of a subtree without leaves: the one at the place `slot` from the left, `depth` levels
  -- below the root.
  abbrev pub empty_node : ℕ → ℕ → Bytes
  empty_node depth slot =
      hasher.hash_empty tree_id
        (be_bytes (hasher.bit_len / 8) (slot * 2 ^ (hasher.bit_len - depth)))
        (hasher.bit_len - depth)

  -- The hash of a node: a node without a hash of its own has an empty subtree's.
  abbrev pub node_value : ℕ → ℕ → Option Bytes → Bytes
  node_value depth slot none = empty_node depth slot
  node_value depth slot (some h) = h

  -- A node above two nodes, which has a hash of its own if one of them has.
  abbrev pub join : ℕ → ℕ → Option Bytes → Option Bytes → Option Bytes
  join depth slot none none = none
  join depth slot none (some r) = some (hasher.hash_children (empty_node (suc depth) (2 * slot)) r)
  join depth slot (some l) none =
      some (hasher.hash_children l (empty_node (suc depth) (suc (2 * slot))))
  join depth slot (some l) (some r) = some (hasher.hash_children l r)

  module _ (leaf : ℕ → Option Bytes) where
    -- The node `levels` above the leaves, `depth` below the root.
    unfoldable pub node : ℕ → ℕ → ℕ → Option Bytes
    node zero depth slot = leaf slot
    node (suc levels) depth slot =
        join depth slot (node levels (suc depth) (2 * slot))
          (node levels (suc depth) (suc (2 * slot)))

  -- Trees with the same leaves below a node have the same node.
  pub node-eq :
      (old new : ℕ → Option Bytes) (levels depth slot : ℕ)
      → ((k : ℕ) → Below levels slot k → new k ≡ old k)
      → node new levels depth slot ≡ node old levels depth slot
  unfolding node
  node-eq old new zero depth slot same = same slot (omega arith, omega arith)
  node-eq old new (suc n) depth slot same =
      ap₂ (join depth slot)
        (node-eq old new n (suc depth) (2 * slot) (λ k b. same k (left-Below n slot k b)))
        (node-eq old new n (suc depth) (suc (2 * slot)) (λ k b. same k (right-Below n slot k b)))
