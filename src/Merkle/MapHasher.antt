-- ===== src/Merkle/MapHasher.antt =====
-- merkle/hashers/tree_hasher.go: the interface of the hash functions of a map.
use trillian.Prelude.{ℕ, Bytes, Outcome}
use trillian.Prelude.Int.{ℤ}

-- `MapHasher`; `E` is the type of the errors of `HashLeaf`, and the numbers are bytes and bits.
pub record MapHasher (E : Type 0) : Type 0 where
  pub hash_empty : ℤ → Bytes → ℕ → Bytes
  pub hash_leaf : ℤ → Bytes → Bytes → Outcome E Bytes
  pub hash_children : Bytes → Bytes → Bytes
  pub size : ℕ
  pub bit_len : ℕ
