-- ===== src/Merkle/Hashers.antt =====
-- merkle/hashers/tree_hasher.go: the interface of the hash functions of a log.
use trillian.Prelude.{ℕ, Bytes, Outcome}

-- `LogHasher`; `E` is the type of the errors of `HashLeaf`. `Size` is not called by the code
-- that is modelled, and is kept for completeness.
pub record LogHasher (E : Type 0) : Type 0 where
  pub empty_root : Bytes
  pub hash_leaf : Bytes → Outcome E Bytes
  pub hash_children : Bytes → Bytes → Bytes
  pub size : ℕ
