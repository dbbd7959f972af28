-- ===== src/Merkle/Tree/Position.antt =====
-- Where a node stands in its level: as a child with a sibling, or alone at the end.
use trillian.Prelude.{ℕ, suc, ◌*◌, ◌+◌, ◌/◌, ◌<◌, ◌≡◌, ltb, arith, Bool-cases, inl, inr}
use trillian.Merkle.Common.{is_right_child}

-- Where a node stands in a level of `n` nodes.
pub data Position (n i : ℕ) : Type 0 where
  right : (j : ℕ) → i ≡ suc (2 * j) → suc (2 * j) < n → Position n i
  left : (j : ℕ) → i ≡ 2 * j → suc (2 * j) < n → Position n i
  alone : (j : ℕ) → i ≡ 2 * j → suc (2 * j) ≡ n → Position n i

pub position : (n i : ℕ) → i < n → Position n i
position n i h = elim (Bool-cases (is_right_child i)) [
  | inl odd ↦ right (i / 2) (ground arith) (ground arith)
  | inr even ↦ elim (Bool-cases (ltb (i + 1) n)) [
    | inl inner ↦ left (i / 2) (ground arith) (ground arith)
    | inr last ↦ alone (i / 2) (ground arith) (ground arith)
  ]
]
