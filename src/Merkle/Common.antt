-- ===== src/Merkle/Common.antt =====
-- merkle/common.go: the tree coordinates of parents. An `int64` index is a number here; the code
-- calls these with indices that are not negative.
use trillian.Prelude.{ℕ, ◌/◌, ◌%◌, Bool, ◌==◌}

-- `leafIndex >> 1`
abbrev pub parent : ℕ → ℕ
parent leaf_index = leaf_index / 2

-- `leafIndex & 1 == 1`
abbrev pub is_right_child : ℕ → Bool
is_right_child leaf_index = leaf_index % 2 == 1
