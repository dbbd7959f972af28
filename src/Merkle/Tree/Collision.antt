-- ===== src/Merkle/Tree/Collision.antt =====
-- Where the tree hash is not injective.
use mathlib.Core.List.{List-discrete}
use trillian.Prelude.{◌≡◌, ◌⊎◌, inl, inr, Bytes, ℕ_discrete}

-- Two different pairs of nodes with one hash.
abbrev pub Collision : (Bytes → Bytes → Bytes) → Type 0
Collision hc =
    (a : Bytes) × (b : Bytes) × (c : Bytes) × (d : Bytes) × (hc a b ≡ hc c d)
    × ¬ ((a ≡ c) × (b ≡ d))

module _ (hc : Bytes → Bytes → Bytes) where
  -- A node hash that comes out right was made of the right children, or is a collision.
  pub children-eq : (a b c d : Bytes) → hc a b ≡ hc c d → ((a ≡ c) × (b ≡ d)) ⊎ Collision hc
  children-eq a b c d e = elim (List-discrete ℕ_discrete a c) [
    | no ne ↦ inr (a, b, c, d, e, λ same. ne same.0)
    | yes p ↦ elim (List-discrete ℕ_discrete b d) [
      | no ne ↦ inr (a, b, c, d, e, λ same. ne same.1)
      | yes q ↦ inl (p, q)
    ]
  ]
