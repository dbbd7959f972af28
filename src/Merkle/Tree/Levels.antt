-- ===== src/Merkle/Tree/Levels.antt =====
-- Facts about the levels of a tree: their lengths and entries, and that the root does not change
-- from a level to the next.
use trillian.Prelude.{
  ℕ, zero, suc, ◌+◌, ◌*◌, ◌/◌, ◌≤◌, ◌<◌, ◌≡◌, refl, List, [], ◌∷◌, Bytes, arith, length, get_or,
}
use trillian.Merkle.Tree.{up, top, root, pairs}

pub double-suc : (j : ℕ) → 2 * suc j ≡ suc (suc (2 * j))
double-suc j = omega arith

module _ (hc : Bytes → Bytes → Bytes) where
  pub length-up : (l : List Bytes) → length (up hc l) ≡ (length l + 1) / 2
  unfolding up
  length-up [] = omega arith
  length-up (x ∷ []) = omega arith
  length-up (x ∷ y ∷ r) = omega (arith, length-up r)

  pub length-pairs : (l : List Bytes) → length (pairs hc l) ≡ length l / 2
  unfolding pairs
  length-pairs [] = omega arith
  length-pairs (x ∷ []) = omega arith
  length-pairs (x ∷ y ∷ r) = omega (arith, length-pairs r)

  -- Enough levels up, the top is the root, whatever their number.
  pub top-le :
      (k j : ℕ) (l : List Bytes) → length l ≤ suc k → length l ≤ suc j → top hc k l ≡ top hc j l
  unfolding top up
  top-le zero zero l p q = refl
  top-le zero (suc j) [] p q = top-le zero j [] (omega arith) (omega arith)
  top-le zero (suc j) (x ∷ []) p q = top-le zero j (x ∷ []) (omega arith) (omega arith)
  top-le zero (suc j) (x ∷ y ∷ r) p q = absurd (omega arith)
  top-le (suc k) zero [] p q = top-le k zero [] (omega arith) (omega arith)
  top-le (suc k) zero (x ∷ []) p q = top-le k zero (x ∷ []) (omega arith) (omega arith)
  top-le (suc k) zero (x ∷ y ∷ r) p q = absurd (omega arith)
  top-le (suc k) (suc j) [] p q = top-le k j [] (omega arith) (omega arith)
  top-le (suc k) (suc j) (x ∷ []) p q = top-le k j (x ∷ []) (omega arith) (omega arith)
  top-le (suc k) (suc j) (x ∷ y ∷ r) p q =
      top-le k j (hc x y ∷ up hc r) (omega (arith, length-up r)) (omega (arith, length-up r))

  pub root-up : (l : List Bytes) → root hc (up hc l) ≡ root hc l
  unfolding root top up
  root-up [] = refl
  root-up (x ∷ r) =
      top-le (length (up hc (x ∷ r))) (length r) (up hc (x ∷ r)) (omega (arith, length-up (x ∷ r)))
        (omega (arith, length-up (x ∷ r)))

  pub root_one : (x : Bytes) → root hc (x ∷ []) ≡ x
  unfolding root top up
  root_one x = refl

  -- A node with a sibling is hashed with it.
  pub get_or-up_pair :
      (l : List Bytes) (j : ℕ)
      → suc (2 * j) < length l
      → get_or (up hc l) j [] ≡ hc (get_or l (2 * j) []) (get_or l (suc (2 * j)) [])
  unfolding up
  get_or-up_pair [] j h = absurd (omega arith)
  get_or-up_pair (x ∷ []) j h = absurd (omega arith)
  get_or-up_pair (x ∷ y ∷ r) zero h = refl
  get_or-up_pair (x ∷ y ∷ r) (suc j) h = rw (double-suc j) (get_or-up_pair r j (omega arith))

  -- The last node of a level of odd length is carried up.
  pub get_or-up_last :
      (l : List Bytes) (j : ℕ)
      → suc (2 * j) ≡ length l
      → get_or (up hc l) j [] ≡ get_or l (2 * j) []
  unfolding up
  get_or-up_last [] j h = absurd (omega arith)
  get_or-up_last (x ∷ []) zero h = refl
  get_or-up_last (x ∷ []) (suc j) h = absurd (omega arith)
  get_or-up_last (x ∷ y ∷ r) zero h = absurd (omega arith)
  get_or-up_last (x ∷ y ∷ r) (suc j) h = rw (double-suc j) (get_or-up_last r j (omega arith))
