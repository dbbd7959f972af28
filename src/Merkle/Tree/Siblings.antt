-- ===== src/Merkle/Tree/Siblings.antt =====
-- The siblings of a leaf, level by level.
use trillian.Prelude.{
  ℕ, zero, suc, ◌+◌, ◌-◌, ◌*◌, ◌/◌, ◌%◌, ◌<◌, ◌≤◌, ◌≡◌, refl, List, [], ◌∷◌, ◌++◌, Bytes, length,
  get_or, arith, ltb, ◌==◌, true, false,
}
use trillian.Merkle.Tree.{up, sibling, siblings_fuel}
use trillian.Merkle.Tree.Levels.{length-up}
use trillian.Merkle.Tree.Position.{position, right, left, alone}

module _ (hc : Bytes → Bytes → Bytes) where
  pub siblings_step :
      (g i : ℕ) (l : List Bytes)
      → 1 < length l
      → siblings_fuel hc (suc g) i l ≡ sibling hc i l ++ siblings_fuel hc g (i / 2) (up hc l)
  unfolding siblings_fuel
  siblings_step g i [] h = absurd (omega arith)
  siblings_step g i (x ∷ []) h = absurd (omega arith)
  siblings_step g i (x ∷ y ∷ r) h = refl

  module _ (g j : ℕ) (l : List Bytes) where
    pub siblings_right :
        suc (2 * j) < length l
        → siblings_fuel hc (suc g) (suc (2 * j)) l
          ≡ get_or l (2 * j) [] ∷ siblings_fuel hc g j (up hc l)
    unfolding sibling
    siblings_right h =
        let odd : (suc (2 * j) % 2 == 1) ≡ true = ground arith in
        let half : suc (2 * j) / 2 ≡ j = omega arith in
        let before : suc (2 * j) - 1 ≡ 2 * j = omega arith in
        rw (siblings_step g (suc (2 * j)) l (omega arith), odd, half, before)

    pub siblings_left :
        suc (2 * j) < length l
        → siblings_fuel hc (suc g) (2 * j) l
          ≡ get_or l (suc (2 * j)) [] ∷ siblings_fuel hc g j (up hc l)
    unfolding sibling
    siblings_left h =
        let even : (2 * j % 2 == 1) ≡ false = ground arith in
        let after : 2 * j + 1 ≡ suc (2 * j) = omega arith in
        let half : 2 * j / 2 ≡ j = omega arith in
        let inner : ltb (suc (2 * j)) (length l) ≡ true = ground arith in
        rw (siblings_step g (2 * j) l (omega arith), even, half, after, inner)

    pub siblings_alone :
        suc (2 * j) ≡ length l
        → 1 < length l
        → siblings_fuel hc (suc g) (2 * j) l ≡ siblings_fuel hc g j (up hc l)
    unfolding sibling
    siblings_alone h several =
        let even : (2 * j % 2 == 1) ≡ false = ground arith in
        let after : 2 * j + 1 ≡ suc (2 * j) = omega arith in
        let half : 2 * j / 2 ≡ j = omega arith in
        let past : ltb (suc (2 * j)) (length l) ≡ false = ground arith in
        rw (siblings_step g (2 * j) l several, even, half, after, past)

  -- In a tree of several leaves every leaf has a sibling at some level.
  pub siblings-cons :
      (g i : ℕ) (l : List Bytes)
      → i < length l
      → 1 < length l
      → length l ≤ suc g
      → (p : Bytes) × (rest : List Bytes) × (siblings_fuel hc g i l ≡ p ∷ rest)
  siblings-cons zero i l h several q = absurd (omega arith)
  siblings-cons (suc g) i l h several q = elim (position (length l) i h) [
    | right j e b ↦
        rw e (get_or l (2 * j) [], siblings_fuel hc g j (up hc l), siblings_right g j l b)
    | left j e b ↦
        rw e (get_or l (suc (2 * j)) [], siblings_fuel hc g j (up hc l), siblings_left g j l b)
    | alone j e b ↦
        rw (e, siblings_alone g j l b several)
          (siblings-cons g j (up hc l) (omega (arith, length-up hc l))
            (omega (arith, length-up hc l)) (omega (arith, length-up hc l)))
  ]
