-- ===== src/Merkle/LogVerifier/Consistency/Older.antt =====
-- The older root: a tree's first nodes, at the level of its last full subtree, and what the
-- siblings on the way up in the newer tree make of them.
use mathlib.Core.Path.{ap₂}
use trillian.Prelude.{
  ℕ, zero, suc, ◌-◌, ◌*◌, ◌/◌, ◌<◌, ◌≤◌, ◌≡◌, sym, ◌∙◌, List, [], ◌∷◌, Bytes, length, get_or, arith,
  true,
}
use trillian.Merkle.Common.{is_right_child}
use trillian.Merkle.Tree.{up, root, siblings_fuel}
use trillian.Merkle.Tree.Levels.{length-up, root-up, root_one, get_or-up_pair, get_or-up_last}
use trillian.Merkle.Tree.Position.{position, right, left, alone}
use trillian.Merkle.Tree.Siblings.{siblings_right, siblings_left, siblings_alone, siblings-cons}
use trillian.Merkle.LogVerifier.Walk.{half_up}
use trillian.Merkle.LogVerifier.Consistency.Accepted.{older_walk, older_walk_zero}

-- The level `l1` ends at `node`, and is like `l2` before it.
pub record Extends (l1 l2 : List Bytes) (node : ℕ) : Type 0 where
  pub size : length l1 ≡ suc node
  pub fits : length l1 ≤ length l2
  pub agree : (k : ℕ) → k < node → get_or l1 k [] ≡ get_or l2 k []

module _ (hc : Bytes → Bytes → Bytes) where
  pub up-Extends :
      (l1 l2 : List Bytes) (node : ℕ)
      → Extends l1 l2 node
      → Extends (up hc l1) (up hc l2) (node / 2)
  up-Extends l1 l2 node x = record {
    size = omega (arith, length-up hc l1, x.size);
    fits = omega (arith, length-up hc l1, length-up hc l2, x.fits);
    agree = λ k h.
        let s = x.size in
        let t = x.fits in
        get_or-up_pair hc l1 k (omega arith)
        ∙ ap₂ hc (x.agree (2 * k) (omega arith)) (x.agree (suc (2 * k)) (omega arith))
        ∙ sym (get_or-up_pair hc l2 k (omega arith));
  }

  pub root_of_one : (l : List Bytes) → length l ≡ 1 → root hc l ≡ get_or l 0 []
  root_of_one [] e = absurd (omega arith)
  root_of_one (x ∷ []) e = root_one hc x
  root_of_one (x ∷ y ∷ r) e = absurd (omega arith)

  module _ (f n j : ℕ) (h p : Bytes) (rest : List Bytes) where
    older_right :
        suc (2 * j) < n
        → older_walk hc (suc f) (suc (2 * j)) (n - 1) h (p ∷ rest)
          ≡ older_walk hc f j (half_up n - 1) (hc p h) rest
    unfolding older_walk
    older_right b =
        let i : suc (2 * j) / 2 ≡ j = omega arith in
        let last : (n - 1) / 2 ≡ half_up n - 1 = omega arith in ground (arith, i, last)

    older_left :
        0 < j
        → suc (2 * j) < n
        → older_walk hc (suc f) (2 * j) (n - 1) h (p ∷ rest)
          ≡ older_walk hc f j (half_up n - 1) h rest
    unfolding older_walk
    older_left q b =
        let i : 2 * j / 2 ≡ j = omega arith in
        let last : (n - 1) / 2 ≡ half_up n - 1 = omega arith in ground (arith, i, last)

    older_alone :
        0 < j
        → suc (2 * j) ≡ n
        → older_walk hc (suc f) (2 * j) (n - 1) h (p ∷ rest)
          ≡ older_walk hc f j (half_up n - 1) h (p ∷ rest)
    unfolding older_walk
    older_alone q b =
        let i : 2 * j / 2 ≡ j = omega arith in
        let last : (n - 1) / 2 ≡ half_up n - 1 = omega arith in ground (arith, i, last)

  -- The siblings of the older tree's last node lead its hash to the older root.
  pub older_walk-siblings :
      (f g node : ℕ) (l1 l2 : List Bytes)
      → Extends l1 l2 node
      → node < f
      → length l2 ≤ suc g
      → older_walk hc f node (length l2 - 1) (get_or l1 node []) (siblings_fuel hc g node l2)
        ≡ root hc l1
  older_walk-siblings zero g node l1 l2 x p q = absurd (omega arith)
  older_walk-siblings (suc f) g zero l1 l2 x p q =
      older_walk_zero hc f (length l2 - 1) (get_or l1 0 []) (siblings_fuel hc g 0 l2)
      ∙ sym (root_of_one l1 x.size)
  older_walk-siblings (suc f) zero (suc node) l1 l2 x p q = absurd (omega (arith, x.size, x.fits))
  older_walk-siblings (suc f) (suc g) (suc node) l1 l2 x p q =
      let s = x.size in
      let t = x.fits in
      let above = λ (j : ℕ) (e : suc node / 2 ≡ j).
        rw (length-up, root-up) at
          (older_walk-siblings f g j (up hc l1) (up hc l2) (rw e at (up-Extends l1 l2 (suc node) x))
            (omega arith) (omega (arith, length-up hc l2))) in
      elim (position (length l2) (suc node) (omega arith)) [
        | right j e b ↦
            let n1 : suc (2 * j) < length l1 = omega arith in
            rw
              (
                e,
                siblings_right hc g j l2 b,
                ← x.agree (2 * j) (omega arith),
                older_right f (length l2) j _ _ _ b,
              )
              (rw (get_or-up_pair hc l1 j n1) at (above j (omega arith)))
        | left j e b ↦
            let n1 : suc (2 * j) ≡ length l1 = omega arith in
            rw (e, siblings_left hc g j l2 b, older_left f (length l2) j _ _ _ (omega arith) b)
              (rw (get_or-up_last hc l1 j n1) at (above j (omega arith)))
        | alone j e b ↦
            let n1 : suc (2 * j) ≡ length l1 = omega arith in
            let (y, rest, c) =
              siblings-cons hc g j (up hc l2) (omega (arith, length-up hc l2))
                (omega (arith, length-up hc l2)) (omega (arith, length-up hc l2)) in
            rw
              (
                e,
                siblings_alone hc g j l2 b (omega arith),
                c,
                older_alone f (length l2) j _ _ _ (omega arith) b,
              )
              (rw (get_or-up_last hc l1 j n1, c) at (above j (omega arith)))
      ]

-- The level `l1` is the start of `l2`, which is longer.
pub record StartOf (l1 l2 : List Bytes) (node : ℕ) : Type 0 where
  pub extends : Extends l1 l2 node
  pub longer : length l1 < length l2
  pub last : get_or l1 node [] ≡ get_or l2 node []

module _ (hc : Bytes → Bytes → Bytes) where
  pub up-StartOf :
      (l1 l2 : List Bytes) (node : ℕ)
      → StartOf l1 l2 node
      → is_right_child node ≡ true
      → StartOf (up hc l1) (up hc l2) (node / 2)
  up-StartOf l1 l2 node x odd =
      let s = x.extends.size in
      let t = x.longer in
      let k = node / 2 in
      let e : suc (2 * k) ≡ node = ground arith in
      let below : 2 * k < node = omega arith in
      record {
        extends = up-Extends hc l1 l2 node x.extends;
        longer = omega (arith, length-up hc l1, length-up hc l2);
        last =
            get_or-up_pair hc l1 k (omega arith)
            ∙ ap₂ hc (x.extends.agree (2 * k) below) (rw (← e) at x.last)
            ∙ sym (get_or-up_pair hc l2 k (omega arith));
      }
