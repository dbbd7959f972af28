-- ===== src/Merkle/Tree/Split.antt =====
-- The tree hash of RFC 6962 is the root of the levels.
use mathlib.Core.Path.{ap₂, ◌≡⟨◌⟩◌, ◌∎}
use trillian.Prelude.{
  ℕ, zero, suc, ◌+◌, ◌-◌, ◌*◌, ◌^◌, ◌≤◌, ◌<◌, ◌≡◌, refl, sym, ap, List, [], ◌∷◌, ◌++◌, Bytes, arith,
  length, length-take, length-drop, take, drop, take-append-drop, ltb, Bool-cases, inl, inr,
}
use trillian.Prelude.Bits.{two-pow-suc, two-pow_pos}
use trillian.Merkle.Tree.{up, top, root, split_from, split_point, mth_fuel, mth}
use trillian.Merkle.Tree.Levels.{length-up, root-up, root_one}

-- A power of two below `n` that is at least half of it.
pub record IsSplit (n k : ℕ) : Type 0 where
  pub exponent : ℕ
  pub power : k ≡ 2 ^ exponent
  pub below : k < n
  pub reaches : n ≤ 2 * k

split_from-IsSplit : (f e k n : ℕ) → k ≡ 2 ^ e → k < n → n ≤ k + f → IsSplit n (split_from f k n)
unfolding split_from
split_from-IsSplit zero e k n p b g = absurd (omega arith)
split_from-IsSplit (suc f) e k n p b g = elim (Bool-cases (ltb (2 * k) n)) [
  | inl more ↦ rw more (
      split_from-IsSplit f (suc e) (2 * k) n (omega (arith, two-pow-suc e)) (ground arith)
        (omega (arith, two-pow_pos e)))
  | inr done ↦ rw done (record { exponent = e; power = p; below = b; reaches = ground arith })
]

pub split_point-IsSplit : (n : ℕ) → 1 < n → IsSplit n (split_point n)
unfolding split_point
split_point-IsSplit n h = split_from-IsSplit n 0 1 n refl h (omega arith)

module _ (hc : Bytes → Bytes → Bytes) where
  up-append :
      (m : ℕ) (xs ys : List Bytes) → length xs ≡ 2 * m → up hc (xs ++ ys) ≡ up hc xs ++ up hc ys
  unfolding up
  up-append m [] ys h = refl
  up-append m (x ∷ []) ys h = absurd (omega arith)
  up-append m (x ∷ y ∷ r) ys h = ap (◌∷◌ (hc x y)) (up-append (m - 1) r ys (omega arith))

  -- The tree over `2 ^ k` leaves, and at most as many behind them, has two subtrees under its root.
  pub root-append :
      (k : ℕ) (xs ys : List Bytes)
      → length xs ≡ 2 ^ k
      → 0 < length ys
      → length ys ≤ 2 ^ k
      → root hc (xs ++ ys) ≡ hc (root hc xs) (root hc ys)
  unfolding root top up
  root-append zero (x ∷ []) (y ∷ []) p q r = refl
  root-append zero (x ∷ []) [] p q r = absurd (omega arith)
  root-append zero (x ∷ []) (y ∷ z ∷ ys) p q r = absurd (omega arith)
  root-append zero [] ys p q r = absurd (omega arith)
  root-append zero (x ∷ z ∷ xs) ys p q r = absurd (omega arith)
  root-append (suc k) xs ys p q r =
      let e = two-pow-suc k in
      root hc (xs ++ ys)
      ≡⟨ sym (root-up hc (xs ++ ys)) ⟩ root hc (up hc (xs ++ ys))
      ≡⟨ ap (root hc) (up-append (2 ^ k) xs ys (omega arith)) ⟩ root hc (up hc xs ++ up hc ys)
      ≡⟨ root-append k (up hc xs) (up hc ys) (omega (arith, length-up hc xs))
          (omega (arith, length-up hc ys)) (omega (arith, length-up hc ys)) ⟩
        hc (root hc (up hc xs)) (root hc (up hc ys))
      ≡⟨ ap₂ hc (root-up hc xs) (root-up hc ys) ⟩ hc (root hc xs) (root hc ys) ∎

  pub root-mth_fuel :
      (f : ℕ) (e : Bytes) (l : List Bytes)
      → 0 < length l
      → length l ≤ f
      → mth_fuel hc f e l ≡ root hc l
  unfolding mth_fuel
  root-mth_fuel zero e l p q = absurd (omega arith)
  root-mth_fuel (suc f) e [] p q = absurd (omega arith)
  root-mth_fuel (suc f) e (x ∷ []) p q = sym (root_one hc x)
  root-mth_fuel (suc f) e (x ∷ y ∷ r) p q =
      let l = x ∷ y ∷ r in
      let k = split_point (length l) in
      let s = split_point-IsSplit (length l) (omega arith) in
      let t = length-take k l in
      let d = length-drop k l in
      let pos = two-pow_pos s.exponent in
      hc (mth_fuel hc f e (take k l)) (mth_fuel hc f e (drop k l))
      ≡⟨ ap₂ hc
          (root-mth_fuel f e (take k l) (omega (arith, s.power, s.below)) (omega (arith, s.below)))
          (root-mth_fuel f e (drop k l) (omega (arith, s.below))
            (omega (arith, s.power, s.below))) ⟩
        hc (root hc (take k l)) (root hc (drop k l))
      ≡⟨ sym (
          root-append s.exponent (take k l) (drop k l) (omega (arith, s.power, s.below))
            (omega (arith, s.below)) (omega (arith, s.power, s.reaches))) ⟩
        root hc (take k l ++ drop k l)
      ≡⟨ ap (root hc) (take-append-drop k l) ⟩ root hc l ∎

  -- The tree hash of RFC 6962 is the root of the levels, for a tree that is not empty.
  pub mth-eq-root : (e : Bytes) (l : List Bytes) → 0 < length l → mth hc e l ≡ root hc l
  unfolding mth
  mth-eq-root e l h = root-mth_fuel (length l) e l h (omega arith)

  pub mth_empty : (e : Bytes) → mth hc e [] ≡ e
  unfolding mth mth_fuel
  mth_empty e = refl
