-- ===== src/Merkle/LogVerifier/Consistency/Complete.antt =====
-- Consistency proofs, completeness: the proof between a tree's first leaves and the tree is accepted.
use trillian.Prelude.{
  ℕ, zero, suc, ◌-◌, ◌/◌, ◌<◌, ◌≡◌, List, [], ◌∷◌, Bytes, length, take, get_or, ok, ◌>>=◌, true,
  false, ltb, ◌==◌, if◌then◌else◌, Bool-cases, inl, inr, arith, length-take, get_or-take,
}
use trillian.Prelude.Int.{pos}
use trillian.Merkle.Common.{is_right_child}
use trillian.Merkle.Tree.{up, root, siblings, siblings_fuel, extension_fuel, extension, mth}
use trillian.Merkle.Tree.Split.{mth-eq-root}
use trillian.Merkle.Tree.Siblings.{siblings-cons}
use trillian.Merkle.Tree.Levels.{length-up, root-up}
use trillian.Merkle.LogVerifier.{climb, check_from, check_consistency, verify_consistency_proof}
use trillian.Merkle.LogVerifier.Inclusion.{walk-siblings}
use trillian.Merkle.LogVerifier.Consistency.Accepted.{older_walk_zero, check_roots-Accepted}
use trillian.Merkle.LogVerifier.Consistency.Older.{
  StartOf, up-StartOf, root_of_one, older_walk-siblings,
}

module _ (hc : Bytes → Bytes → Bytes) where
  check_from-siblings :
      (l1 l2 : List Bytes) (node : ℕ)
      → StartOf l1 l2 node
      → check_from hc
          (root hc l1)
          (root hc l2)
          (if ltb 0 node then get_or l2 node [] ∷ siblings hc node l2 else siblings hc node l2)
          node
          (length l2 - 1)
        ≡ ok tt
  unfolding check_from siblings
  check_from-siblings l1 l2 zero x =
      let lone = root_of_one hc l1 x.extends.size in
      let sibs = siblings_fuel hc (length l2) 0 l2 in
      let g = length l2 in
      (check_roots-Accepted hc g 0 (length l2 - 1) (root hc l1) (root hc l2) (root hc l1)
          (root hc l1) [] sibs (omega (arith, x.longer)) (omega arith)).1
        (
          rw (lone, x.last)
              (walk-siblings hc g g 0 l2 (omega (arith, x.longer)) (omega arith) (omega arith)),
          older_walk_zero hc 0 (length l2 - 1) (root hc l1) sibs,
        )
  check_from-siblings l1 l2 (suc node) x =
      let positive : ltb 0 (suc node) ≡ true = ground arith in
      let sibs = siblings_fuel hc (length l2) (suc node) l2 in
      let first = get_or l2 (suc node) [] in
      let g = length l2 in
      rw positive (
        (check_roots-Accepted hc g (suc node) (length l2 - 1) (root hc l1) (root hc l2) first first
            (first ∷ []) sibs (omega (arith, x.longer)) (omega (arith, x.longer, x.extends.size))).1
          (
            walk-siblings hc g g (suc node) l2 (omega (arith, x.longer, x.extends.size))
                (omega arith) (omega arith),
            rw (← x.last) (
                older_walk-siblings hc (suc (suc node)) g (suc node) l1 l2 x.extends (omega arith)
                  (omega arith)),
          ))

  climb-extension :
      (f g : ℕ) (l1 l2 : List Bytes) (node : ℕ)
      → StartOf l1 l2 node
      → node < f
      → node < g
      → (climb f node (length l2 - 1) >>= λ (i, last).
          check_from hc (root hc l1) (root hc l2) (extension_fuel hc g node l2) i last)
        ≡ ok tt
  unfolding climb extension_fuel
  climb-extension zero g l1 l2 node x p q = absurd (omega arith)
  climb-extension (suc f) zero l1 l2 node x p q = absurd (omega arith)
  climb-extension (suc f) (suc g) l1 l2 node x p q = elim (Bool-cases (is_right_child node)) [
    | inr even ↦ rw even (check_from-siblings l1 l2 node x)
    | inl odd ↦
        let above : (length l2 - 1) / 2 ≡ length (up hc l2) - 1 =
          omega (arith, length-up hc l2, x.longer) in
        rw (odd, above, ← root-up hc l1, ← root-up hc l2)
          ((climb-extension f g (up hc l1) (up hc l2) (node / 2) (up-StartOf hc l1 l2 node x odd)
            (ground arith) (ground arith)))
  ]

  pub take-StartOf : (m : ℕ) (l : List Bytes) → 0 < m → m < length l → StartOf (take m l) l (m - 1)
  take-StartOf m l p q =
      let t = length-take m l in
      record {
        extends = record {
          size = omega arith;
          fits = omega arith;
          agree = λ k h. get_or-take m l k [] (omega arith);
        };
        longer = omega arith;
        last = get_or-take m l (m - 1) [] (omega arith);
      }

  -- The consistency proof between a tree's first `m` leaves and the tree is not empty.
  extension_fuel-ne-nil :
      (g node : ℕ) (l : List Bytes)
      → node < g
      → suc node < length l
      → 0 < length (extension_fuel hc g node l)
  unfolding extension_fuel siblings
  extension_fuel-ne-nil zero node l p q = absurd (omega arith)
  extension_fuel-ne-nil (suc g) node l p q = elim (Bool-cases (is_right_child node)) [
    | inl odd ↦ rw odd (
        extension_fuel-ne-nil g (node / 2) (up hc l) (ground arith)
          (ground (arith, length-up hc l)))
    | inr even ↦ rw even (elim (Bool-cases (ltb 0 node)) [
      | inl inner ↦ rw inner (omega arith)
      | inr first ↦
          let c = siblings-cons hc (length l) node l (omega arith) (omega arith) (omega arith) in
          rw (first, c.2) (omega arith)
    ])
  ]

  -- For every tree and every shorter one of its first leaves that is not empty,
  -- VerifyConsistencyProof accepts the hash of the older tree's last full subtree, unless it is
  -- the whole older tree, and the siblings on the way up from it, against the two tree hashes of
  -- RFC 6962.
  pub verify_consistency_proof-extension :
      (e : Bytes) (m : ℕ) (l : List Bytes)
      → 0 < m
      → m < length l
      → verify_consistency_proof hc
          (pos m)
          (pos (length l))
          (mth hc e (take m l))
          (mth hc e l)
          (extension hc m l)
        ≡ ok tt
  unfolding verify_consistency_proof check_consistency extension
  verify_consistency_proof-extension e m l p q =
      let x = take-StartOf m l p q in
      let ordered : ltb (length l) m ≡ false = ground arith in
      let different : (m == length l) ≡ false = ground arith in
      let positive : (m == 0) ≡ false = ground arith in
      let some_proof : (length (extension_fuel hc m (m - 1) l) == 0) ≡ false =
        ground (arith, extension_fuel-ne-nil m (m - 1) l) in
      let climbed =
        climb-extension (suc (m - 1)) m (take m l) l (m - 1) x (omega arith) (omega arith) in
      rw
        (
          ordered,
          different,
          positive,
          some_proof,
          mth-eq-root hc e l (omega arith),
          mth-eq-root hc e (take m l) (omega (arith, length-take m l)),
        )
        climbed
