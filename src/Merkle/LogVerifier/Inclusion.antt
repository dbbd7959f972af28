-- ===== src/Merkle/LogVerifier/Inclusion.antt =====
-- Inclusion proofs, completeness: the verifier accepts the siblings of a leaf.

use trillian.Prelude.{
  ℕ, zero, suc, ◌-◌, ◌<◌, ◌≤◌, ◌≡◌, ◌∙◌, List, [], ◌∷◌, Bytes, ok, length, get_or, arith, dec_lt,
  leb, false, bytes_equal_refl,
}
use trillian.Prelude.Int.{pos}
use trillian.Merkle.Tree.{up, root, siblings_fuel, siblings, mth}
use trillian.Merkle.Tree.Levels.{length-up, root-up, root_one, get_or-up_pair, get_or-up_last}
use trillian.Merkle.Tree.Split.{mth-eq-root}
use trillian.Merkle.Tree.Position.{position, right, left, alone}
use trillian.Merkle.Tree.Siblings.{siblings_right, siblings_left, siblings_alone, siblings-cons}
use trillian.Merkle.LogVerifier.{root_from_inclusion_proof, verify_inclusion_proof}
use trillian.Merkle.LogVerifier.Walk.{
  walk, inclusion_loop-walk, walk-right, walk-left, walk-alone, walk_one,
}

module _ (hc : Bytes → Bytes → Bytes) where
  walk-siblings_one :
      (f g i : ℕ) (l : List Bytes)
      → i < length l
      → length l ≡ 1
      → walk hc (suc f) i (length l - 1) (get_or l i []) (siblings_fuel hc g i l) ≡ ok (root hc l)
  unfolding siblings_fuel
  walk-siblings_one f g i [] h e = absurd (omega arith)
  walk-siblings_one f zero zero (x ∷ []) h e = rw (root_one hc x) (walk_one hc f zero x)
  walk-siblings_one f (suc g) zero (x ∷ []) h e = rw (root_one hc x) (walk_one hc f zero x)
  walk-siblings_one f g (suc i) (x ∷ []) h e = absurd (omega arith)
  walk-siblings_one f g i (x ∷ y ∷ r) h e = absurd (omega arith)

  pub walk-siblings :
      (f g i : ℕ) (l : List Bytes)
      → i < length l
      → length l ≤ f
      → length l ≤ suc g
      → walk hc f i (length l - 1) (get_or l i []) (siblings_fuel hc g i l) ≡ ok (root hc l)
  walk-siblings zero g i l h p q = absurd (omega arith)
  walk-siblings (suc f) zero i l h p q = walk-siblings_one f zero i l h (omega arith)
  walk-siblings (suc f) (suc g) i l h p q = elim (dec_lt 1 (length l)) [
    | no few ↦ walk-siblings_one f (suc g) i l h (omega arith)
    | yes several ↦
        let above = λ (j : ℕ) (hj : j < length (up hc l)).
          rw (length-up, root-up) at
            (walk-siblings f g j (up hc l) hj (omega (arith, length-up hc l))
              (omega (arith, length-up hc l))) in
        elim (position (length l) i h) [
          | right j e b ↦
              rw (e, siblings_right hc g j l b, walk-right hc f (length l) _ several j _ _ b)
                (rw (get_or-up_pair hc l j b) at (above j (omega (arith, length-up hc l))))
          | left j e b ↦
              rw (e, siblings_left hc g j l b, walk-left hc f (length l) _ several j _ _ b)
                (rw (get_or-up_pair hc l j b) at (above j (omega (arith, length-up hc l))))
          | alone j e b ↦
              let hj : j < length (up hc l) = omega (arith, length-up hc l) in
              let (x, rest, c) =
                siblings-cons hc g j (up hc l) hj (omega (arith, length-up hc l))
                  (omega (arith, length-up hc l)) in
              rw (e, siblings_alone hc g j l b several, c)
                (rw (walk-alone hc f (length l) _ several j _ _ b)
                  (rw (get_or-up_last hc l j b, c) at (above j hj)))
        ]
  ]

  pub root_from_inclusion_proof-siblings :
      (i : ℕ) (l : List Bytes)
      → i < length l
      → root_from_inclusion_proof hc (pos i) (pos (length l)) (siblings hc i l) (get_or l i [])
        ≡ ok (root hc l)
  unfolding root_from_inclusion_proof siblings
  root_from_inclusion_proof-siblings i l h =
      let proof = siblings_fuel hc (length l) i l in
      let inside : leb (length l) i ≡ false = ground arith in
      rw inside (
        inclusion_loop-walk hc (suc (length l - 1)) i (length l - 1) (get_or l i []) [] proof
        ∙ walk-siblings (suc (length l - 1)) (length l) i l h (omega arith) (omega arith))

  -- For every leaf of a tree, VerifyInclusionProof accepts the hashes of the leaf's siblings, from
  -- the leaf up, against the tree hash of RFC 6962.
  pub verify_inclusion_proof-siblings :
      (e : Bytes) (l : List Bytes) (i : ℕ)
      → i < length l
      → verify_inclusion_proof hc
          (pos i)
          (pos (length l))
          (siblings hc i l)
          (mth hc e l)
          (get_or l i [])
        ≡ ok tt
  unfolding verify_inclusion_proof
  verify_inclusion_proof-siblings e l i h =
      rw (
        root_from_inclusion_proof-siblings i l h,
        mth-eq-root hc e l (omega arith),
        bytes_equal_refl,
      )
