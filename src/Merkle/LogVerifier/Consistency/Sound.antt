-- ===== src/Merkle/LogVerifier/Consistency/Sound.antt =====
-- Consistency proofs, soundness: an accepted proof ties the older root to the newer tree.
use mathlib.Core.Path.{ap₂}
use trillian.Prelude.{
  ℕ, zero, suc, ◌-◌, ◌/◌, ◌<◌, ◌≡◌, ◌⊎◌, sym, ◌∙◌, List, [], ◌∷◌, Bytes, length, take, get_or, ok,
  ◌>>=◌, true, false, ltb, ◌==◌, length-take, if◌then◌else◌, Bool-cases, inl, inr, arith,
}
use trillian.Prelude.Int.{pos}
use trillian.Merkle.Common.{is_right_child}
use trillian.Merkle.Tree.{up, root, siblings, extension_fuel, extension, mth}
use trillian.Merkle.Tree.Split.{mth-eq-root}
use trillian.Merkle.Tree.Collision.{Collision}
use trillian.Merkle.Tree.Levels.{length-up, root-up}
use trillian.Merkle.LogVerifier.{climb, check_from, check_consistency, verify_consistency_proof}
use trillian.Merkle.LogVerifier.Soundness.{walk_sound}
use trillian.Merkle.LogVerifier.Consistency.Accepted.{check_roots-Accepted}
use trillian.Merkle.LogVerifier.Consistency.Older.{
  StartOf, up-StartOf, root_of_one, older_walk-siblings,
}
use trillian.Merkle.LogVerifier.Consistency.Complete.{take-StartOf}

module _ (hc : Bytes → Bytes → Bytes) where
  -- The proof of the level, as `extension` has it when no more climbing is to be done.
  abbrev level_proof : ℕ → List Bytes → List Bytes
  level_proof node l =
      if ltb 0 node then get_or l node [] ∷ siblings hc node l else siblings hc node l

  check_from_sound :
      (l1 l2 : List Bytes) (node : ℕ) (root1 : Bytes) (proof : List Bytes)
      → StartOf l1 l2 node
      → check_from hc root1 (root hc l2) proof node (length l2 - 1) ≡ ok tt
      → ((root1 ≡ root hc l1) × (proof ≡ level_proof node l2)) ⊎ Collision hc
  unfolding check_from siblings
  check_from_sound l1 l2 zero root1 proof x w =
      let g = length l2 in
      let a =
        (check_roots-Accepted hc g 0 (length l2 - 1) root1 (root hc l2) root1 root1 [] proof
            (omega (arith, x.longer)) (omega arith)).0
          w in
      elim (walk_sound hc g g 0 l2 root1 proof (omega (arith, x.longer)) (omega arith) (omega arith)
        a.0) [
          | inr c ↦ inr c
          | inl s ↦ inl (s.0 ∙ sym x.last ∙ sym (root_of_one hc l1 x.extends.size), s.1)
        ]
  check_from_sound l1 l2 (suc node) root1 [] x w =
      let positive : ltb 0 (suc node) ≡ true = ground arith in cc (rw positive at w)
  check_from_sound l1 l2 (suc node) root1 (first ∷ rest) x w =
      let positive : ltb 0 (suc node) ≡ true = ground arith in
      let g = length l2 in
      let a =
        (check_roots-Accepted hc g (suc node) (length l2 - 1) root1 (root hc l2) first first
            (first ∷ []) rest (omega (arith, x.longer)) (omega (arith, x.longer, x.extends.size))).0
          (rw positive at w) in
      rw positive
        (elim (walk_sound hc g g (suc node) l2 first rest (omega (arith, x.longer, x.extends.size))
          (omega arith) (omega arith) a.0) [
            | inr c ↦ inr c
            | inl s ↦
                let older =
                  older_walk-siblings hc (suc (suc node)) g (suc node) l1 l2 x.extends (omega arith)
                    (omega arith) in
                inl (sym (rw (s.0, ← x.last, s.1) at a.1) ∙ older, ap₂ ◌∷◌ s.0 s.1)
          ])

  climb_sound :
      (f g : ℕ) (l1 l2 : List Bytes) (node : ℕ) (root1 : Bytes) (proof : List Bytes)
      → StartOf l1 l2 node
      → node < f
      → node < g
      → (climb f node (length l2 - 1) >>= λ (i, last).
          check_from hc root1 (root hc l2) proof i last)
        ≡ ok tt
      → ((root1 ≡ root hc l1) × (proof ≡ extension_fuel hc g node l2)) ⊎ Collision hc
  unfolding climb extension_fuel
  climb_sound zero g l1 l2 node root1 proof x p q w = absurd (omega arith)
  climb_sound (suc f) zero l1 l2 node root1 proof x p q w = absurd (omega arith)
  climb_sound (suc f) (suc g) l1 l2 node root1 proof x p q w =
      elim (Bool-cases (is_right_child node)) [
        | inr even ↦ rw even (check_from_sound l1 l2 node root1 proof x (rw even at w))
        | inl odd ↦
            let above : (length l2 - 1) / 2 ≡ length (up hc l2) - 1 =
              omega (arith, length-up hc l2, x.longer) in
            rw (odd, ← root-up hc l1)
              (climb_sound f g (up hc l1) (up hc l2) (node / 2) root1 proof
                (up-StartOf hc l1 l2 node x odd) (ground arith) (ground arith)
                (rw (odd, above, ← root-up hc l2) at w))
      ]

  pub verify_consistency_proof_sound :
      (e : Bytes) (m : ℕ) (l : List Bytes) (root1 : Bytes) (proof : List Bytes)
      → 0 < m
      → m < length l
      → verify_consistency_proof hc (pos m) (pos (length l)) root1 (mth hc e l) proof ≡ ok tt
      → ((root1 ≡ mth hc e (take m l)) × (proof ≡ extension hc m l)) ⊎ Collision hc
  unfolding verify_consistency_proof check_consistency extension
  verify_consistency_proof_sound e m l root1 proof p q w =
      let x = take-StartOf hc m l p q in
      let ordered : ltb (length l) m ≡ false = ground arith in
      let different : (m == length l) ≡ false = ground arith in
      let positive : (m == 0) ≡ false = ground arith in
      rw (mth-eq-root hc e (take m l) (omega (arith, length-take m l)))
        (elim (Bool-cases (length proof == 0)) [
          | inl none ↦ cc (rw (ordered, different, positive, none) at w)
          | inr some ↦
              climb_sound (suc (m - 1)) m (take m l) l (m - 1) root1 proof x (omega arith)
                (omega arith)
                (rw (ordered, different, positive, some, mth-eq-root hc e l (omega arith)) at w)
        ])
