-- ===== src/Merkle/LogVerifier/Soundness.antt =====
-- Inclusion proofs, soundness: the verifier accepts another proof or another leaf hash only where
-- two different pairs of nodes have one hash.
use mathlib.Core.Path.{ap₂}
use trillian.Prelude.{
  ℕ, zero, suc, ◌-◌, ◌*◌, ◌<◌, ◌≤◌, ◌≡◌, ◌⊎◌, inl, inr, refl, sym, ap, ◌∙◌, List, [], ◌∷◌, Bytes,
  bytes_equal, bytes_equal→eq, Outcome, ok, err, panic, out_of_fuel, ◌>>=◌, length, get_or, leb,
  Bool-cases, if◌then◌else◌, arith, dec_lt,
}
use trillian.Prelude.Int.{ℤ, pos, negsuc}
use trillian.Merkle.Tree.{up, root, siblings_fuel, siblings, mth}
use trillian.Merkle.Tree.Levels.{length-up, root-up, root_one, get_or-up_pair, get_or-up_last}
use trillian.Merkle.Tree.Split.{mth-eq-root}
use trillian.Merkle.Tree.Collision.{Collision, children-eq}
use trillian.Merkle.Tree.Position.{position, right, left, alone}
use trillian.Merkle.Tree.Siblings.{siblings_right, siblings_left, siblings_alone}
use trillian.Merkle.LogVerifier.{
  Error, root_mismatch, root_from_inclusion_proof, verify_inclusion_proof,
}
use trillian.Merkle.LogVerifier.Walk.{
  walk, inclusion_loop-walk, half_up, walk-right, walk-left, walk-alone, walk-nil, walk_one,
  walk_extra,
}

accepted :
    (calc : Outcome Error Bytes) (r : Bytes)
    → ◌≡◌ {A = Outcome Error (Unit {0})}
        (calc >>= λ c. if bytes_equal c r then ok tt else err (root_mismatch c r))
        (ok tt)
    → calc ≡ ok r
accepted (ok c) r h = elim (Bool-cases (bytes_equal c r)) [
  | inl same ↦ ap ok (bytes_equal→eq c r same)
  | inr other ↦ cc (rw other at h)
]
accepted (err e) r h = cc
accepted panic r h = cc
accepted out_of_fuel r h = cc

module _ (hc : Bytes → Bytes → Bytes) where
  walk_sound_one :
      (f g i : ℕ) (l : List Bytes) (h : Bytes) (rest : List Bytes)
      → i < length l
      → length l ≡ 1
      → walk hc (suc f) i (length l - 1) h rest ≡ ok (root hc l)
      → (h ≡ get_or l i []) × (rest ≡ siblings_fuel hc g i l)
  unfolding siblings_fuel
  walk_sound_one f g i [] h rest a e w = absurd (omega arith)
  walk_sound_one f zero zero (x ∷ []) h [] a e w = (cc (root_one hc x, walk_one hc f zero h), refl)
  walk_sound_one f (suc g) zero (x ∷ []) h [] a e w =
      (cc (root_one hc x, walk_one hc f zero h), refl)
  walk_sound_one f g zero (x ∷ []) h (p ∷ rest) a e w = cc (walk_extra hc f zero h p rest)
  walk_sound_one f g (suc i) (x ∷ []) h rest a e w = absurd (omega arith)
  walk_sound_one f g i (x ∷ y ∷ r) h rest a e w = absurd (omega arith)

  -- What a walk that comes to the root has started from, unless it meets a collision.
  abbrev pub IsGenuine : ℕ → ℕ → List Bytes → Bytes → List Bytes → Type 0
  IsGenuine g i l h rest = ((h ≡ get_or l i []) × (rest ≡ siblings_fuel hc g i l)) ⊎ Collision hc

  -- One level, from the walk above it.
  module _ (f g i : ℕ) (l : List Bytes) (several : 1 < length l)
      (above : (j : ℕ) (h : Bytes) (rest : List Bytes)
        → j < length (up hc l)
        → walk hc f j (half_up (length l) - 1) h rest ≡ ok (root hc l)
        → IsGenuine g j (up hc l) h rest) where
    walk_sound_several :
        (h : Bytes) (rest : List Bytes)
        → i < length l
        → walk hc (suc f) i (length l - 1) h rest ≡ ok (root hc l)
        → IsGenuine (suc g) i l h rest
    walk_sound_several h [] a w = cc (walk-nil hc f (length l) h several i)
    walk_sound_several h (p ∷ rest) a w = elim (position (length l) i a) [
      | right j e b ↦
          let w' = rw (e, walk-right hc f (length l) h several j p rest b) at w in
          elim (above j (hc p h) rest (omega (arith, length-up hc l)) w') [
            | inr c ↦ inr c
            | inl s ↦
                elim (children-eq hc p h (get_or l (2 * j) []) (get_or l (suc (2 * j)) [])
                  (s.0 ∙ get_or-up_pair hc l j b)) [
                    | inr c ↦ inr c
                    | inl t ↦ inl (rw e t.1, rw (e, siblings_right hc g j l b) (ap₂ ◌∷◌ t.0 s.1))
                  ]
          ]
      | left j e b ↦
          let w' = rw (e, walk-left hc f (length l) h several j p rest b) at w in
          elim (above j (hc h p) rest (omega (arith, length-up hc l)) w') [
            | inr c ↦ inr c
            | inl s ↦
                elim (children-eq hc h p (get_or l (2 * j) []) (get_or l (suc (2 * j)) [])
                  (s.0 ∙ get_or-up_pair hc l j b)) [
                    | inr c ↦ inr c
                    | inl t ↦ inl (rw e t.0, rw (e, siblings_left hc g j l b) (ap₂ ◌∷◌ t.1 s.1))
                  ]
          ]
      | alone j e b ↦
          let w' = rw (e, walk-alone hc f (length l) h several j p rest b) at w in
          elim (above j h (p ∷ rest) (omega (arith, length-up hc l)) w') [
            | inr c ↦ inr c
            | inl s ↦ inl (
              rw e (s.0 ∙ get_or-up_last hc l j b),
              rw (e, siblings_alone hc g j l b several) s.1,
            )
          ]
    ]

  -- The walk comes to the root only from the leaf and its siblings, or through a collision.
  pub walk_sound :
      (f g i : ℕ) (l : List Bytes) (h : Bytes) (rest : List Bytes)
      → i < length l
      → length l ≤ f
      → length l ≤ suc g
      → walk hc f i (length l - 1) h rest ≡ ok (root hc l)
      → IsGenuine g i l h rest
  walk_sound zero g i l h rest a p q w = absurd (omega arith)
  walk_sound (suc f) zero i l h rest a p q w =
      inl (walk_sound_one f zero i l h rest a (omega arith) w)
  walk_sound (suc f) (suc g) i l h rest a p q w = elim (dec_lt 1 (length l)) [
    | no few ↦ inl (walk_sound_one f (suc g) i l h rest a (omega arith) w)
    | yes several ↦
        walk_sound_several f g i l several
          (λ j h' rest' hj w'.
            walk_sound f g j (up hc l) h' rest' hj (omega (arith, length-up hc l))
              (omega (arith, length-up hc l)) (rw (length-up, root-up) w'))
          h rest a w
  ]

  -- Where RootFromInclusionProof comes to the root of a tree for the tree's size, the index is in
  -- the tree, and the leaf hash and the proof are the tree's; or the two differ, and the node hash
  -- has a collision.
  pub root_from_inclusion_proof_sound :
      (index : ℤ) (l : List Bytes) (proof : List Bytes) (h : Bytes)
      → root_from_inclusion_proof hc index (pos (length l)) proof h ≡ ok (root hc l)
      → (i : ℕ) × (index ≡ pos i) × (i < length l) × IsGenuine (length l) i l h proof
  unfolding root_from_inclusion_proof
  root_from_inclusion_proof_sound (negsuc n) l proof h w = cc
  root_from_inclusion_proof_sound (pos i) l proof h w = elim (Bool-cases (leb (length l) i)) [
    | inl outside ↦ cc (rw outside at w)
    | inr inside ↦
        let hi : i < length l = ground arith in
        let loop = inclusion_loop-walk hc (suc (length l - 1)) i (length l - 1) h [] proof in
        (
          i,
          refl,
          hi,
          walk_sound (suc (length l - 1)) (length l) i l h proof hi (omega arith) (omega arith)
              (sym loop ∙ rw inside at w),
        )
  ]

  -- If VerifyInclusionProof accepts a leaf hash and a proof for the tree hash of a tree that is not
  -- empty and the tree's size, then the index is that of a leaf of the tree, the leaf hash is that
  -- leaf's and the proof holds its siblings; or two different pairs of nodes have one hash.
  pub verify_inclusion_proof_sound :
      (e : Bytes) (l : List Bytes) (index : ℤ) (proof : List Bytes) (h : Bytes)
      → 0 < length l
      → verify_inclusion_proof hc index (pos (length l)) proof (mth hc e l) h ≡ ok tt
      → (i : ℕ) × (index ≡ pos i)
        × (i < length l)
        × (((h ≡ get_or l i []) × (proof ≡ siblings hc i l)) ⊎ Collision hc)
  unfolding verify_inclusion_proof siblings
  verify_inclusion_proof_sound e l index proof h some_leaf w =
      let calc = root_from_inclusion_proof hc index (pos (length l)) proof h in
      let reached : calc ≡ ok (mth hc e l) = accepted calc (mth hc e l) w in
      root_from_inclusion_proof_sound index l proof h
        (reached ∙ ap ok (mth-eq-root hc e l some_leaf))
