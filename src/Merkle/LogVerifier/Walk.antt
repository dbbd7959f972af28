-- ===== src/Merkle/LogVerifier/Walk.antt =====
-- The verifier's loop, read as a walk that takes the elements of the proof off a list.
use trillian.Prelude.{
  ℕ, zero, suc, ◌+◌, ◌-◌, ◌*◌, ◌/◌, ◌<◌, ◌≡◌, ◌≢◌, refl, List, [], ◌∷◌, ◌++◌, append-nil,
  append_assoc, Bytes, Outcome, ok, err, out_of_fuel, ◌>>=◌, length, length-append, get_elem?-past,
  get_elem?-append, ltb, ◌==◌, if◌then◌else◌, arith, Bool-cases, inl, inr,
}
use trillian.Merkle.Common.{parent, is_right_child}
use trillian.Merkle.LogVerifier.{Error, insufficient_proof, invalid_proof, inclusion_loop}

module _ (hc : Bytes → Bytes → Bytes) where
  -- What is left of the proof after a round.
  unfoldable pub walk : ℕ → ℕ → ℕ → Bytes → List Bytes → Outcome Error Bytes
  walk zero i last h rest = out_of_fuel
  walk (suc f) i last h [] = if ltb 0 last then err insufficient_proof else ok h
  walk (suc f) i last h (p ∷ rest) =
      let right = walk f (parent i) (parent last) (hc p h) rest in
      let left = walk f (parent i) (parent last) (hc h p) rest in
      let alone = walk f (parent i) (parent last) h (p ∷ rest) in
      if ltb 0 last
      then (if is_right_child i then right else if ltb i last then left else alone)
      else err invalid_proof

  abbrev pub finish : List Bytes → Bytes × ℕ → Outcome Error Bytes
  finish proof (calc, used) = if used == length proof then ok calc else err invalid_proof

  pub inclusion_loop-walk :
      (f i last : ℕ) (h : Bytes) (pre rest : List Bytes)
      → (inclusion_loop hc f i last h (pre ++ rest) (length pre) >>= finish (pre ++ rest))
        ≡ walk f i last h rest
  unfolding inclusion_loop walk
  inclusion_loop-walk zero i last h pre rest = refl
  inclusion_loop-walk (suc f) i last h pre [] =
      rw (append-nil, get_elem?-past pre (length pre) (omega arith)) (ground arith)
  inclusion_loop-walk (suc f) i last h pre (p ∷ rest) =
      let advance = λ (h' : Bytes).
        rw (append_assoc, length-append {0} pre (p ∷ [])) at
          (inclusion_loop-walk f (parent i) (parent last) h' (pre ++ p ∷ []) rest) in
      let past : length pre ≢ length (pre ++ p ∷ rest) =
        omega (arith, length-append pre (p ∷ rest)) in
      rw (get_elem?-append pre p rest) (elim (Bool-cases (ltb 0 last)) [
        | inr done ↦ rw done (ground arith)
        | inl more ↦ rw more (elim (Bool-cases (is_right_child i)) [
          | inl right ↦ rw right (advance (hc p h))
          | inr left ↦ rw left (elim (Bool-cases (ltb i last)) [
            | inl inner ↦ rw inner (advance (hc h p))
            | inr alone ↦ rw alone (inclusion_loop-walk f (parent i) (parent last) h pre (p ∷ rest))
          ])
        ])
      ])

-- The length of the next level of a tree, as `length-up` gives it.
abbrev pub half_up : ℕ → ℕ
half_up n = (n + 1) / 2

module _ (hc : Bytes → Bytes → Bytes) (f n : ℕ) (h : Bytes) (several : 1 < n) where
  halves : (n - 1) / 2 ≡ half_up n - 1
  halves = omega arith

  pub walk-right :
      (j : ℕ) (p : Bytes) (rest : List Bytes)
      → suc (2 * j) < n
      → walk hc (suc f) (suc (2 * j)) (n - 1) h (p ∷ rest)
        ≡ walk hc f j (half_up n - 1) (hc p h) rest
  unfolding walk
  walk-right j p rest b = let i : suc (2 * j) / 2 ≡ j = omega arith in ground (arith, i, halves)

  pub walk-left :
      (j : ℕ) (p : Bytes) (rest : List Bytes)
      → suc (2 * j) < n
      → walk hc (suc f) (2 * j) (n - 1) h (p ∷ rest) ≡ walk hc f j (half_up n - 1) (hc h p) rest
  unfolding walk
  walk-left j p rest b = let i : 2 * j / 2 ≡ j = omega arith in ground (arith, i, halves)

  pub walk-alone :
      (j : ℕ) (p : Bytes) (rest : List Bytes)
      → suc (2 * j) ≡ n
      → walk hc (suc f) (2 * j) (n - 1) h (p ∷ rest) ≡ walk hc f j (half_up n - 1) h (p ∷ rest)
  unfolding walk
  walk-alone j p rest b = let i : 2 * j / 2 ≡ j = omega arith in ground (arith, i, halves)

  pub walk-nil : (i : ℕ) → walk hc (suc f) i (n - 1) h [] ≡ err insufficient_proof
  unfolding walk
  walk-nil i = ground arith

pub walk_one : (hc : Bytes → Bytes → Bytes) (f i : ℕ) (h : Bytes) → walk hc (suc f) i 0 h [] ≡ ok h
unfolding walk
walk_one hc f i h = refl

pub walk_extra :
    (hc : Bytes → Bytes → Bytes) (f i : ℕ) (h p : Bytes) (rest : List Bytes)
    → walk hc (suc f) i 0 h (p ∷ rest) ≡ err invalid_proof
unfolding walk
walk_extra hc f i h p rest = refl
