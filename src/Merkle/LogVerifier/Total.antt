-- ===== src/Merkle/LogVerifier/Total.antt =====
-- merkle/log_verifier.go: the checks end, without a panic, whatever the proof is.
use trillian.Prelude.{
  ℕ, zero, suc, ◌+◌, ◌-◌, ◌<◌, List, [], ◌∷◌, Bytes, Outcome, Bool, true, false, not, length,
  get_elem?, ltb, leb, ◌==◌, if◌then◌else◌, bytes_equal, or_panic, ◌≡◌, refl, inl, inr, arith,
  Bool-cases, Option-cases,
}
use trillian.Prelude.Int.{ℤ, pos, negsuc}
use trillian.Merkle.Common.{parent, is_right_child}
use trillian.Merkle.MerklePath.Ends.{Ends, with_ok, with_err, Ends-bind, Ends-if}
use trillian.Merkle.LogVerifier.{
  Error, climb, fold_sibling, inclusion_loop, root_from_inclusion_proof, verify_inclusion_proof,
  fold_both, older_loop, newer_loop, check_newer, check_roots, check_from, check_consistency,
  verify_consistency_proof,
}

climb-Ends : (f node last : ℕ) → node < f → Ends (climb f node last)
unfolding climb
climb-Ends zero node last h = absurd (omega arith)
climb-Ends (suc f) node last h = elim (Bool-cases (is_right_child node)) [
  | inl odd ↦ rw odd (climb-Ends f (parent node) (parent last) (ground arith))
  | inr even ↦ rw even with_ok
]

-- A choice whose first branch may use that its test holds.
Ends-when :
    {E A : Type 0} (c : Bool) {m n : Outcome E A}
    → (c ≡ true → Ends m)
    → (c ≡ false → Ends n)
    → Ends (if c then m else n)
Ends-when true first second = first refl
Ends-when false first second = second refl

module _ (hc : Bytes → Bytes → Bytes) where
  inclusion_loop-Ends :
      (f i last : ℕ) (h : Bytes) (proof : List Bytes) (k : ℕ)
      → last < f
      → Ends (inclusion_loop hc f i last h proof k)
  unfolding inclusion_loop
  inclusion_loop-Ends zero i last h proof k p = absurd (omega arith)
  inclusion_loop-Ends (suc f) i last h proof k p =
      Ends-when (ltb 0 last)
        (λ more. elim (Option-cases (get_elem? proof k)) [
          | inl short ↦ rw short with_err
          | inr (e, found) ↦
              let next = fold_sibling hc i last h e k in
              rw found
                (inclusion_loop-Ends f (parent i) (parent last) next.0 proof next.1 (ground arith))
        ])
        (λ done. with_ok)

  older_loop-Ends :
      (f node last : ℕ) (h1 h2 : Bytes) (proof : List Bytes) (k : ℕ)
      → node < f
      → Ends (older_loop hc f node last h1 h2 proof k)
  unfolding older_loop
  older_loop-Ends zero node last h1 h2 proof k p = absurd (omega arith)
  older_loop-Ends (suc f) node last h1 h2 proof k p =
      Ends-when (ltb 0 node)
        (λ more. elim (Option-cases (get_elem? proof k)) [
          | inl short ↦ rw short with_err
          | inr (e, found) ↦
              let next = fold_both hc node last h1 h2 e k in
              rw found (
                older_loop-Ends f (parent node) (parent last) next.0 next.1 proof next.2
                  (ground arith))
        ])
        (λ done. with_ok)

  newer_loop-Ends :
      (f last : ℕ) (h : Bytes) (proof : List Bytes) (k : ℕ)
      → last < f
      → Ends (newer_loop hc f last h proof k)
  unfolding newer_loop
  newer_loop-Ends zero last h proof k p = absurd (omega arith)
  newer_loop-Ends (suc f) last h proof k p =
      Ends-when (ltb 0 last)
        (λ more. elim (Option-cases (get_elem? proof k)) [
          | inl short ↦ rw short with_err
          | inr (e, found) ↦
              rw found (newer_loop-Ends f (parent last) (hc h e) proof (k + 1) (ground arith))
        ])
        (λ done. with_ok)

  check_roots-Ends :
      (node last : ℕ) (root1 root2 h1 h2 : Bytes) (proof : List Bytes) (k : ℕ)
      → Ends (check_roots hc node last root1 root2 h1 h2 proof k)
  unfolding check_roots check_newer
  check_roots-Ends node last root1 root2 h1 h2 proof k =
      Ends-bind (older_loop-Ends (suc node) node last h1 h2 proof k (omega arith))
        (λ (g1, g2, end, j).
          Ends-if (bytes_equal g1 root1)
            (Ends-bind (newer_loop-Ends (suc end) end g2 proof j (omega arith)) (λ (g, used).
              Ends-if (bytes_equal g root2) (Ends-if (used == length proof) with_ok with_err)
                with_err))
            with_err)

  -- VerifyConsistencyProof returns nil or an error, whatever its arguments: it does not panic, and
  -- the fuel of its loops is enough.
  pub verify_consistency_proof-Ends :
      (snapshot1 snapshot2 : ℤ) (root1 root2 : Bytes) (proof : List Bytes)
      → Ends (verify_consistency_proof hc snapshot1 snapshot2 root1 root2 proof)
  unfolding verify_consistency_proof check_consistency check_from
  verify_consistency_proof-Ends (negsuc a) b root1 root2 proof = with_err
  verify_consistency_proof-Ends (pos a) (negsuc b) root1 root2 proof = with_err
  verify_consistency_proof-Ends (pos a) (pos b) root1 root2 proof = Ends-if (ltb b a) with_err (
      Ends-if (a == b)
        (Ends-if (not (bytes_equal root1 root2)) with_err
          (Ends-if (ltb 0 (length proof)) with_err with_ok))
        (Ends-if (a == 0) (Ends-if (ltb 0 (length proof)) with_err with_ok) (
          Ends-when (length proof == 0) (λ none. with_err)
            (λ some_proof.
              Ends-bind (climb-Ends (suc (a - 1)) (a - 1) (b - 1) (omega arith)) (λ (node, last).
                Ends-if (ltb 0 node)
                  (Ends-bind (first_element proof some_proof)
                    (λ e. check_roots-Ends node last root1 root2 e e proof 1))
                  (check_roots-Ends node last root1 root2 root1 root1 proof 0))))))
    where
      first_element :
          (proof : List Bytes)
          → (length proof == 0) ≡ false
          → Ends (or_panic {E = Error} (get_elem? proof 0))
      first_element [] h = absurd (ground arith)
      first_element (e ∷ rest) h = with_ok

  -- VerifyInclusionProof returns nil or an error, whatever its arguments: it does not panic, and the
  -- fuel of its loop is enough.
  pub verify_inclusion_proof-Ends :
      (leaf_index tree_size : ℤ) (proof : List Bytes) (root leaf_hash : Bytes)
      → Ends (verify_inclusion_proof hc leaf_index tree_size proof root leaf_hash)
  unfolding verify_inclusion_proof root_from_inclusion_proof
  verify_inclusion_proof-Ends (negsuc i) n proof root leaf_hash = with_err
  verify_inclusion_proof-Ends (pos i) (negsuc n) proof root leaf_hash = with_err
  verify_inclusion_proof-Ends (pos i) (pos n) proof root leaf_hash =
      Ends-bind
        (Ends-if (leb n i) with_err (
          Ends-bind (inclusion_loop-Ends (suc (n - 1)) i (n - 1) leaf_hash proof 0 (omega arith))
            (λ (calc, used). Ends-if (used == length proof) with_ok with_err)))
        (λ calc. Ends-if (bytes_equal calc root) with_ok with_err)
