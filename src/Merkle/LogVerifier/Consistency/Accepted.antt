-- ===== src/Merkle/LogVerifier/Consistency/Accepted.antt =====
-- When the loops of VerifyConsistencyProof accept: the newer hash walks to the newer root as in an
-- inclusion proof, and the left siblings on that way make the older root.
use trillian.Prelude.{
  ℕ, zero, suc, ◌<◌, ◌≤◌, ◌≡◌, ◌≢◌, ◌↔◌, inl, inr, refl, ap, ◌∙◌, List, [], ◌∷◌, ◌++◌, Bytes,
  bytes_equal, bytes_equal→eq, bytes_equal_refl, Outcome, ok, err, ◌>>=◌, length, ltb, ◌==◌,
  Bool-cases, true, if◌then◌else◌, arith, append-nil, append_assoc, length-append, get_elem?-past,
  get_elem?-append,
}
use trillian.Merkle.Common.{parent, is_right_child}
use trillian.Merkle.LogVerifier.{
  Error, root_mismatch, too_many_components, older_loop, newer_loop, check_newer, check_roots,
}
use trillian.Merkle.LogVerifier.Walk.{walk}

module _ (hc : Bytes → Bytes → Bytes) where
  -- The older hash at the end of the walk.
  unfoldable pub older_walk : ℕ → ℕ → ℕ → Bytes → List Bytes → Bytes
  older_walk zero node last h rest = h
  older_walk (suc f) node last h [] = h
  older_walk (suc f) node last h (p ∷ rest) =
      let right = older_walk f (parent node) (parent last) (hc p h) rest in
      let left = older_walk f (parent node) (parent last) h rest in
      let alone = older_walk f (parent node) (parent last) h (p ∷ rest) in
      if ltb 0 node
      then (if is_right_child node then right else if ltb node last then left else alone)
      else h

  pub older_walk_zero :
      (f last : ℕ) (h : Bytes) (rest : List Bytes) → older_walk (suc f) 0 last h rest ≡ h
  unfolding older_walk
  older_walk_zero f last h [] = refl
  older_walk_zero f last h (p ∷ rest) = refl

  pub walk-fuel :
      (f g i last : ℕ) (h : Bytes) (rest : List Bytes)
      → last < f
      → last < g
      → walk hc f i last h rest ≡ walk hc g i last h rest
  unfolding walk
  walk-fuel zero g i last h rest p q = absurd (omega arith)
  walk-fuel (suc f) zero i last h rest p q = absurd (omega arith)
  walk-fuel (suc f) (suc g) i last h [] p q = refl
  walk-fuel (suc f) (suc g) i last h (x ∷ rest) p q = ground (
    arith,
    walk-fuel f g (parent i) (parent last) (hc x h) rest,
    walk-fuel f g (parent i) (parent last) (hc h x) rest,
    walk-fuel f g (parent i) (parent last) h (x ∷ rest),
  )

  abbrev finish_newer : Bytes → List Bytes → Bytes × ℕ → Outcome Error (Unit {0})
  finish_newer root2 proof (h, used) =
      if bytes_equal h root2
      then (if used == length proof then ok tt else err too_many_components)
      else err (root_mismatch h root2)

  finish_newer_lem :
      (root2 h : Bytes) (proof : List Bytes) (k : ℕ)
      → (finish_newer root2 proof (h, k) ≡ ok tt) ↔ ((h ≡ root2) × (k ≡ length proof))
  finish_newer_lem root2 h proof k = elim (Bool-cases (bytes_equal h root2)) [
    | inl same ↦ (λ e. (bytes_equal→eq h root2 same, ground arith), λ e. rw same (ground arith))
    | inr other ↦ rw other (λ e. cc, λ e. cc (rw e.0 at other, bytes_equal_refl root2))
  ]

  newer_loop-walk :
      (f last : ℕ) (root2 h : Bytes) (pre rest : List Bytes)
      → ((newer_loop hc f last h (pre ++ rest) (length pre) >>= finish_newer root2 (pre ++ rest))
          ≡ ok tt)
        ↔ (walk hc f 0 last h rest ≡ ok root2)
  unfolding newer_loop walk
  newer_loop-walk zero last root2 h pre rest = (λ e. cc, λ e. cc)
  newer_loop-walk (suc f) last root2 h pre [] =
      rw (append-nil, get_elem?-past pre (length pre) (omega arith))
        (elim (Bool-cases (ltb 0 last)) [
          | inl more ↦ rw more (λ e. cc, λ e. cc)
          | inr done ↦ rw done (
              let l = finish_newer_lem root2 h pre (length pre) in
              (λ e. ap ok (l.0 e).0, λ e. l.1 (cc, refl)))
        ])
  newer_loop-walk (suc f) last root2 h pre (p ∷ rest) =
      let past : length pre ≢ length (pre ++ p ∷ rest) =
        omega (arith, length-append pre (p ∷ rest)) in
      let advance =
        rw (append_assoc, length-append {0} pre (p ∷ [])) at
          (newer_loop-walk f (parent last) root2 (hc h p) (pre ++ p ∷ []) rest) in
      rw (get_elem?-append pre p rest) (elim (Bool-cases (ltb 0 last)) [
        | inl more ↦ rw more advance
        | inr done ↦ rw done (
            let l = finish_newer_lem root2 h (pre ++ p ∷ rest) (length pre) in
            (λ e. absurd (past (l.0 e).1), λ e. cc))
      ])

  abbrev finish_older :
      Bytes → Bytes → List Bytes → Bytes × Bytes × ℕ × ℕ → Outcome Error (Unit {0})
  finish_older root1 root2 proof (h1, h2, last, k) =
      if bytes_equal h1 root1
      then check_newer hc last root2 h2 proof k
      else err (root_mismatch h1 root1)

  -- What it takes for both hashes to be accepted, from the values that the loops start with.
  abbrev pub Accepted : ℕ → ℕ → ℕ → ℕ → Bytes → Bytes → Bytes → Bytes → List Bytes → Type 0
  Accepted f g node last root1 root2 h1 h2 rest =
      (walk hc g node last h2 rest ≡ ok root2) × (older_walk f node last h1 rest ≡ root1)

  check_newer-walk :
      (g last : ℕ) (root2 h : Bytes) (pre rest : List Bytes)
      → last < g
      → (check_newer hc last root2 h (pre ++ rest) (length pre) ≡ ok tt)
        ↔ (walk hc g 0 last h rest ≡ ok root2)
  unfolding check_newer
  check_newer-walk g last root2 h pre rest b =
      rw (← walk-fuel (suc last) g 0 last h rest (omega arith) b)
        (newer_loop-walk (suc last) last root2 h pre rest)

  finish_older_lem :
      (f g last : ℕ) (root1 root2 h1 h2 : Bytes) (pre rest : List Bytes)
      → last < g
      → (finish_older root1 root2 (pre ++ rest) (h1, h2, last, length pre) ≡ ok tt)
        ↔ Accepted (suc f) g 0 last root1 root2 h1 h2 rest
  finish_older_lem f g last root1 root2 h1 h2 pre rest b =
      let newer = check_newer-walk g last root2 h2 pre rest b in
      elim (Bool-cases (bytes_equal h1 root1)) [
        | inl same ↦ rw same (
          λ e. (newer.0 e, older_walk_zero f last h1 rest ∙ bytes_equal→eq h1 root1 same),
          λ e. newer.1 e.0,
        )
        | inr other ↦
            rw other
              (λ e. cc, λ e. cc (older_walk_zero f last h1 rest, e.1, bytes_equal_refl h1, other))
      ]

  older_loop-walk :
      (f g node last : ℕ) (root1 root2 h1 h2 : Bytes) (pre rest : List Bytes)
      → node < f
      → last < g
      → node ≤ last
      → ((older_loop hc f node last h1 h2 (pre ++ rest) (length pre)
            >>= finish_older root1 root2 (pre ++ rest))
          ≡ ok tt)
        ↔ Accepted f g node last root1 root2 h1 h2 rest
  unfolding older_loop walk older_walk
  older_loop-walk zero g node last root1 root2 h1 h2 pre rest a b c = absurd (omega arith)
  older_loop-walk (suc f) g zero last root1 root2 h1 h2 pre rest a b c =
      finish_older_lem f g last root1 root2 h1 h2 pre rest b
  older_loop-walk (suc f) zero (suc node) last root1 root2 h1 h2 pre rest a b c =
      absurd (omega arith)
  older_loop-walk (suc f) (suc g) (suc node) last root1 root2 h1 h2 pre [] a b c =
      let more : ltb 0 last ≡ true = ground arith in
      let inner : ltb 0 (suc node) ≡ true = ground arith in
      rw (append-nil, get_elem?-past pre (length pre) (omega arith), more, inner)
        (λ e. cc, λ e. cc e.0)
  older_loop-walk (suc f) (suc g) (suc node) last root1 root2 h1 h2 pre (p ∷ rest) a b c =
      let i = suc node in
      let positive : ltb 0 (suc node) ≡ true = ground arith in
      let more : ltb 0 last ≡ true = ground arith in
      let above = λ (h1' h2' : Bytes) (pre' rest' : List Bytes).
        older_loop-walk f g (parent i) (parent last) root1 root2 h1' h2' pre' rest' (omega arith)
          (omega arith) (omega arith) in
      let advance = λ (h1' h2' : Bytes).
        rw (append_assoc, length-append {0} pre (p ∷ [])) at (above h1' h2' (pre ++ p ∷ []) rest) in
      rw (get_elem?-append pre p rest, more, positive)
        (elim (Bool-cases (is_right_child i)) [
          | inl right ↦ rw right (advance (hc p h1) (hc p h2))
          | inr left ↦ rw left (elim (Bool-cases (ltb i last)) [
            | inl inner ↦ rw inner (advance h1 (hc h2 p))
            | inr alone ↦ rw alone (above h1 h2 pre (p ∷ rest))
          ])
        ])

  -- The loops accept exactly if both hashes walk to their roots.
  pub check_roots-Accepted :
      (g node last : ℕ) (root1 root2 h1 h2 : Bytes) (pre rest : List Bytes)
      → last < g
      → node ≤ last
      → (check_roots hc node last root1 root2 h1 h2 (pre ++ rest) (length pre) ≡ ok tt)
        ↔ Accepted (suc node) g node last root1 root2 h1 h2 rest
  unfolding check_roots
  check_roots-Accepted g node last root1 root2 h1 h2 pre rest =
      older_loop-walk (suc node) g node last root1 root2 h1 h2 pre rest (omega arith)
