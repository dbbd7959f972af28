-- ===== src/Merkle/Compact/Add.antt =====
-- The loop of AddLeafHash, for a callback that does not fail: the nodes that it leaves.
use Prim.Native.Nat.{bit_and}
use trillian.Prelude.{
  ℕ, zero, suc, ◌+◌, ◌/◌, ◌%◌, ◌*◌, ◌^◌, ◌≤◌, ◌<◌, ◌≡◌, refl, sym, ◌∙◌, List, [], ◌∷◌, ◌++◌, Bytes,
  length, length-append, append_assoc, set, set-append, get_elem?, get_elem?-append, arith, ◌==◌,
  ltb, leb, true, false, Outcome, ok, some, dec_lt, Bool-cases, inl, inr,
}
use trillian.Prelude.Bits.{bit_and-pow}
use trillian.Merkle.Hashers.{LogHasher}
use trillian.Merkle.Tree.{pairs}
use trillian.Merkle.Tree.Levels.{length-pairs}
use trillian.Merkle.Compact.{Error, SetNodeFunc, add_loop}
use trillian.Merkle.Compact.Repr.{final, final-append, Repr, pairs-append_even, pairs-append_odd}
use trillian.Merkle.Compact.Root.{Quiet, within-above, within-left, half_within, node_within}

module _ (hc : Bytes → Bytes → Bytes) where
  keep-Repr :
      (y : Bytes) (ns l : List Bytes) (h : Bytes)
      → Repr hc (y ∷ ns) l
      → length l % 2 ≡ 0
      → Repr hc (h ∷ ns) (l ++ h ∷ [])
  keep-Repr y ns l h r e = (
    omega (arith, length-append l (h ∷ [])),
    λ o. sym (final-append l h),
    rw (pairs-append_even hc l h e) r.2,
  )

  carry-Repr :
      (ns l : List Bytes) (h : Bytes)
      → length l % 2 ≡ 1
      → Repr hc ns (pairs hc l ++ hc (final l) h ∷ [])
      → Repr hc ([] ∷ ns) (l ++ h ∷ [])
  carry-Repr ns l h e r = (
    omega (arith, length-append l (h ∷ [])),
    λ o. absurd (omega (arith, length-append l (h ∷ []))),
    rw (pairs-append_odd hc l h e) r,
  )

  pub lone-Repr : (l : List Bytes) (h : Bytes) → length l ≡ 0 → Repr hc (h ∷ []) (l ++ h ∷ [])
  unfolding pairs
  lone-Repr [] h e = (omega arith, λ o. refl, refl)
  lone-Repr (x ∷ l) h e = absurd (omega arith)

module _ {S E : Type 0} (hasher : LogHasher E) (f : SetNodeFunc S E) (limit : ℕ)
    (quiet : Quiet limit f) where
  -- One round of the loop, in each of its four ways on.
  module _ (fuel seq : ℕ) (done ns : List Bytes) (x : Bytes) (t bit index : ℕ) (hash : Bytes)
      (s : S) (eb : bit ≡ length done) (p : 0 < t) (w : index * 2 ^ bit ≤ limit)
      (v : 2 ^ bit ≤ limit) where
    round_keep :
        t % 2 ≡ 0
        → let out = add_loop hasher f (suc fuel) seq (done ++ x ∷ ns) t bit index hash s in
          (out.0 ≡ done ++ hash ∷ ns) × (out.2 ≡ ok seq)
    unfolding add_loop
    round_keep e =
        let positive : (t == 0) ≡ false = ground arith in
        let even : (t % 2 == 0) ≡ true = ground arith in
        let inside : ltb bit (length (done ++ x ∷ ns)) ≡ true =
          ground (arith, length-append done (x ∷ ns)) in
        let written : set (done ++ x ∷ ns) bit hash ≡ done ++ hash ∷ ns =
          rw eb (set-append done x ns hash) in
        elim (Bool-cases (bit == 0)) [
          | inl leaf ↦ rw (positive, even, inside, leaf) (written, refl)
          | inr above ↦
              rw
                (
                  positive,
                  even,
                  inside,
                  above,
                  quiet bit (index / 2) hash s (within-left limit bit index w) (omega arith),
                )
                (written, refl)
        ]

    cleared : set (done ++ x ∷ ns) bit [] ≡ done ++ [] ∷ ns
    cleared = rw eb (set-append done x ns [])

    got : get_elem? (done ++ x ∷ ns) bit ≡ some x
    got = rw eb (get_elem?-append done x ns)

    round_end :
        t % 2 ≡ 1
        → length ns ≡ 0
        → let out = add_loop hasher f (suc fuel) seq (done ++ x ∷ ns) t bit index hash s in
          (out.0 ≡ (done ++ [] ∷ ns) ++ hasher.hash_children x hash ∷ []) × (out.2 ≡ ok seq)
    unfolding add_loop
    round_end o e =
        let positive : (t == 0) ≡ false = ground arith in
        let odd : (t % 2 == 0) ≡ false = ground arith in
        let last : leb (length (done ++ [] ∷ ns)) (bit + 1) ≡ true =
          ground (arith, length-append done ([] ∷ ns)) in
        rw
          (
            positive,
            odd,
            got,
            quiet (bit + 1) (index / 2) (hasher.hash_children x hash) s
                (within-above limit bit index w) (half_within limit bit v),
            cleared,
            last,
          )
          (refl, refl)

    round_store :
        t % 2 ≡ 1
        → 0 < length ns
        → t / 2 % 2 ≡ 0
        → let out = add_loop hasher f (suc fuel) seq (done ++ x ∷ ns) t bit index hash s in
          (out.0 ≡ set (done ++ [] ∷ ns) (bit + 1) (hasher.hash_children x hash)) × (out.2 ≡ ok seq)
    unfolding add_loop
    round_store o e h =
        let positive : (t == 0) ≡ false = ground arith in
        let odd : (t % 2 == 0) ≡ false = ground arith in
        let inner : leb (length (done ++ [] ∷ ns)) (bit + 1) ≡ false =
          ground (arith, length-append done ([] ∷ ns)) in
        let clear : (bit_and t 2 == 0) ≡ true = ground (arith, bit_and-pow 1 t) in
        rw
          (
            positive,
            odd,
            got,
            quiet (bit + 1) (index / 2) (hasher.hash_children x hash) s
                (within-above limit bit index w) (half_within limit bit v),
            cleared,
            inner,
            clear,
          )
          (refl, refl)

    round_again :
        t % 2 ≡ 1
        → 0 < length ns
        → t / 2 % 2 ≡ 1
        → (s' : S) × (add_loop hasher f (suc fuel) seq (done ++ x ∷ ns) t bit index hash s
            ≡ add_loop hasher f fuel seq
                (done ++ [] ∷ ns)
                (t / 2)
                (bit + 1)
                (index / 2)
                (hasher.hash_children x hash)
                s')
    unfolding add_loop
    round_again o e h =
        let h' = hasher.hash_children x hash in
        let positive : (t == 0) ≡ false = ground arith in
        let odd : (t % 2 == 0) ≡ false = ground arith in
        let inner : leb (length (done ++ [] ∷ ns)) (bit + 1) ≡ false =
          ground (arith, length-append done ([] ∷ ns)) in
        let full : (bit_and t 2 == 0) ≡ false = ground (arith, bit_and-pow 1 t) in
        (
          (f (bit + 1) (index / 2) h' s).0,
          rw (
            positive,
            odd,
            got,
            quiet (bit + 1) (index / 2) h' s (within-above limit bit index w)
                (half_within limit bit v),
            cleared,
            inner,
            full,
          ),
        )

  -- The nodes that the loop leaves from a level up stand for that level with the new node.
  abbrev pub Added :
      ℕ → List Bytes → List Bytes → Bytes → List Bytes × S × Outcome (Error E) ℕ → Type 0
  Added seq done l hash out =
      (ns : List Bytes) × (out.0 ≡ done ++ ns)
      × Repr hasher.hash_children ns (l ++ hash ∷ [])
      × (out.2 ≡ ok seq)

  carried :
      (fuel seq : ℕ) (done ns l : List Bytes) (x : Bytes) (t bit index : ℕ) (hash : Bytes) (s : S)
      → bit ≡ length done
      → Repr hasher.hash_children (x ∷ ns) l
      → t ≡ length l
      → t % 2 ≡ 1
      → index * 2 ^ bit ≤ limit
      → 2 ^ bit ≤ limit
      → ((s' : S)
          → Repr hasher.hash_children ns (pairs hasher.hash_children l)
          → 0 < t / 2
          → Added seq
              (done ++ [] ∷ [])
              (pairs hasher.hash_children l)
              (hasher.hash_children x hash)
              (add_loop hasher f fuel seq
                ((done ++ [] ∷ []) ++ ns)
                (t / 2)
                (bit + 1)
                (index / 2)
                (hasher.hash_children x hash)
                s'))
      → Added seq done l hash (add_loop hasher f (suc fuel) seq (done ++ x ∷ ns) t bit index hash s)
  carried fuel seq done [] l x t bit index hash s eb r et o w v above =
      let hc = hasher.hash_children in
      let h' = hc x hash in
      let odd : length l % 2 ≡ 1 = omega arith in
      let ex = r.1 odd in
      let out = round_end fuel seq done [] x t bit index hash s eb (omega arith) w v o refl in
      (
        [] ∷ h' ∷ [],
        out.0 ∙ append_assoc done ([] ∷ []) (h' ∷ []),
        carry-Repr hc (h' ∷ []) l hash odd (rw (← ex) (lone-Repr hc (pairs hc l) h' r.2)),
        out.1,
      )
  carried fuel seq done (y ∷ ns) l x t bit index hash s eb r et o w v above =
      let hc = hasher.hash_children in
      let h' = hc x hash in
      let odd : length l % 2 ≡ 1 = omega arith in
      let half : t / 2 ≡ length (pairs hc l) = omega (arith, length-pairs hc l) in
      let p : 0 < t = omega arith in
      let ex = r.1 odd in
      let more : 0 < length (y ∷ ns) = omega arith in
      elim (dec_lt 0 (t / 2 % 2)) [
        | no even ↦
            let out =
              round_store fuel seq done (y ∷ ns) x t bit index hash s eb p w v o more
                (omega arith) in
            let place : bit + 1 ≡ length (done ++ [] ∷ []) =
              omega (arith, length-append done ([] ∷ [])) in
            let written : set (done ++ [] ∷ y ∷ ns) (bit + 1) h' ≡ done ++ [] ∷ h' ∷ ns =
              rw place
                (rw (append_assoc, append_assoc) at (set-append (done ++ [] ∷ []) y ns h')) in
            (
              [] ∷ h' ∷ ns,
              out.0 ∙ written,
              carry-Repr hc (h' ∷ ns) l hash odd
                  (rw (← ex) (keep-Repr hc y ns (pairs hc l) h' r.2 (omega arith))),
              out.1,
            )
        | yes odd' ↦
            let again =
              round_again fuel seq done (y ∷ ns) x t bit index hash s eb p w v o more
                (omega arith) in
            let rest = rw append_assoc at (above again.0 r.2 (omega (arith, r.2.0))) in
            (
              [] ∷ rest.0,
              rw again.1 (rest.1 ∙ append_assoc done ([] ∷ []) rest.0),
              carry-Repr hc rest.0 l hash odd (rw (← ex) rest.2),
              rw again.1 rest.3,
            )
      ]

  pub add_loop-Added :
      (fuel seq : ℕ) (done ns l : List Bytes) (t bit index : ℕ) (hash : Bytes) (s : S)
      → bit ≡ length done
      → Repr hasher.hash_children ns l
      → t ≡ length l
      → 0 < t
      → t < fuel
      → index * 2 ^ bit ≤ limit
      → t * 2 ^ bit ≤ limit
      → Added seq done l hash (add_loop hasher f fuel seq (done ++ ns) t bit index hash s)
  add_loop-Added zero seq done ns l t bit index hash s eb r et p q w wt = absurd (omega arith)
  add_loop-Added (suc fuel) seq done [] l t bit index hash s eb r et p q w wt = absurd (omega arith)
  add_loop-Added (suc fuel) seq done (x ∷ ns) l t bit index hash s eb r et p q w wt =
      let hc = hasher.hash_children in
      elim (dec_lt 0 (t % 2)) [
        | no even ↦
            let out =
              round_keep fuel seq done ns x t bit index hash s eb p w (node_within limit bit t p wt)
                (omega arith) in
            (hash ∷ ns, out.0, keep-Repr hc x ns l hash r (omega arith), out.1)
        | yes odd ↦
            carried fuel seq done ns l x t bit index hash s eb r et (omega arith) w
              (node_within limit bit t p wt)
              (λ s' r' h.
                add_loop-Added fuel seq (done ++ [] ∷ []) ns (pairs hc l) (t / 2) (bit + 1)
                  (index / 2) (hc x hash) s' (omega (arith, length-append done ([] ∷ []))) r'
                  (omega (arith, length-pairs hc l)) h (omega arith)
                  (within-above limit bit index w) (within-above limit bit t wt))
      ]
