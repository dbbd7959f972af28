-- ===== src/Merkle/Compact/Repr.antt =====
-- What the nodes of a compact tree stand for: at each level, the last full subtree that has no
-- sibling yet.
use trillian.Prelude.{suc, ◌%◌, ◌<◌, ◌≡◌, refl, ap, List, [], ◌∷◌, ◌++◌, Bytes, length, arith}
use trillian.Merkle.BitLen.{bit_len, bit_len_zero, bit_len-half}
use trillian.Merkle.Tree.{up, pairs}
use trillian.Merkle.Tree.Levels.{length-pairs}

abbrev pub final : List Bytes → Bytes
final [] = []
final (x ∷ []) = x
final (x ∷ y ∷ l) = final (y ∷ l)

-- The nodes `ns`, from some level up, stand for the full subtrees `l` of that level.
abbrev pub Repr : (Bytes → Bytes → Bytes) → List Bytes → List Bytes → Type 0
Repr hc [] l = length l ≡ 0
Repr hc (x ∷ ns) l = (0 < length l) × (length l % 2 ≡ 1 → x ≡ final l) × Repr hc ns (pairs hc l)

pub nil-of-length : (l : List Bytes) → length l ≡ 0 → l ≡ []
nil-of-length [] e = refl
nil-of-length (x ∷ l) e = absurd (omega arith)

pub final-append : (l : List Bytes) (h : Bytes) → final (l ++ h ∷ []) ≡ h
final-append [] h = refl
final-append (x ∷ []) h = refl
final-append (x ∷ y ∷ l) h = final-append (y ∷ l) h

module _ (hc : Bytes → Bytes → Bytes) where
  pub pairs-append_even :
      (l : List Bytes) (h : Bytes) → length l % 2 ≡ 0 → pairs hc (l ++ h ∷ []) ≡ pairs hc l
  unfolding pairs
  pairs-append_even [] h e = refl
  pairs-append_even (x ∷ []) h e = absurd (omega arith)
  pairs-append_even (x ∷ y ∷ l) h e = ap (◌∷◌ (hc x y)) (pairs-append_even l h (omega arith))

  pub pairs-append_odd :
      (l : List Bytes) (h : Bytes)
      → length l % 2 ≡ 1
      → pairs hc (l ++ h ∷ []) ≡ pairs hc l ++ hc (final l) h ∷ []
  unfolding pairs
  pairs-append_odd [] h e = absurd (omega arith)
  pairs-append_odd (x ∷ []) h e = refl
  pairs-append_odd (x ∷ y ∷ []) h e = absurd (omega arith)
  pairs-append_odd (x ∷ y ∷ z ∷ l) h e =
      ap (◌∷◌ (hc x y)) (pairs-append_odd (z ∷ l) h (omega arith))

  -- The level above, with the node that is carried up.
  pub up_even : (l : List Bytes) → length l % 2 ≡ 0 → up hc l ≡ pairs hc l
  unfolding up pairs
  up_even [] e = refl
  up_even (x ∷ []) e = absurd (omega arith)
  up_even (x ∷ y ∷ l) e = ap (◌∷◌ (hc x y)) (up_even l (omega arith))

  pub up_odd : (l : List Bytes) → length l % 2 ≡ 1 → up hc l ≡ pairs hc l ++ final l ∷ []
  unfolding up pairs
  up_odd [] e = absurd (omega arith)
  up_odd (x ∷ []) e = refl
  up_odd (x ∷ y ∷ []) e = absurd (omega arith)
  up_odd (x ∷ y ∷ z ∷ l) e = ap (◌∷◌ (hc x y)) (up_odd (z ∷ l) (omega arith))

  pub length-Repr : (ns l : List Bytes) → Repr hc ns l → length ns ≡ bit_len (length l)
  length-Repr [] l r = rw (r, bit_len_zero)
  length-Repr (x ∷ ns) l r =
      rw (bit_len-half (length l) r.0, ← length-pairs hc l)
        (ap suc (length-Repr ns (pairs hc l) r.2))
