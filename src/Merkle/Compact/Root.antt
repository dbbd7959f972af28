-- ===== src/Merkle/Compact/Root.antt =====
-- recalculateRoot: the loop over the nodes comes to the root of the levels.
use Prim.Native.Nat.{bit_and}
use native.Mathlib.Nat.{div-div-eq-div-mul, mul-le-mul_right, mul_assoc}
use native.Mathlib.Numerals.{add-one}
use trillian.Prelude.{
  ℕ, suc, ◌+◌, ◌*◌, ◌/◌, ◌%◌, ◌^◌, ◌<◌, ◌≤◌, ◌≡◌, refl, sym, ap, ◌∙◌, List, [], ◌∷◌, ◌++◌, Bytes,
  length, length-append, append_assoc, get_elem?, get_elem?-append, arith, ◌==◌, true, false,
  Outcome, ok, Option, none, some, dec_lt,
}
use trillian.Prelude.Bits.{bit_and-pow, two-pow_pos, two-pow-suc}
use trillian.Merkle.Hashers.{LogHasher}
use trillian.Merkle.Tree.{up, root, pairs}
use trillian.Merkle.Tree.Levels.{length-pairs, root-up, root_one}
use trillian.Merkle.Compact.{
  Error, CompactMerkleTree, SetNodeFunc, recalculate_loop, store_root, recalculate_root,
}
use trillian.Merkle.BitLen.{bit_len}
use trillian.Merkle.Compact.Repr.{
  final, final-append, Repr, length-Repr, nil-of-length, pairs-append_even, pairs-append_odd,
  up_even, up_odd,
}

-- A callback that does not fail at the nodes of a tree of `limit` leaves: the first leaf of the node
-- is no further than that, and half of the node is not larger.
abbrev pub Quiet : {S E : Type 0} → ℕ → SetNodeFunc S E → Type 0
Quiet {S} {E} limit f =
    (depth index : ℕ) (hash : Bytes) (s : S)
    → index * 2 ^ depth ≤ limit
    → 2 ^ depth ≤ 2 * limit
    → (f depth index hash s).1 ≡ none

-- A parent stands over no more leaves on the left than the node does, nor does a node further left.
pub within-above :
    (limit bit index : ℕ) → index * 2 ^ bit ≤ limit → index / 2 * 2 ^ (bit + 1) ≤ limit
within-above limit bit index w =
    let doubled : 2 ^ (bit + 1) ≡ 2 * 2 ^ bit = rw add-one (two-pow-suc bit) in
    let whole : index / 2 * 2 ≤ index = omega arith in
    let below : index / 2 * 2 * 2 ^ bit ≤ index * 2 ^ bit = mul-le-mul_right (2 ^ bit) whole in
    rw (doubled, ← mul_assoc (index / 2) 2 (2 ^ bit)) (omega arith)

pub half_within : (limit bit : ℕ) → 2 ^ bit ≤ limit → 2 ^ (bit + 1) ≤ 2 * limit
half_within limit bit v =
    let doubled : 2 ^ (bit + 1) ≡ 2 * 2 ^ bit = rw add-one (two-pow-suc bit) in omega arith

-- A level with a node has no more leaves below the node than the tree has.
pub node_within : (limit bit n : ℕ) → 0 < n → n * 2 ^ bit ≤ limit → 2 ^ bit ≤ limit
node_within limit bit n p w =
    let one_node : 1 * 2 ^ bit ≤ n * 2 ^ bit = mul-le-mul_right (2 ^ bit) p in omega arith

pub within-left : (limit bit index : ℕ) → index * 2 ^ bit ≤ limit → index / 2 * 2 ^ bit ≤ limit
within-left limit bit index w =
    let below : index / 2 * 2 ^ bit ≤ index * 2 ^ bit = mul-le-mul_right (2 ^ bit) (omega arith) in
    omega arith

module _ (hc : Bytes → Bytes → Bytes) where
  -- The root of a level whose last node is `below`, once there is one.
  abbrev pub joined : List Bytes → Option Bytes → Option Bytes
  joined [] none = none
  joined (x ∷ l) none = some (root hc (x ∷ l))
  joined l (some r) = some (root hc (l ++ r ∷ []))

  joined-none : (l : List Bytes) → 0 < length l → joined l none ≡ some (root hc l)
  joined-none [] h = absurd (omega arith)
  joined-none (x ∷ l) h = refl

  joined-pairs_skip :
      (l : List Bytes) (o : Option Bytes)
      → 0 < length l
      → length l % 2 ≡ 0
      → joined (pairs hc l) o ≡ joined l o
  joined-pairs_skip l none p e =
      joined-none (pairs hc l) (omega (arith, length-pairs hc l))
      ∙ ap some (rw (← up_even hc l e) (root-up hc l))
      ∙ sym (joined-none l p)
  joined-pairs_skip l (some r) p e =
      let odd : length (l ++ r ∷ []) % 2 ≡ 1 = omega (arith, length-append l (r ∷ [])) in
      let above : up hc (l ++ r ∷ []) ≡ pairs hc l ++ r ∷ [] =
        rw (up_odd hc (l ++ r ∷ []) odd, pairs-append_even hc l r e, final-append l r) in
      ap some (rw above at (root-up hc (l ++ r ∷ [])))

  joined-pairs_first :
      (l : List Bytes)
      → 0 < length l
      → length l % 2 ≡ 1
      → joined (pairs hc l) (some (final l)) ≡ joined l none
  joined-pairs_first l p e = ap some (rw (up_odd hc l e) at (root-up hc l)) ∙ sym (joined-none l p)

  joined-pairs_carry :
      (l : List Bytes) (r : Bytes)
      → length l % 2 ≡ 1
      → joined (pairs hc l) (some (hc (final l) r)) ≡ joined l (some r)
  joined-pairs_carry l r e =
      let even : length (l ++ r ∷ []) % 2 ≡ 0 = omega (arith, length-append l (r ∷ [])) in
      let above : up hc (l ++ r ∷ []) ≡ pairs hc l ++ hc (final l) r ∷ [] =
        rw (up_even hc (l ++ r ∷ []) even, pairs-append_odd hc l r e) in
      ap some (rw above at (root-up hc (l ++ r ∷ [])))

-- The test of a bit of the size is the parity of the level.
module _ (size bit mask n : ℕ) (em : mask ≡ 2 ^ bit) (en : n ≡ size / mask) where
  bit_of_level : bit_and size mask ≡ mask * (n % 2)
  bit_of_level = rw (en, em) (bit_and-pow bit size)

  bit_clear : n % 2 ≡ 0 → (bit_and size mask == 0) ≡ true
  bit_clear e =
      let z : bit_and size mask ≡ mask * 0 = bit_of_level ∙ ap (λ (k : ℕ). mask * k) e in
      ground (arith, z)

  bit_set : n % 2 ≡ 1 → (bit_and size mask == 0) ≡ false
  bit_set e =
      let z : bit_and size mask ≡ mask * 1 = bit_of_level ∙ ap (λ (k : ℕ). mask * k) e in
      let positive : 0 < mask = rw em (two-pow_pos bit) in ground (arith, z)

  halved : n / 2 ≡ size / (mask * 2)
  halved = rw en (div-div-eq-div-mul size mask 2)

  doubled : mask * 2 ≡ 2 ^ (bit + 1)
  doubled = rw (add-one, two-pow-suc bit, em) (omega arith)

module _ {S E : Type 0} (hasher : LogHasher E) (f : SetNodeFunc S E) (limit : ℕ)
    (quiet : Quiet limit f) where
  -- A round that takes a node, from the rounds above it.
  loop_odd :
      (size k : ℕ) (nodes l : List Bytes) (bit index mask : ℕ) (x : Bytes) (s : S)
      → get_elem? nodes bit ≡ some x
      → (bit_and size mask == 0) ≡ false
      → x ≡ final l
      → 0 < length l
      → length l % 2 ≡ 1
      → index * 2 ^ bit ≤ limit
      → 2 ^ bit ≤ limit
      → ((o' : Option Bytes) (s' : S)
          → (recalculate_loop hasher f k size nodes (bit + 1) (index / 2) (mask * 2) o' s').1
            ≡ ok (joined hasher.hash_children (pairs hasher.hash_children l) o'))
      → (o : Option Bytes)
      → (recalculate_loop hasher f (suc k) size nodes bit index mask o s).1
        ≡ ok (joined hasher.hash_children l o)
  unfolding recalculate_loop
  loop_odd size k nodes l bit index mask x s got one ex p e w v above none =
      rw (one, got, ← joined-pairs_first hasher.hash_children l p e, ← ex) (above (some x) s)
  loop_odd size k nodes l bit index mask x s got one ex p e w v above (some below) =
      let h = hasher.hash_children x below in
      rw
        (
          one,
          got,
          quiet (bit + 1) (index / 2) h s (within-above limit bit index w)
              (half_within limit bit v),
          ← joined-pairs_carry hasher.hash_children l below e,
          ← ex,
        )
        (above (some h) (f (bit + 1) (index / 2) h s).0)

  pub recalculate_loop-joined :
      (size : ℕ) (done ns l : List Bytes) (bit index mask : ℕ) (o : Option Bytes) (s : S)
      → bit ≡ length done
      → mask ≡ 2 ^ bit
      → length l ≡ size / mask
      → Repr hasher.hash_children ns l
      → index * 2 ^ bit ≤ limit
      → length l * 2 ^ bit ≤ limit
      → (recalculate_loop hasher f (length ns) size (done ++ ns) bit index mask o s).1
        ≡ ok (joined hasher.hash_children l o)
  unfolding recalculate_loop
  recalculate_loop-joined size done [] l bit index mask none s eb em el r w wl =
      rw (nil-of-length l r)
  recalculate_loop-joined size done [] l bit index mask (some n) s eb em el r w wl =
      rw (nil-of-length l r, root_one)
  recalculate_loop-joined size done (x ∷ ns) l bit index mask o s eb em el r w wl =
      let hc = hasher.hash_children in
      let above = λ (o' : Option Bytes) (s' : S). rw append_assoc at (
        recalculate_loop-joined size (done ++ x ∷ []) ns (pairs hc l) (bit + 1) (index / 2)
          (mask * 2) o' s' (omega (arith, length-append done (x ∷ [])))
          (doubled size bit mask (length l) em el)
          (length-pairs hc l ∙ halved size bit mask (length l) em el) r.2
          (within-above limit bit index w)
          (rw (length-pairs hc l) (within-above limit bit (length l) wl))) in
      let got : get_elem? (done ++ x ∷ ns) bit ≡ some x = rw eb (get_elem?-append done x ns) in
      elim (dec_lt 0 (length l % 2)) [
        | no even ↦
            let e : length l % 2 ≡ 0 = omega arith in
            rw (bit_clear size bit mask (length l) em el e, ← joined-pairs_skip hc l o r.0 e)
              (above o s)
        | yes odd ↦
            let e : length l % 2 ≡ 1 = omega arith in
            loop_odd size (length ns) (done ++ x ∷ ns) l bit index mask x s got
              (bit_set size bit mask (length l) em el e) (r.1 e) r.0 e w
              (node_within limit bit (length l) r.0 wl) above o
      ]

  store_root_lem :
      (c : CompactMerkleTree) (p : S × Outcome (Error E) (Option Bytes)) (r : Bytes)
      → p.1 ≡ ok (some r)
      → store_root hasher f c p ≡ (record c { root = r }, p.0, ok tt)
  store_root_lem c (s, o) r e = rw e

  -- recalculateRoot gives a tree the root of the levels over its leaves, and never fails.
  pub recalculate_root-eq-root :
      (c : CompactMerkleTree) (l : List Bytes) (s : S)
      → c.size ≡ length l
      → 0 < length l
      → Repr hasher.hash_children c.nodes l
      → c.size ≤ limit
      → ((recalculate_root hasher f c s).0 ≡ record c { root = root hasher.hash_children l })
        × ((recalculate_root hasher f c s).2 ≡ ok tt)
  unfolding recalculate_root
  recalculate_root-eq-root c l s e p r w =
      let hc = hasher.hash_children in
      let some_leaf : (c.size == 0) ≡ false = ground arith in
      let bits : bit_len c.size ≡ length c.nodes = rw e (sym (length-Repr hc c.nodes l r)) in
      let loop =
        recalculate_loop-joined c.size [] c.nodes l 0 c.size 1 none s refl refl (omega arith) r
          (omega arith) (omega arith)
        ∙ ap ok (joined-none hc l p) in
      let stored =
        store_root_lem c
          (recalculate_loop hasher f (length c.nodes) c.size c.nodes 0 c.size 1 none s) (root hc l)
          loop in
      rw (some_leaf, bits, stored) (refl, refl)
