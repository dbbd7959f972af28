-- ===== src/Merkle/Hstar2/Levels.antt =====
-- What holds at a node that hStar2b of merkle/hstar2.go visits: which leaves are below it, and its
-- hash in terms of its children's.
use native.Mathlib.Nat.{le-div_iff_mul-le, div-lt_iff_lt-mul, mul_assoc}
use trillian.Prelude.{
  ℕ, zero, suc, ◌+◌, ◌-◌, ◌*◌, ◌/◌, ◌^◌, ◌<◌, ◌≤◌, ◌≡◌, ◌≢◌, refl, sym, ap, ◌∙◌, subst, List, [],
  ◌∷◌, Bytes, Option, none, some, take, drop, arith, dec_lt,
}
use trillian.Prelude.Bits.{two-pow-suc}
use trillian.Prelude.Int.{ℤ}
use trillian.Storage.NodeId.Coords.{two-pow-add}
use trillian.Merkle.MapHasher.{MapHasher}
use trillian.Merkle.Hstar2.{LeafHash}
use trillian.Merkle.Hstar2.Tree.{Below, node_value, join, node}
use trillian.Merkle.Hstar2.Sorted.{All}

-- A leaf's place among leaves that have `u` indices each.
abbrev pub slot_of : ℕ → LeafHash → ℕ
slot_of u v = v.index / u

-- The leaves below a node, by their indices.
abbrev pub Within : ℕ → ℕ → ℕ → LeafHash → Type 0
Within u levels slot v =
    (slot * (2 ^ levels * u) ≤ v.index) × (v.index < suc slot * (2 ^ levels * u))

pub Within-Below : (u n j : ℕ) (v : LeafHash) → 0 < u → Within u n j v → Below n j (slot_of u v)
Within-Below u n j v positive (low, high) = (
  (le-div_iff_mul-le {x = j * 2 ^ n} {y = v.index} positive).1
      (subst (λ x. x ≤ v.index) (sym (mul_assoc j (2 ^ n) u)) low),
  (div-lt_iff_lt-mul {x = v.index} {y = suc j * 2 ^ n} positive).1
      (subst (λ x. v.index < x) (sym (mul_assoc (suc j) (2 ^ n) u)) high),
)

pub Below-zero : (j k : ℕ) → Below 0 j k → k ≡ j
Below-zero j k (low, high) = omega arith

left_range :
    (j x p q : ℕ)
    → q ≡ 2 * p
    → j * q ≤ x
    → x < suc (2 * j) * p
    → (2 * j * p ≤ x) × (x < suc (2 * j) * p)
left_range j x p q twice low high = (grind arith, high)

right_range :
    (j x p q : ℕ)
    → q ≡ 2 * p
    → suc (2 * j) * p ≤ x
    → x < suc j * q
    → (suc (2 * j) * p ≤ x) × (x < suc (suc (2 * j)) * p)
right_range j x p q twice low high = (low, grind arith)

pub span-suc : (n u : ℕ) → 2 ^ suc n * u ≡ 2 * (2 ^ n * u)
span-suc n u = ap (λ (x : ℕ). x * u) (two-pow-suc n) ∙ mul_assoc 2 (2 ^ n) u

-- The offset of a node is that of its left child, and the split that of its right one.
pub left_offset : (w n j : ℕ) → j * (2 ^ suc n * 2 ^ w) ≡ 2 * j * (2 ^ n * 2 ^ w)
left_offset w n j = let twice = span-suc n (2 ^ w) in grind arith

pub right_offset :
    (bits w n d j : ℕ)
    → d + suc n + w ≡ bits
    → 2 ^ (bits - d - 1) + j * (2 ^ suc n * 2 ^ w) ≡ suc (2 * j) * (2 ^ n * 2 ^ w)
right_offset bits w n d j levels =
    let twice = span-suc n (2 ^ w) in
    let half : 2 ^ (bits - d - 1) ≡ 2 ^ n * 2 ^ w =
      ap (λ (x : ℕ). 2 ^ x) (omega arith) ∙ two-pow-add n w in
    grind arith

-- The halves of a range, on the two sides of the split.
pub left-Within :
    (u n j : ℕ) (vs : List LeafHash)
    → All (Within u (suc n) j) vs
    → All (λ v. v.index < suc (2 * j) * (2 ^ n * u)) vs
    → All (Within u n (2 * j)) vs
left-Within u n j [] h below = tt
left-Within u n j (v ∷ vs) (h, hs) (b, bs) = (
  left_range j v.index (2 ^ n * u) (2 ^ suc n * u) (span-suc n u) h.0 b,
  left-Within u n j vs hs bs,
)

pub right-Within :
    (u n j : ℕ) (vs : List LeafHash)
    → All (Within u (suc n) j) vs
    → All (λ v. suc (2 * j) * (2 ^ n * u) ≤ v.index) vs
    → All (Within u n (suc (2 * j))) vs
right-Within u n j [] h above = tt
right-Within u n j (v ∷ vs) (h, hs) (a, more) = (
  right_range j v.index (2 ^ n * u) (2 ^ suc n * u) (span-suc n u) a h.1,
  right-Within u n j vs hs more,
)

-- No leaf in one half is below the other.
pub right-Missed :
    (u n j k : ℕ) (vs : List LeafHash)
    → 0 < u
    → Below n (2 * j) k
    → All (Within u n (suc (2 * j))) vs
    → All (λ v. slot_of u v ≢ k) vs
right-Missed u n j k [] positive b h = tt
right-Missed u n j k (v ∷ vs) positive b (h, hs) =
    let at = Within-Below u n (suc (2 * j)) v positive h in
    ((λ e. absurd (omega arith)), right-Missed u n j k vs positive b hs)

pub left-Missed :
    (u n j k : ℕ) (vs : List LeafHash)
    → 0 < u
    → Below n (suc (2 * j)) k
    → All (Within u n (2 * j)) vs
    → All (λ v. slot_of u v ≢ k) vs
left-Missed u n j k [] positive b h = tt
left-Missed u n j k (v ∷ vs) positive b (h, hs) =
    let at = Within-Below u n (2 * j) v positive h in
    ((λ e. absurd (omega arith)), left-Missed u n j k vs positive b hs)

-- What holds of the two parts of a slice holds of the slice.
pub All-parts :
    (P : LeafHash → Type 0) (i : ℕ) (vs : List LeafHash)
    → All P (take i vs)
    → All P (drop i vs)
    → All P vs
All-parts P zero vs h k = k
All-parts P (suc i) [] h k = tt
All-parts P (suc i) (v ∷ vs) (first, rest) k = (first, All-parts P i vs rest k)

module _ {E : Type 0} (hasher : MapHasher E) (tree_id : ℤ) where
  -- Where a node has a hash of its own, it is that of its children's hashes.
  pub node_value-join :
      (d j : ℕ) (l r : Option Bytes)
      → join hasher tree_id d j l r ≢ none
      → node_value hasher tree_id d j (join hasher tree_id d j l r)
        ≡ hasher.hash_children
            (node_value hasher tree_id (suc d) (2 * j) l)
            (node_value hasher tree_id (suc d) (suc (2 * j)) r)
  node_value-join d j none none some_child = absurd (some_child refl)
  node_value-join d j none (some r) some_child = refl
  node_value-join d j (some l) none some_child = refl
  node_value-join d j (some l) (some r) some_child = refl

  join-none :
      (d j : ℕ) (l r : Option Bytes) → join hasher tree_id d j l r ≡ none → (l ≡ none) × (r ≡ none)
  join-none d j none none e = (refl, refl)
  join-none d j none (some r) e = absurd (cc)
  join-none d j (some l) none e = absurd (cc)
  join-none d j (some l) (some r) e = absurd (cc)

  -- A node without a hash of its own has no leaf below it.
  pub node-none :
      (leaf : ℕ → Option Bytes) (n d j k : ℕ)
      → Below n j k
      → node hasher tree_id leaf n d j ≡ none
      → leaf k ≡ none
  unfolding node
  node-none leaf zero d j k b e = subst (λ x. leaf x ≡ none) (sym (Below-zero j k b)) e
  node-none leaf (suc n) d j k (low, high) e =
      let children =
        join-none d j (node hasher tree_id leaf n (suc d) (2 * j))
          (node hasher tree_id leaf n (suc d) (suc (2 * j))) e in
      let range = two-pow-suc n in
      elim (dec_lt k (suc (2 * j) * 2 ^ n)) [
        | yes left ↦
            node-none leaf n (suc d) (2 * j) k (left_range j k (2 ^ n) (2 ^ suc n) range low left)
              children.0
        | no right ↦
            node-none leaf n (suc d) (suc (2 * j)) k
              (right_range j k (2 ^ n) (2 ^ suc n) range (omega arith) high) children.1
      ]
