-- ===== src/Merkle/MapVerifier/Complete.antt =====
-- VerifyMapInclusionProof of merkle/map_verifier.go accepts the proofs of a tree.
use trillian.Prelude.{
  ℕ, zero, suc, ◌+◌, ◌-◌, ◌*◌, ◌/◌, ◌%◌, ◌^◌, ◌<◌, ◌≤◌, ◌≡◌, refl, sym, ap, ◌∙◌, subst, List, [],
  ◌∷◌, Bytes, ok, Option, none, some, true, false, ◌||◌, length, ◌==◌, arith, Bool-cases, inl, inr,
  bytes_equal, bytes_equal_refl,
}
use mathlib.Core.Path.{ap₂}
use native.Mathlib.Nat.{mul_comm, div-lt_iff_lt-mul, div-div-eq-div-mul}
use trillian.Prelude.Bits.{two-pow-suc, two-pow_pos}
use trillian.Prelude.Int.{ℤ}
use trillian.Storage.NodeId.Paths.{set_bytes}
use trillian.Storage.NodeId.BigEndian.{AreBytes, set_bytes_bound}
use trillian.Storage.NodeId.Coords.{two-pow_bytes}
use trillian.Storage.NodeId.Masks.{sibling_slot}
use trillian.Merkle.MapHasher.{MapHasher}
use trillian.Merkle.Hstar2.Tree.{empty_node, node_value, join, node}
use trillian.Merkle.MapVerifier.{is_empty, verify_map_inclusion_proof}
use trillian.Merkle.MapVerifier.WayUp.{stored, or_nil, above, way_up, HasHash}
use trillian.Merkle.MapVerifier.Accepts.{AreElements, verify_lem}

-- The hashes of a tree have one size.
abbrev pub Sized : ℕ → Option Bytes → Type 0
Sized size none = Unit {0}
Sized size (some h) = length h ≡ size

-- An index is below the root.
pub index_slot :
    (bits : ℕ) (index : Bytes)
    → AreBytes index
    → length index * 8 ≡ bits
    → set_bytes 0 index / 2 ^ bits ≡ 0
index_slot bits index octets size =
    let bound = set_bytes_bound 0 index octets in
    let width : 256 ^ length index ≡ 2 ^ bits =
      sym (two-pow_bytes (length index)) ∙ ap (λ (n : ℕ). 2 ^ n) size in
    let below =
      (div-lt_iff_lt-mul {x = set_bytes 0 index} {y = 1} (two-pow_pos bits)).1 (omega arith) in
    omega arith

stored-or_nil : (size : ℕ) (x : Option Bytes) → 0 < size → Sized size x → stored (or_nil x) ≡ x
stored-or_nil size none positive sized = refl
stored-or_nil size (some []) positive sized = absurd (omega arith)
stored-or_nil size (some (b ∷ bs)) positive sized = refl

element-Sized :
    (size : ℕ) (x : Option Bytes)
    → Sized size x
    → (is_empty (or_nil x) || (length (or_nil x) == size)) ≡ true
element-Sized size none sized = refl
element-Sized size (some h) sized = ground arith

module _ {E : Type 0} (hasher : MapHasher E) (tree_id : ℤ) (leaves : ℕ → Option Bytes) where
  -- The nodes next to the way up from a leaf, from a height on: the proof of the tree.
  abbrev pub sibling_nodes : ℕ → ℕ → ℕ → List Bytes
  sibling_nodes x h zero = []
  sibling_nodes x h (suc m) =
      or_nil (node hasher tree_id leaves h (hasher.bit_len - h) (sibling_slot (x / 2 ^ h)))
      ∷ sibling_nodes x (suc h) m

  pub length-sibling_nodes : (x h m : ℕ) → length (sibling_nodes x h m) ≡ m
  length-sibling_nodes x h zero = refl
  length-sibling_nodes x h (suc m) = ap suc (length-sibling_nodes x (suc h) m)

  -- A node from the two below it, in either order.
  above-node :
      (x h : ℕ)
      → suc h ≤ hasher.bit_len
      → above hasher tree_id h
          (x / 2 ^ h)
          (node hasher tree_id leaves h (hasher.bit_len - h) (x / 2 ^ h))
          (node hasher tree_id leaves h (hasher.bit_len - h) (sibling_slot (x / 2 ^ h)))
        ≡ node hasher tree_id leaves (suc h) (hasher.bit_len - suc h) (x / 2 ^ suc h)
  unfolding node
  above-node x h inside =
      let a = x / 2 ^ h in
      let depth : suc (hasher.bit_len - suc h) ≡ hasher.bit_len - h = omega arith in
      let slot : x / 2 ^ suc h ≡ a / 2 =
        ap (λ (n : ℕ). x / n) (two-pow-suc h ∙ mul_comm 2 (2 ^ h))
        ∙ sym (div-div-eq-div-mul x (2 ^ h) 2) in
      let at : ℕ → Option Bytes = λ s. node hasher tree_id leaves h (hasher.bit_len - h) s in
      let d = hasher.bit_len - suc h in
      rw (slot, depth)
        (elim (Bool-cases (a % 2 == 0)) [
          | inl even ↦
              let half : a ≡ 2 * (a / 2) = ground arith in
              rw even
                (ap₂ (λ (m n : ℕ). join hasher tree_id d (a / 2) (at m) (at n)) half (ap suc half))
          | inr odd ↦
              let half : a ≡ suc (2 * (a / 2)) = ground arith in
              let below : a - 1 ≡ 2 * (a / 2) = omega arith in
              rw odd (ap₂ (λ (m n : ℕ). join hasher tree_id d (a / 2) (at m) (at n)) below half)
        ])

module _ {E : Type 0} (hasher : MapHasher E) (tree_id : ℤ) (positive : 0 < hasher.size)
    (sized : (l r : Bytes) → length (hasher.hash_children l r) ≡ hasher.size) where
  pub children_some_bytes : (l r : Bytes) → is_empty (hasher.hash_children l r) ≡ false
  children_some_bytes l r = let size = sized l r in ground arith

  join-Sized : (d s : ℕ) (l r : Option Bytes) → Sized hasher.size (join hasher tree_id d s l r)
  join-Sized d s none none = tt
  join-Sized d s none (some r) = sized (empty_node hasher tree_id (suc d) (2 * s)) r
  join-Sized d s (some l) none = sized l (empty_node hasher tree_id (suc d) (suc (2 * s)))
  join-Sized d s (some l) (some r) = sized l r

  module _ (leaves : ℕ → Option Bytes) (leaves_sized : (j : ℕ) → Sized hasher.size (leaves j)) where
    node-Sized : (n d s : ℕ) → Sized hasher.size (node hasher tree_id leaves n d s)
    unfolding node
    node-Sized zero d s = leaves_sized s
    node-Sized (suc n) d s =
        join-Sized d s (node hasher tree_id leaves n (suc d) (2 * s))
          (node hasher tree_id leaves n (suc d) (suc (2 * s)))

    sibling_nodes-AreElements :
        (x h m : ℕ) → AreElements hasher.size (sibling_nodes hasher tree_id leaves x h m)
    sibling_nodes-AreElements x h zero = tt
    sibling_nodes-AreElements x h (suc m) = (
      element-Sized hasher.size
          (node hasher tree_id leaves h (hasher.bit_len - h) (sibling_slot (x / 2 ^ h)))
          (node-Sized h (hasher.bit_len - h) (sibling_slot (x / 2 ^ h))),
      sibling_nodes-AreElements x (suc h) m,
    )

    -- The way up from a node of the tree, along the nodes next to it, is in the tree.
    pub way_up-node :
        (x h m : ℕ)
        → h + m ≡ hasher.bit_len
        → way_up hasher tree_id x h
            (node hasher tree_id leaves h (hasher.bit_len - h) (x / 2 ^ h))
            (sibling_nodes hasher tree_id leaves x h m)
          ≡ node hasher tree_id leaves hasher.bit_len 0 (x / 2 ^ hasher.bit_len)
    way_up-node x h zero total =
        let top : h ≡ hasher.bit_len = omega arith in
        let none_left : hasher.bit_len - hasher.bit_len ≡ 0 = omega arith in
        subst
          (λ n.
            node hasher tree_id leaves h (hasher.bit_len - h) (x / 2 ^ h)
            ≡ node hasher tree_id leaves n (hasher.bit_len - n) (x / 2 ^ n))
          top refl
        ∙ ap (λ (d : ℕ). node hasher tree_id leaves hasher.bit_len d (x / 2 ^ hasher.bit_len))
            none_left
    way_up-node x h (suc m) total =
        let sibling =
          node hasher tree_id leaves h (hasher.bit_len - h) (sibling_slot (x / 2 ^ h)) in
        let kept =
          stored-or_nil hasher.size sibling positive
            (node-Sized h (hasher.bit_len - h) (sibling_slot (x / 2 ^ h))) in
        let here = node hasher tree_id leaves h (hasher.bit_len - h) (x / 2 ^ h) in
        let rest = sibling_nodes hasher tree_id leaves x (suc h) m in
        ap (λ z. way_up hasher tree_id x (suc h) (above hasher tree_id h (x / 2 ^ h) here z) rest)
          kept
        ∙ ap (λ z. way_up hasher tree_id x (suc h) z rest)
            (above-node hasher tree_id leaves x h (omega arith))
        ∙ way_up-node x (suc h) m (omega arith)

    -- VerifyMapInclusionProof accepts what a tree proves: for an index of the hasher's length, the
    -- leaf that the tree has there or an empty one where it has none, with the nodes next to the way
    -- from the leaf to the root, and the tree's root. The hashes of children and of leaves have the
    -- hasher's size, which is positive.
    pub verify_map_inclusion_proof-node :
        (k : ℕ) (index leaf : Bytes)
        → hasher.bit_len ≡ k * 8
        → length index ≡ k
        → AreBytes index
        → HasHash hasher tree_id index leaf (leaves (set_bytes 0 index))
        → verify_map_inclusion_proof hasher tree_id index leaf
            (node_value hasher tree_id 0 0 (node hasher tree_id leaves hasher.bit_len 0 0))
            (sibling_nodes hasher tree_id leaves (set_bytes 0 index) 0 hasher.bit_len)
          ≡ ok tt
    unfolding node
    verify_map_inclusion_proof-node k index leaf size count octets hash =
        let x = set_bytes 0 index in
        let proof = sibling_nodes hasher tree_id leaves x 0 hasher.bit_len in
        let root = node_value hasher tree_id 0 0 (node hasher tree_id leaves hasher.bit_len 0 0) in
        let first : node hasher tree_id leaves 0 (hasher.bit_len - 0) (x / 2 ^ 0) ≡ leaves x =
          ap leaves (omega arith) in
        let top : x / 2 ^ hasher.bit_len ≡ 0 =
          index_slot hasher.bit_len index octets (omega arith) in
        let way = way_up-node x 0 hasher.bit_len (omega arith) in
        let long : length proof ≡ k * 8 =
          length-sibling_nodes hasher tree_id leaves x 0 hasher.bit_len ∙ size in
        let result =
          verify_lem hasher tree_id children_some_bytes k index leaf root proof (leaves x) size
            count octets long (sibling_nodes-AreElements x 0 hasher.bit_len) hash in
        let same : way_up hasher tree_id x 0 (leaves x) proof
            ≡ node hasher tree_id leaves hasher.bit_len 0 0 =
          ap (λ l. way_up hasher tree_id x 0 l proof) (sym first)
          ∙ way
          ∙ ap (λ (n : ℕ). node hasher tree_id leaves hasher.bit_len 0 n) top in
        let equal : bytes_equal
              (node_value hasher tree_id 0 0 (way_up hasher tree_id x 0 (leaves x) proof)) root
            ≡ true =
          rw same (bytes_equal_refl root) in
        rw equal at result
