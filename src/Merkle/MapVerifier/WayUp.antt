-- ===== src/Merkle/MapVerifier/WayUp.antt =====
-- The loop of merkle/map_verifier.go against the tree of merkle/hstar2.go: a proof is the way from a
-- leaf up to the root, with the node that is next to it at each level.
use mathlib.Core.Path.{ap₂}
use trillian.Prelude.{
  ℕ, suc, ◌-◌, ◌*◌, ◌/◌, ◌%◌, ◌^◌, ◌<◌, ◌≡◌, refl, sym, ap, ◌∙◌, List, [], ◌∷◌, Bytes, ok, Option,
  none, some, Bool, true, false, ◌&&◌, not, ◌==◌, if◌then◌else◌, arith, Bool-cases, inl, inr,
}
use trillian.Prelude.Int.{ℤ}
use trillian.Storage.NodeId.{NodeId}
use trillian.Storage.NodeId.Paths.{be_bytes, mask_left}
use trillian.Storage.NodeId.Masks.{sibling_slot}
use trillian.Storage.NodeId.Siblings.{masked_path-height, bit-height}
use trillian.Merkle.MapHasher.{MapHasher}
use trillian.Merkle.Hstar2.Tree.{empty_node, node_value, join}
use trillian.Merkle.MapVerifier.{is_empty, leaf_hash_or_nil, empty_branch, combined}

-- An element of a proof that is empty is no hash.
abbrev pub stored : Bytes → Option Bytes
stored [] = none
stored (b ∷ bs) = some (b ∷ bs)

abbrev pub or_nil : Option Bytes → Bytes
or_nil none = []
or_nil (some h) = h

-- A hash that is there is not empty.
abbrev pub Proper : Option Bytes → Type 0
Proper none = Unit {0}
Proper (some h) = is_empty h ≡ false

pub stored-Proper : (p : Bytes) → Proper (stored p)
stored-Proper [] = tt
stored-Proper (b ∷ bs) = ground arith

pub or_nil-stored : (p : Bytes) → or_nil (stored p) ≡ p
or_nil-stored [] = refl
or_nil-stored (b ∷ bs) = refl

taken : (b c : Bool) (x y : Bytes) → b ≡ false → c ≡ true → (if not b && c then x else y) ≡ x
taken b c x y first second = rw (first, second) refl

passed : (b c : Bool) (x y : Bytes) → c ≡ false → (if not b && c then x else y) ≡ y
passed true c x y second = refl
passed false c x y second = rw second refl

and_turn : (a b : Bool) → (a && b) ≡ false → (b && a) ≡ false
and_turn true true h = absurd (cc)
and_turn true false h = refl
and_turn false true h = refl
and_turn false false h = refl

module _ {E : Type 0} (hasher : MapHasher E) (tree_id : ℤ) where
  -- The hash of a leaf: an empty leaf has none.
  abbrev pub HasHash : Bytes → Bytes → Option Bytes → Type 0
  HasHash index leaf node =
      (leaf_hash_or_nil hasher tree_id index leaf ≡ ok (or_nil node)) × Proper node

  joined :
      (d s a b : ℕ) (l r : Option Bytes)
      → a ≡ 2 * s
      → b ≡ suc (2 * s)
      → (is_empty (or_nil l) && is_empty (or_nil r)) ≡ false
      → hasher.hash_children
          (node_value hasher tree_id (suc d) a l)
          (node_value hasher tree_id (suc d) b r)
        ≡ or_nil (join hasher tree_id d s l r)
  joined d s a b none none first second some_hash = absurd (ground arith)
  joined d s a b none (some r) first second some_hash =
      ap (λ (n : ℕ). hasher.hash_children (empty_node hasher tree_id (suc d) n) r) first
  joined d s a b (some l) none first second some_hash =
      ap (λ (n : ℕ). hasher.hash_children l (empty_node hasher tree_id (suc d) n)) second
  joined d s a b (some l) (some r) first second some_hash = refl

  -- The node above the slot `a` at a height, from its hash and its sibling's.
  abbrev pub above : ℕ → ℕ → Option Bytes → Option Bytes → Option Bytes
  above h a node sibling =
      if a % 2 == 0
      then join hasher tree_id (hasher.bit_len - suc h) (a / 2) node sibling
      else join hasher tree_id (hasher.bit_len - suc h) (a / 2) sibling node

  -- The node at the end of the way from a height on.
  abbrev pub way_up : ℕ → ℕ → Option Bytes → List Bytes → Option Bytes
  way_up x h node [] = node
  way_up x h node (element ∷ elements) =
      way_up x (suc h) (above h (x / 2 ^ h) node (stored element)) elements

  module _ (k x h : ℕ) (size : hasher.bit_len ≡ k * 8) (inside : h < k * 8) where
    abbrev id : NodeId
    id = record { path = be_bytes k x; prefix_len_bits = k * 8 }

    abbrev sib : NodeId
    sib = record {
      path = be_bytes k (sibling_slot (x / 2 ^ h) * 2 ^ h);
      prefix_len_bits = k * 8 - h;
    }

    empty_node-height :
        (s : ℕ)
        → hasher.hash_empty tree_id (be_bytes k (s * 2 ^ h)) h
          ≡ empty_node hasher tree_id (suc (hasher.bit_len - suc h)) s
    empty_node-height s =
        let bytes : hasher.bit_len / 8 ≡ k = omega arith in
        let height : hasher.bit_len - suc (hasher.bit_len - suc h) ≡ h = omega arith in
        ap₂ (λ (k' h' : ℕ). hasher.hash_empty tree_id (be_bytes k' (s * 2 ^ h')) h') (sym bytes)
          (sym height)

    empty_branch_lem :
        empty_branch hasher tree_id id h
        ≡ ok (empty_node hasher tree_id (suc (hasher.bit_len - suc h)) (x / 2 ^ h))
    unfolding empty_branch mask_left
    empty_branch_lem =
        rw (masked_path-height k x h inside)
          (ap (λ (y : Bytes). ok y) (empty_node-height (x / 2 ^ h)))

    combined_value :
        (element running running' element' : Bytes)
        → (if is_empty running then empty_branch hasher tree_id id h else ok running) ≡ ok running'
        → (if not (is_empty running') && is_empty element
            then hasher.hash_empty tree_id sib.path h
            else element)
          ≡ element'
        → combined hasher tree_id id h sib element running
          ≡ ok (
              if x / 2 ^ h % 2 == 0
              then hasher.hash_children running' element'
              else hasher.hash_children element' running')
    unfolding combined
    combined_value element running running' element' first second =
        rw (first, bit-height k x h inside (k * 8))
          (ap
            (λ (e : Bytes). ok (
              if x / 2 ^ h % 2 == 0
              then hasher.hash_children running' e
              else hasher.hash_children e running'))
            second)

    -- The hashes of the two nodes below, as the loop has them.
    node_hash :
        (node : Option Bytes)
        → Proper node
        → (if is_empty (or_nil node) then empty_branch hasher tree_id id h else ok (or_nil node))
          ≡ ok (node_value hasher tree_id (suc (hasher.bit_len - suc h)) (x / 2 ^ h) node)
    node_hash none proper = empty_branch_lem
    node_hash (some r) proper = rw proper refl

    sibling_hash :
        (running : Bytes) (sibling : Option Bytes)
        → Proper sibling
        → (sibling ≡ none → is_empty running ≡ false)
        → (if not (is_empty running) && is_empty (or_nil sibling)
            then hasher.hash_empty tree_id sib.path h
            else or_nil sibling)
          ≡ node_value hasher tree_id
              (suc (hasher.bit_len - suc h))
              (sibling_slot (x / 2 ^ h))
              sibling
    sibling_hash running none proper present =
        taken (is_empty running) true (hasher.hash_empty tree_id sib.path h) [] (present refl) refl
        ∙ empty_node-height (sibling_slot (x / 2 ^ h))
    sibling_hash running (some p) proper present =
        passed (is_empty running) (is_empty p) (hasher.hash_empty tree_id sib.path h) p proper

    -- The hash of the two, in their order, is that of the node above them.
    above_hash :
        (node sibling : Option Bytes)
        → Proper node
        → Proper sibling
        → (is_empty (or_nil node) && is_empty (or_nil sibling)) ≡ false
        → (let v = node_value hasher tree_id (suc (hasher.bit_len - suc h)) (x / 2 ^ h) node in
            let w =
              node_value hasher tree_id
                (suc (hasher.bit_len - suc h))
                (sibling_slot (x / 2 ^ h))
                sibling in
            (if x / 2 ^ h % 2 == 0 then hasher.hash_children v w else hasher.hash_children w v)
            ≡ or_nil (above h (x / 2 ^ h) node sibling))
    above_hash node sibling proper proper' some_hash = elim (Bool-cases (x / 2 ^ h % 2 == 0)) [
      | inl even ↦
          let half : 2 * (x / 2 ^ h / 2) ≡ x / 2 ^ h = ground arith in
          rw even (
            joined (hasher.bit_len - suc h) (x / 2 ^ h / 2) (x / 2 ^ h) (suc (x / 2 ^ h)) node
              sibling (sym half) (ap suc (sym half)) some_hash)
      | inr odd ↦
          let half : suc (2 * (x / 2 ^ h / 2)) ≡ x / 2 ^ h = ground arith in
          let below : 2 * (x / 2 ^ h / 2) ≡ x / 2 ^ h - 1 = omega arith in
          rw odd (
            joined (hasher.bit_len - suc h) (x / 2 ^ h / 2) (x / 2 ^ h - 1) (x / 2 ^ h) sibling node
              (sym below) (sym half)
              (and_turn (is_empty (or_nil node)) (is_empty (or_nil sibling)) some_hash))
    ]

    present :
        (node sibling : Option Bytes)
        → Proper node
        → (is_empty (or_nil node) && is_empty (or_nil sibling)) ≡ false
        → sibling ≡ none
        → is_empty (node_value hasher tree_id (suc (hasher.bit_len - suc h)) (x / 2 ^ h) node)
          ≡ false
    present none none proper some_hash e = absurd (ground arith)
    present none (some p) proper some_hash e = absurd (cc)
    present (some r) sibling proper some_hash e = proper

    -- A round of the loop is the step to the node above.
    pub combined_lem :
        (node sibling : Option Bytes)
        → Proper node
        → Proper sibling
        → (is_empty (or_nil node) && is_empty (or_nil sibling)) ≡ false
        → combined hasher tree_id id h sib (or_nil sibling) (or_nil node)
          ≡ ok (or_nil (above h (x / 2 ^ h) node sibling))
    combined_lem node sibling proper proper' some_hash =
        combined_value (or_nil sibling) (or_nil node)
          (node_value hasher tree_id (suc (hasher.bit_len - suc h)) (x / 2 ^ h) node)
          (node_value hasher tree_id (suc (hasher.bit_len - suc h)) (sibling_slot (x / 2 ^ h))
            sibling)
          (node_hash node proper)
          (sibling_hash (node_value hasher tree_id (suc (hasher.bit_len - suc h)) (x / 2 ^ h) node)
            sibling proper' (present node sibling proper some_hash))
        ∙ ap (λ (y : Bytes). ok y) (above_hash node sibling proper proper' some_hash)
