-- ===== src/Merkle/MapVerifier/Sound.antt =====
-- What a proof shows that VerifyMapInclusionProof of merkle/map_verifier.go accepts.
use trillian.Prelude.{
  ℕ, zero, suc, ◌+◌, ◌-◌, ◌*◌, ◌/◌, ◌%◌, ◌^◌, ◌<◌, ◌≤◌, ◌≡◌, ◌⊎◌, refl, sym, ap, ◌∙◌, subst, List,
  [], ◌∷◌, Bytes, ok, err, Outcome, Option, none, some, not, length, ◌==◌, if◌then◌else◌, arith,
  Bool-cases, inl, inr, bytes_equal, bytes_equal→eq, bind_ok, ◌>>=◌,
}
use native.Mathlib.Nat.{mul_comm, div-div-eq-div-mul}
use trillian.Prelude.Bits.{two-pow-suc}
use trillian.Prelude.Int.{ℤ}
use trillian.Storage.NodeId.Paths.{set_bytes}
use trillian.Storage.NodeId.BigEndian.{AreBytes}
use trillian.Merkle.MapHasher.{MapHasher}
use trillian.Merkle.Tree.Collision.{Collision, children-eq}
use trillian.Merkle.Hstar2.Tree.{empty_node, node_value, join, node}
use trillian.Merkle.MapVerifier.{
  Error, calculated_root, check_elements, calculated, verify_map_inclusion_proof,
}
use trillian.Merkle.MapVerifier.Correct.{calculated_lem}
use trillian.Merkle.MapVerifier.Complete.{
  Sized, sibling_nodes, length-sibling_nodes, children_some_bytes, way_up-node, index_slot,
}
use trillian.Merkle.MapVerifier.WayUp.{stored, above, way_up, HasHash}

-- The hash of two children that is the hash of an empty subtree.
abbrev pub EmptyCollision : {E : Type 0} → MapHasher E → ℤ → Type 0
EmptyCollision hasher tree_id =
    (d : ℕ) × (s : ℕ) × (l : Bytes) × (r : Bytes) × (hasher.hash_children l r
      ≡ empty_node hasher tree_id d s)

abbrev pub Broken : {E : Type 0} → MapHasher E → ℤ → Type 0
Broken hasher tree_id = Collision hasher.hash_children ⊎ EmptyCollision hasher tree_id

module _ {E : Type 0} (hasher : MapHasher E) (tree_id : ℤ) where
  abbrev Children : ℕ → ℕ → Option Bytes → Option Bytes → Type 0
  Children d j l r =
      ((l ≡ none)
        × (r ≡ none)
        × (node_value hasher tree_id d j (join hasher tree_id d j l r)
            ≡ empty_node hasher tree_id d j))
      ⊎ (node_value hasher tree_id d j (join hasher tree_id d j l r)
          ≡ hasher.hash_children (node_value hasher tree_id (suc d) (2 * j) l)
              (node_value hasher tree_id (suc d) (suc (2 * j)) r))

  join-Children : (d j : ℕ) (l r : Option Bytes) → Children d j l r
  join-Children d j none none = inl (refl, refl, refl)
  join-Children d j none (some r) = inr refl
  join-Children d j (some l) none = inr refl
  join-Children d j (some l) (some r) = inr refl

  -- Two nodes with one value have children with one value each.
  same_children :
      (d j : ℕ) (l r l' r' : Option Bytes)
      → node_value hasher tree_id d j (join hasher tree_id d j l r)
        ≡ node_value hasher tree_id d j (join hasher tree_id d j l' r')
      → ((node_value hasher tree_id (suc d) (2 * j) l
            ≡ node_value hasher tree_id (suc d) (2 * j) l')
          × (node_value hasher tree_id (suc d) (suc (2 * j)) r
              ≡ node_value hasher tree_id (suc d) (suc (2 * j)) r'))
        ⊎ Broken hasher tree_id
  same_children d j l r l' r' same =
      let left = node_value hasher tree_id (suc d) (2 * j) in
      let right = node_value hasher tree_id (suc d) (suc (2 * j)) in
      elim (join-Children d j l r) [
        | inl (a, b, v) ↦ elim (join-Children d j l' r') [
          | inl (a', b', v') ↦ inl (ap left (a ∙ sym a'), ap right (b ∙ sym b'))
          | inr h' ↦ inr (inr (d, j, left l', right r', sym h' ∙ sym same ∙ v))
        ]
        | inr h ↦ elim (join-Children d j l' r') [
          | inl (a', b', v') ↦ inr (inr (d, j, left l, right r, sym h ∙ same ∙ v'))
          | inr h' ↦
              elim (children-eq hasher.hash_children (left l) (right r) (left l') (right r')
                (sym h ∙ same ∙ h')) [ inl equal ↦ inl equal | inr collision ↦ inr (inl collision) ]
        ]
      ]

  -- The same from one node up, whichever child it is.
  same_below :
      (h a : ℕ) (c p c' p' : Option Bytes)
      → suc h ≤ hasher.bit_len
      → node_value hasher tree_id (hasher.bit_len - suc h) (a / 2) (above hasher tree_id h a c p)
        ≡ node_value hasher tree_id
            (hasher.bit_len - suc h)
            (a / 2)
            (above hasher tree_id h a c' p')
      → (node_value hasher tree_id (hasher.bit_len - h) a c
          ≡ node_value hasher tree_id (hasher.bit_len - h) a c')
        ⊎ Broken hasher tree_id
  same_below h a c p c' p' inside same =
      let d = hasher.bit_len - suc h in
      let depth : suc d ≡ hasher.bit_len - h = omega arith in
      elim (Bool-cases (a % 2 == 0)) [
        | inl even ↦
            let half : 2 * (a / 2) ≡ a = ground arith in
            elim (same_children d (a / 2) c p c' p' (rw even at same)) [
              | inl equal ↦ inl (rw (depth, half) at equal.0)
              | inr broken ↦ inr broken
            ]
        | inr odd ↦
            let half : suc (2 * (a / 2)) ≡ a = ground arith in
            elim (same_children d (a / 2) p c p' c' (rw odd at same)) [
              | inl equal ↦ inl (rw (depth, half) at equal.1)
              | inr broken ↦ inr broken
            ]
      ]

  -- Two ways up from one place that come to one value were at one value all along.
  same_way :
      (x h m : ℕ) (c c' : Option Bytes) (proof proof' : List Bytes)
      → h + m ≡ hasher.bit_len
      → length proof ≡ m
      → length proof' ≡ m
      → x / 2 ^ hasher.bit_len ≡ 0
      → node_value hasher tree_id 0 0 (way_up hasher tree_id x h c proof)
        ≡ node_value hasher tree_id 0 0 (way_up hasher tree_id x h c' proof')
      → (node_value hasher tree_id (hasher.bit_len - h) (x / 2 ^ h) c
          ≡ node_value hasher tree_id (hasher.bit_len - h) (x / 2 ^ h) c')
        ⊎ Broken hasher tree_id
  same_way x h zero c c' [] [] total count count' top same =
      let root : hasher.bit_len ≡ h = omega arith in
      let depth : hasher.bit_len - h ≡ 0 = omega arith in
      let slot : x / 2 ^ h ≡ 0 = subst (λ n. x / 2 ^ n ≡ 0) root top in inl (rw (depth, slot) same)
  same_way x h zero c c' [] (p' ∷ proof') total count count' top same = absurd (omega arith)
  same_way x h zero c c' (p ∷ proof) proof' total count count' top same = absurd (omega arith)
  same_way x h (suc m) c c' [] proof' total count count' top same = absurd (omega arith)
  same_way x h (suc m) c c' (p ∷ proof) [] total count count' top same = absurd (omega arith)
  same_way x h (suc m) c c' (p ∷ proof) (p' ∷ proof') total count count' top same =
      let a = x / 2 ^ h in
      let slot : x / 2 ^ suc h ≡ a / 2 =
        ap (λ (n : ℕ). x / n) (two-pow-suc h ∙ mul_comm 2 (2 ^ h))
        ∙ sym (div-div-eq-div-mul x (2 ^ h) 2) in
      elim (same_way x (suc h) m (above hasher tree_id h a c (stored p))
        (above hasher tree_id h a c' (stored p')) proof proof' (omega arith) (omega arith)
        (omega arith) top same) [
          | inl equal ↦ same_below h a c (stored p) c' (stored p') (omega arith) (rw slot at equal)
          | inr broken ↦ inr broken
        ]

  compared :
      (a b : Bytes)
      → ◌≡◌ {A = Outcome (Error E) (Unit {0})}
          (if bytes_equal a b then ok tt else err calculated_root)
          (ok tt)
      → a ≡ b
  compared a b h = elim (Bool-cases (bytes_equal a b)) [
    | inl equal ↦ bytes_equal→eq a b equal
    | inr differ ↦ absurd (let wrong = rw differ at h in cc)
  ]

  accepted :
      (index leaf expected_root : Bytes) (proof : List Bytes)
      → verify_map_inclusion_proof hasher tree_id index leaf expected_root proof ≡ ok tt
      → (length index * 8 ≡ hasher.bit_len)
        × (length proof ≡ hasher.bit_len)
        × (calculated hasher tree_id index leaf proof ≡ ok expected_root)
  unfolding verify_map_inclusion_proof
  accepted index leaf expected_root proof h =
      elim (Bool-cases (not (length index * 8 == hasher.bit_len))) [
        | inl long ↦ absurd (let wrong = rw long at h in cc)
        | inr index_fits ↦ elim (Bool-cases (not (length proof == hasher.bit_len))) [
          | inl long ↦ absurd (let wrong = rw (index_fits, long) at h in cc)
          | inr proof_fits ↦
              let checked = rw (index_fits, proof_fits) at h in
              let elements =
                bind_ok (check_elements hasher.size 0 proof)
                  (λ u. calculated hasher tree_id index leaf proof >>= λ root.
                    if bytes_equal root expected_root then ok tt else err calculated_root)
                  tt checked in
              let root =
                bind_ok (calculated hasher tree_id index leaf proof)
                  (λ root. if bytes_equal root expected_root then ok tt else err calculated_root) tt
                  elements.2 in
              (
                ground arith,
                ground arith,
                root.1 ∙ ap (λ (r : Bytes). ok r) (compared root.0 expected_root root.2),
              )
        ]
      ]

ok_value : {E : Type 0} {a b : Bytes} → ◌≡◌ {A = Outcome (Error E) Bytes} (ok a) (ok b) → a ≡ b
ok_value e = cc

-- A proof that VerifyMapInclusionProof accepts for a tree's root is of the leaf that the tree has at
-- the index, by its hash, where an empty leaf and a missing one have the hash of the empty leaf
-- there; or else two pairs of children have one hash, or a pair has the hash of an empty subtree. The
-- hashes of children and of leaves have the hasher's size, which is positive, and the hasher's length
-- is in whole bytes.
pub verify_map_inclusion_proof_sound :
    {E : Type 0} (hasher : MapHasher E) (tree_id : ℤ) (leaves : ℕ → Option Bytes) (k : ℕ)
    (index leaf : Bytes) (proof : List Bytes) (current : Option Bytes)
    → 0 < hasher.size
    → ((l r : Bytes) → length (hasher.hash_children l r) ≡ hasher.size)
    → ((j : ℕ) → Sized hasher.size (leaves j))
    → hasher.bit_len ≡ k * 8
    → AreBytes index
    → HasHash hasher tree_id index leaf current
    → verify_map_inclusion_proof hasher tree_id index leaf
        (node_value hasher tree_id 0 0 (node hasher tree_id leaves hasher.bit_len 0 0))
        proof
      ≡ ok tt
    → (node_value hasher tree_id hasher.bit_len (set_bytes 0 index) current
        ≡ node_value hasher tree_id hasher.bit_len (set_bytes 0 index) (leaves (set_bytes 0 index)))
      ⊎ Broken hasher tree_id
unfolding node
verify_map_inclusion_proof_sound hasher tree_id leaves k index leaf proof current positive sized
      leaves_sized size octets hash ok_proof =
    let x = set_bytes 0 index in
    let root = node_value hasher tree_id 0 0 (node hasher tree_id leaves hasher.bit_len 0 0) in
    let siblings = sibling_nodes hasher tree_id leaves x 0 hasher.bit_len in
    let passed = accepted hasher tree_id index leaf root proof ok_proof in
    let came =
      calculated_lem hasher tree_id (children_some_bytes hasher tree_id positive sized) k index leaf
        proof current size (omega arith) octets (omega arith) hash in
    let one : x / 2 ^ 0 ≡ x = omega arith in
    let top : x / 2 ^ hasher.bit_len ≡ 0 = index_slot hasher.bit_len index octets passed.0 in
    let way : way_up hasher tree_id x 0 (leaves x) siblings
        ≡ node hasher tree_id leaves hasher.bit_len 0 0 =
      ap (λ (n : ℕ). way_up hasher tree_id x 0 (leaves n) siblings) (sym one)
      ∙ way_up-node hasher tree_id positive sized leaves leaves_sized x 0 hasher.bit_len
          (omega arith)
      ∙ ap (λ (n : ℕ). node hasher tree_id leaves hasher.bit_len 0 n) top in
    let same : node_value hasher tree_id 0 0 (way_up hasher tree_id x 0 current proof)
        ≡ node_value hasher tree_id 0 0 (way_up hasher tree_id x 0 (leaves x) siblings) =
      ok_value (sym came ∙ passed.2) ∙ ap (node_value hasher tree_id 0 0) (sym way) in
    let result =
      same_way hasher tree_id x 0 hasher.bit_len current (leaves x) proof siblings (omega arith)
        passed.1 (length-sibling_nodes hasher tree_id leaves x 0 hasher.bit_len) top same in
    let depth : hasher.bit_len - 0 ≡ hasher.bit_len = omega arith in rw (depth, one) at result
