-- ===== src/Merkle/MapVerifier/Correct.antt =====
-- VerifyMapInclusionProof of merkle/map_verifier.go: which roots it accepts.
use trillian.Prelude.{
  ℕ, zero, suc, ◌+◌, ◌-◌, ◌*◌, ◌/◌, ◌%◌, ◌^◌, ◌≡◌, refl, sym, ap, ◌∙◌, subst, List, [], ◌∷◌, Bytes,
  ok, replicate, ◌>>=◌, Option, none, some, true, false, ◌&&◌, length, ◌==◌, if◌then◌else◌, arith,
  Bool-cases, inl, inr,
}
use native.Mathlib.Nat.{zero-mul}
use mathlib.Core.Path.{ap₂}
use trillian.Prelude.Int.{ℤ}
use trillian.Storage.NodeId.{NodeId, new_node_id_from_hash}
use trillian.Storage.NodeId.Paths.{be_bytes, set_bytes, masked_path, mask_left, siblings, no_error}
use trillian.Storage.NodeId.BigEndian.{AreBytes, be_bytes-zeros, be_bytes-set_bytes}
use trillian.Storage.NodeId.Siblings.{sibling_ids, siblings_lem}
use trillian.Merkle.MapHasher.{MapHasher}
use trillian.Merkle.Hstar2.Tree.{empty_node, node_value, join}
use trillian.Merkle.MapVerifier.{Error, is_empty, siblings_loop, calculated}
use trillian.Merkle.MapVerifier.WayUp.{
  stored, or_nil, Proper, stored-Proper, or_nil-stored, above, way_up, combined_lem, HasHash,
}

module _ {E : Type 0} (hasher : MapHasher E) (tree_id : ℤ)
    (some_bytes : (l r : Bytes) → is_empty (hasher.hash_children l r) ≡ false) where
  join-Proper : (d s : ℕ) (l r : Option Bytes) → Proper (join hasher tree_id d s l r)
  join-Proper d s none none = tt
  join-Proper d s none (some r) = some_bytes (empty_node hasher tree_id (suc d) (2 * s)) r
  join-Proper d s (some l) none = some_bytes l (empty_node hasher tree_id (suc d) (suc (2 * s)))
  join-Proper d s (some l) (some r) = some_bytes l r

  above-Proper :
      (h a : ℕ) (current sibling : Option Bytes) → Proper (above hasher tree_id h a current sibling)
  above-Proper h a current sibling = elim (Bool-cases (a % 2 == 0)) [
    | inl even ↦ rw even (join-Proper (hasher.bit_len - suc h) (a / 2) current sibling)
    | inr odd ↦ rw odd (join-Proper (hasher.bit_len - suc h) (a / 2) sibling current)
  ]

  above-none : (h a : ℕ) → above hasher tree_id h a none none ≡ none
  above-none h a = elim (Bool-cases (a % 2 == 0)) [
    | inl even ↦ rw even refl
    | inr odd ↦ rw odd refl
  ]

  abbrev Loop : ℕ → ℕ → ℕ → ℕ → List Bytes → Option Bytes → Type 0
  Loop k x h m proof current =
      (siblings_loop hasher tree_id (record { path = be_bytes k x; prefix_len_bits = k * 8 }) h
          (sibling_ids k x h m) proof (or_nil current)
        ≡ ok (or_nil (way_up hasher tree_id x h current proof)))
      × Proper (way_up hasher tree_id x h current proof)

  both_empty :
      (current : Option Bytes) (element : Bytes)
      → Proper current
      → (is_empty (or_nil current) && is_empty element) ≡ true
      → (current ≡ none) × (element ≡ [])
  both_empty none [] proper h = (refl, refl)
  both_empty none (b ∷ bs) proper h = absurd (ground arith)
  both_empty (some r) element proper h = absurd (let wrong = rw proper at h in cc)

  siblings_loop_lem :
      (k x h m : ℕ) (proof : List Bytes) (current : Option Bytes)
      → hasher.bit_len ≡ k * 8
      → h + m ≡ k * 8
      → length proof ≡ m
      → Proper current
      → Loop k x h m proof current
  unfolding siblings_loop
  siblings_loop_lem k x h zero [] current size total count proper = (refl, proper)
  siblings_loop_lem k x h zero (p ∷ proof) current size total count proper = absurd (omega arith)
  siblings_loop_lem k x h (suc m) [] current size total count proper = absurd (omega arith)
  siblings_loop_lem k x h (suc m) (p ∷ proof) current size total count proper =
      let next =
        siblings_loop_lem k x (suc h) m proof
          (above hasher tree_id h (x / 2 ^ h) current (stored p)) size (omega arith) (omega arith)
          (above-Proper h (x / 2 ^ h) current (stored p)) in
      elim (Bool-cases (is_empty (or_nil current) && is_empty p)) [
        | inl neither ↦
            let both = both_empty current p proper neither in
            let same : above hasher tree_id h (x / 2 ^ h) current (stored p) ≡ current =
              rw (both.0, both.1) (above-none h (x / 2 ^ h)) in
            (
              rw neither (
                  subst
                    (λ z.
                      siblings_loop hasher tree_id
                        (record { path = be_bytes k x; prefix_len_bits = k * 8 }) (suc h)
                        (sibling_ids k x (suc h) m) proof (or_nil z)
                      ≡ ok (
                          or_nil (
                            way_up hasher tree_id x (suc h)
                              (above hasher tree_id h (x / 2 ^ h) current (stored p)) proof)))
                    same next.0),
              next.1,
            )
        | inr some_hash ↦
            let some_hash' : (is_empty (or_nil current) && is_empty (or_nil (stored p))) ≡ false =
              rw (or_nil-stored p) some_hash in
            let step = rw (or_nil-stored p) at (
              combined_lem hasher tree_id k x h size (omega arith) current (stored p) proper
                (stored-Proper p) some_hash') in
            (rw (some_hash, step) next.0, next.1)
      ]

  empty_root :
      (k : ℕ) (index : Bytes)
      → hasher.bit_len ≡ k * 8
      → length index ≡ k
      → hasher.hash_empty tree_id (replicate (length index) 0) hasher.bit_len
        ≡ empty_node hasher tree_id 0 0
  empty_root k index size count =
      let bytes : hasher.bit_len / 8 ≡ length index = omega arith in
      let path : be_bytes (hasher.bit_len / 8) (0 * 2 ^ (hasher.bit_len - 0))
          ≡ replicate (length index) 0 =
        ap₂ be_bytes bytes
          (zero-mul (2 ^ (hasher.bit_len - 0)) ∙ sym (zero-mul (256 ^ length index)))
        ∙ be_bytes-zeros (length index) 0 in
      ap₂ (λ (p : Bytes) (n : ℕ). hasher.hash_empty tree_id p n) (sym path) (omega arith)

  final_root :
      (k : ℕ) (index : Bytes) (root : Option Bytes)
      → hasher.bit_len ≡ k * 8
      → length index ≡ k
      → Proper root
      → (if is_empty (or_nil root)
          then (no_error {E = Error E} (mask_left (new_node_id_from_hash index) 0) >>= λ masked.
              ok (hasher.hash_empty tree_id masked.path hasher.bit_len))
          else ok (or_nil root))
        ≡ ok (node_value hasher tree_id 0 0 root)
  unfolding mask_left masked_path new_node_id_from_hash
  final_root k index none size count proper =
      ap (λ (h : Bytes). ok h) (empty_root k index size count)
  final_root k index (some h) size count proper = rw proper refl

  pub calculated_lem :
      (k : ℕ) (index leaf : Bytes) (proof : List Bytes) (current : Option Bytes)
      → hasher.bit_len ≡ k * 8
      → length index ≡ k
      → AreBytes index
      → length proof ≡ k * 8
      → HasHash hasher tree_id index leaf current
      → calculated hasher tree_id index leaf proof
        ≡ ok (
            node_value hasher tree_id 0 0
              (way_up hasher tree_id (set_bytes 0 index) 0 current proof))
  unfolding calculated new_node_id_from_hash
  calculated_lem k index leaf proof current size count octets long (hash, proper) =
      let x = set_bytes 0 index in
      let path : be_bytes k x ≡ index =
        subst (λ n. be_bytes n x ≡ index) count (be_bytes-set_bytes 0 index octets) in
      let id : NodeId = record { path = index; prefix_len_bits = length index * 8 } in
      let same : record { path = be_bytes k x; prefix_len_bits = k * 8 } ≡ id =
        ap₂ (λ (p : Bytes) (n : ℕ). record { path = p; prefix_len_bits = n * 8 }) path
          (sym count) in
      let sibs =
        subst (λ (i : NodeId). siblings i ≡ ok (sibling_ids k x 0 (k * 8))) same
          (siblings_lem k x) in
      let loop = siblings_loop_lem k x 0 (k * 8) proof current size (omega arith) long proper in
      let looped =
        subst
          (λ (i : NodeId).
            siblings_loop hasher tree_id i 0 (sibling_ids k x 0 (k * 8)) proof (or_nil current)
            ≡ ok (or_nil (way_up hasher tree_id x 0 current proof)))
          same loop.0 in
      rw (hash, sibs, looped)
        (final_root k index (way_up hasher tree_id x 0 current proof) size count loop.1)
