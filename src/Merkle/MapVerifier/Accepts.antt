-- ===== src/Merkle/MapVerifier/Accepts.antt =====
-- VerifyMapInclusionProof of merkle/map_verifier.go: the root that it accepts.
use trillian.Prelude.{
  ℕ, suc, ◌*◌, ◌≡◌, refl, List, [], ◌∷◌, Bytes, ok, err, Option, Bool, true, false, ◌&&◌, ◌||◌, not,
  length, ◌==◌, if◌then◌else◌, arith, bytes_equal,
}
use trillian.Prelude.Int.{ℤ}
use trillian.Storage.NodeId.Paths.{set_bytes}
use trillian.Storage.NodeId.BigEndian.{AreBytes}
use trillian.Merkle.MapHasher.{MapHasher}
use trillian.Merkle.Hstar2.Tree.{node_value}
use trillian.Merkle.MapVerifier.{
  calculated_root, is_empty, check_elements, verify_map_inclusion_proof,
}
use trillian.Merkle.MapVerifier.WayUp.{way_up, HasHash}
use trillian.Merkle.MapVerifier.Correct.{calculated_lem}

-- Each element is empty or a hash.
abbrev pub AreElements : ℕ → List Bytes → Type 0
AreElements size [] = Unit {0}
AreElements size (p ∷ proof) = ((is_empty p || (length p == size)) ≡ true) × AreElements size proof

fits : (a b : Bool) → (a || b) ≡ true → (not a && not b) ≡ false
fits true b h = refl
fits false true h = refl
fits false false h = absurd (cc)

check_elements-AreElements :
    {E : Type 0} (size i : ℕ) (proof : List Bytes)
    → AreElements size proof
    → check_elements {E = E} size i proof ≡ ok tt
unfolding check_elements
check_elements-AreElements size i [] h = refl
check_elements-AreElements size i (p ∷ proof) (first, rest) =
    let right = fits (is_empty p) (length p == size) first in
    rw right (check_elements-AreElements size (suc i) proof rest)

module _ {E : Type 0} (hasher : MapHasher E) (tree_id : ℤ)
    (some_bytes : (l r : Bytes) → is_empty (hasher.hash_children l r) ≡ false) where
  pub verify_lem :
      (k : ℕ) (index leaf expected_root : Bytes) (proof : List Bytes) (current : Option Bytes)
      → hasher.bit_len ≡ k * 8
      → length index ≡ k
      → AreBytes index
      → length proof ≡ k * 8
      → AreElements hasher.size proof
      → HasHash hasher tree_id index leaf current
      → verify_map_inclusion_proof hasher tree_id index leaf expected_root proof ≡ (
          if bytes_equal
            (node_value hasher tree_id 0 0
              (way_up hasher tree_id (set_bytes 0 index) 0 current proof))
            expected_root
          then ok tt
          else err calculated_root)
  unfolding verify_map_inclusion_proof
  verify_lem k index leaf expected_root proof current size count octets long elements hash =
      let index_fits : not (length index * 8 == hasher.bit_len) ≡ false = ground arith in
      let proof_fits : not (length proof == hasher.bit_len) ≡ false = ground arith in
      rw
        (
          index_fits,
          proof_fits,
          check_elements-AreElements {E = E} hasher.size 0 proof elements,
          calculated_lem hasher tree_id some_bytes k index leaf proof current size count octets long
              hash,
        )
        refl
