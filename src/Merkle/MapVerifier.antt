-- ===== src/Merkle/MapVerifier.antt =====
-- merkle/map_verifier.go: the verification of a map's inclusion proof. A hash that is nil is empty.
pub mod WayUp
pub mod Correct
pub mod Accepts
pub mod Complete
pub mod Sound
mod Tests
use trillian.Prelude.{
  ℕ, zero, suc, ◌-◌, ◌*◌, List, [], ◌∷◌, Bytes, Outcome, ok, err, panic, out_of_fuel, ◌>>=◌, ◌>>◌,
  Bool, not, ◌&&◌, length, bytes_equal, ◌==◌, if◌then◌else◌,
}
use trillian.Prelude.Int.{ℤ}
use trillian.Merkle.MapHasher.{MapHasher}
use trillian.Storage.NodeId.{NodeId, new_node_id_from_hash, bit}
use trillian.Storage.NodeId.Paths.{no_error, mask_left, siblings}

pub data Error (E : Type 0) : Type 0 where
  index_length proof_length : Error E
  element_length : ℕ → Error E
  hash_leaf_failed : E → Error E
  calculated_root : Error E

abbrev pub is_empty : Bytes → Bool
is_empty h = length h == 0

-- The loop over the elements of the proof, with the position of the first.
unfoldable pub check_elements : {E : Type 0} → ℕ → ℕ → List Bytes → Outcome (Error E) (Unit {0})
check_elements size i [] = ok tt
check_elements size i (element ∷ elements) =
    let rest = check_elements size (suc i) elements in
    if not (is_empty element) && not (length element == size) then err (element_length i) else rest

abbrev pub hashed : {E : Type 0} → Outcome E Bytes → Outcome (Error E) Bytes
hashed (ok h) = ok h
hashed (err e) = err (hash_leaf_failed e)
hashed panic = panic
hashed out_of_fuel = out_of_fuel

module _ {E : Type 0} (hasher : MapHasher E) (tree_id : ℤ) where
  -- The running hash of the leaf, which is nil for an empty leaf.
  abbrev pub leaf_hash_or_nil : Bytes → Bytes → Outcome (Error E) Bytes
  leaf_hash_or_nil index leaf =
      if is_empty leaf then ok [] else hashed (hasher.hash_leaf tree_id index leaf)

  -- HashEmpty of the branch of the identifier at a height.
  unfoldable pub empty_branch : NodeId → ℕ → Outcome (Error E) Bytes
  empty_branch id height = do
    masked ← no_error (mask_left id (id.prefix_len_bits - height))
    ok (hasher.hash_empty tree_id masked.path height)

  -- A round of the loop over the siblings, where one of the two hashes is there.
  unfoldable pub combined : NodeId → ℕ → NodeId → Bytes → Bytes → Outcome (Error E) Bytes
  combined id height sib element running = do
    running' ← (if is_empty running then empty_branch id height else ok running)
    let element' =
        if not (is_empty running') && is_empty element
        then hasher.hash_empty tree_id sib.path height
        else element
    b ← no_error (bit id height)
    ok (
        if b == 0
        then hasher.hash_children running' element'
        else hasher.hash_children element' running')

  -- The loop from a height on; a proof that ends early is indexed out of range.
  unfoldable pub siblings_loop :
      NodeId → ℕ → List NodeId → List Bytes → Bytes → Outcome (Error E) Bytes
  siblings_loop id height [] proof running = ok running
  siblings_loop id height (sib ∷ sibs) [] running = panic
  siblings_loop id height (sib ∷ sibs) (element ∷ proof) running =
      if is_empty running && is_empty element
      then siblings_loop id (suc height) sibs proof running
      else (do
        running' ← combined id height sib element running
        siblings_loop id (suc height) sibs proof running')

  -- The root that the proof comes to.
  unfoldable pub calculated : Bytes → Bytes → List Bytes → Outcome (Error E) Bytes
  calculated index leaf proof = do
    running ← leaf_hash_or_nil index leaf
    let id = new_node_id_from_hash index
    sibs ← no_error (siblings id)
    root ← siblings_loop id 0 sibs proof running
    if is_empty root
        then (do
          masked ← no_error (mask_left id 0)
          ok (hasher.hash_empty tree_id masked.path hasher.bit_len))
        else ok root

  unfoldable pub verify_map_inclusion_proof :
      Bytes → Bytes → Bytes → List Bytes → Outcome (Error E) (Unit {0})
  verify_map_inclusion_proof index leaf expected_root proof =
      if not (length index * 8 == hasher.bit_len)
      then err index_length
      else if not (length proof == hasher.bit_len)
      then err proof_length
      else (do
        check_elements hasher.size 0 proof
        root ← calculated index leaf proof
        if bytes_equal root expected_root then ok tt else err calculated_root)
