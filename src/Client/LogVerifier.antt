-- ===== src/Client/LogVerifier.antt =====
-- client/log_verifier.go: the checks of what a log answers, and the messages that they read. A nil
-- pointer is `none`; the hash of an object and the check of a signature with the log's public key
-- are fields of the verifier.
use trillian.Prelude.{
  ℕ, List, Bytes, Outcome, ok, err, panic, out_of_fuel, ◌>>=◌, ◌>>◌, Option, none, some, not,
  if◌then◌else◌,
}
use trillian.Prelude.Int.{ℤ, pos, eqb_ℤ}
use trillian.Merkle.Hashers.{LogHasher}
use trillian.Merkle.LogVerifier as ProofVerifier
use trillian.Merkle.LogVerifier.{verify_inclusion_proof, verify_consistency_proof}

-- The codes that the client tells apart; `other_code` has the others, `Unknown` among them.
pub data Code : Type 0 where
  unavailable not_found failed_precondition deadline_exceeded : Code
  other_code : ℕ → Code

pub data Error : Type 0 where
  status : Code → Error
  nil_argument : Error
  bad_signature hash_failed : Error
  wrong_tree_type unknown_hasher bad_public_key : Error
  wrong_leaf_count wrong_leaf_index no_inclusion_proof : Error
  proof_error : ProofVerifier.Error → Error
  -- A message with another error's text in it.
  wrapped : Error → Error

pub record SignedLogRoot : Type 0 where
  pub root_hash : Bytes
  pub timestamp_nanos : ℤ
  pub tree_size : ℤ
  pub log_id : Bytes
  pub tree_revision : ℤ
  pub signature : Option Bytes

pub record Proof : Type 0 where
  pub leaf_index : ℤ
  pub hashes : List Bytes

-- The fields of LogLeaf that the client sets or reads.
pub record LogLeaf : Type 0 where
  pub leaf_value : Bytes
  pub merkle_leaf_hash : Bytes
  pub leaf_index : ℤ

-- `logVerifier`
pub record LogVerifier : Type 0 where
  pub hasher : LogHasher Error
  -- The object hash of a root hash, a timestamp and a tree size.
  pub object_hash : Bytes → ℤ → ℤ → Outcome Error Bytes
  pub verify : Bytes → Option Bytes → Outcome Error (Unit {0})

abbrev pub proof_result : {A : Type 0} → Outcome ProofVerifier.Error A → Outcome Error A
proof_result (ok a) = ok a
proof_result (err e) = err (proof_error e)
proof_result panic = panic
proof_result out_of_fuel = out_of_fuel

module _ (c : LogVerifier) where
  -- HashLogRoot of crypto/data_formats.go.
  abbrev pub hash_log_root : SignedLogRoot → Outcome Error Bytes
  hash_log_root root = c.object_hash root.root_hash root.timestamp_nanos root.tree_size

  -- The first root is trusted; a later one needs a consistency proof.
  abbrev pub check_update : SignedLogRoot → SignedLogRoot → List Bytes → Outcome Error (Unit {0})
  check_update trusted new_root consistency =
      if not (eqb_ℤ trusted.tree_size (pos 0))
      then proof_result (
          verify_consistency_proof c.hasher.hash_children trusted.tree_size new_root.tree_size
            trusted.root_hash new_root.root_hash consistency)
      else ok tt

  unfoldable pub verify_root :
      Option SignedLogRoot → Option SignedLogRoot → List Bytes → Outcome Error (Unit {0})
  verify_root none new_root consistency = err nil_argument
  verify_root (some trusted) none consistency = err nil_argument
  verify_root (some trusted) (some new_root) consistency = do
    hash ← hash_log_root new_root
    c.verify hash new_root.signature
    check_update trusted new_root consistency

  unfoldable pub build_leaf : Bytes → Outcome Error LogLeaf
  build_leaf leaf_data = do
    leaf_hash ← c.hasher.hash_leaf leaf_data
    ok (record { leaf_value = leaf_data; merkle_leaf_hash = leaf_hash; leaf_index = pos 0 })

  unfoldable pub verify_inclusion_at_index :
      Option SignedLogRoot → Bytes → ℤ → List Bytes → Outcome Error (Unit {0})
  verify_inclusion_at_index none leaf_data leaf_index proof = err nil_argument
  verify_inclusion_at_index (some trusted) leaf_data leaf_index proof = do
    leaf ← build_leaf leaf_data
    proof_result (
        verify_inclusion_proof c.hasher.hash_children leaf_index trusted.tree_size proof
          trusted.root_hash leaf.merkle_leaf_hash)

  unfoldable pub verify_inclusion_by_hash :
      Option SignedLogRoot → Bytes → Option Proof → Outcome Error (Unit {0})
  verify_inclusion_by_hash none leaf_hash proof = err nil_argument
  verify_inclusion_by_hash (some trusted) leaf_hash none = err nil_argument
  verify_inclusion_by_hash (some trusted) leaf_hash (some proof) = proof_result (
      verify_inclusion_proof c.hasher.hash_children proof.leaf_index trusted.tree_size proof.hashes
        trusted.root_hash leaf_hash)
