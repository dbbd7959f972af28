-- ===== src/Server/Rehash.antt =====
-- server/proof_fetcher.go: the nodes of a proof are fetched, and those of a past tree size are
-- hashed together. The storage transaction is a parameter: GetMerkleNodes at the tree's revision.
-- NodeFetch is of merkle/merkle_path.go and Node of storage/types.go.
pub mod Chains
pub mod Fetch
mod Tests
use trillian.Prelude.{
  ℕ, suc, List, [], ◌∷◌, ◌++◌, map, Bytes, Outcome, ok, err, panic, out_of_fuel, ◌>>=◌, ◌>>◌, Bool,
  true, false, not, length, ◌==◌, ◌&&◌, if◌then◌else◌,
}
use trillian.Prelude.Int.{ℤ}
use trillian.Storage.NodeId
pub use trillian.Merkle.MerklePath.{NodeFetch}
pub use trillian.Storage.NodeId.{Node}
use trillian.Storage.NodeId.{NodeId, equivalent}

pub data Error : Type 0 where
  storage_failed wrong_count : Error
  wrong_node : ℕ → Error
  bad_node_id : NodeId.Error → Error

pub record Proof : Type 0 where
  pub leaf_index : ℤ
  pub hashes : List Bytes

-- The state of `rehasher`; of the node it keeps only the hash is set, and no error is.
pub record Rehasher : Type 0 where
  pub rehashing : Bool
  pub rehash_hash : Bytes
  pub proof : List Bytes

abbrev pub start_rehasher : Rehasher
start_rehasher = record { rehashing = false; rehash_hash = []; proof = [] }

abbrev pub emit_node : Rehasher → Node → Rehasher
emit_node r node = record r { proof = r.proof ++ node.hash ∷ [] }

abbrev pub start_rehashing : Rehasher → Node → Rehasher
start_rehashing r node = record r { rehashing = true; rehash_hash = node.hash }

abbrev pub end_rehashing : Rehasher → Rehasher
end_rehashing r =
    if r.rehashing then record r { rehashing = false; proof = r.proof ++ r.rehash_hash ∷ [] } else r

abbrev pub node_id_result : {A : Type 0} → Outcome NodeId.Error A → Outcome Error A
node_id_result (ok a) = ok a
node_id_result (err e) = err (bad_node_id e)
node_id_result panic = panic
node_id_result out_of_fuel = out_of_fuel

-- The loop that compares the nodes with those asked for, from position `i` on.
unfoldable pub check_nodes : ℕ → List Node → List NodeFetch → Outcome Error (Unit {0})
check_nodes i [] fetches = ok tt
check_nodes i (node ∷ nodes) [] = panic
check_nodes i (node ∷ nodes) (fetch ∷ fetches) =
    let rest = check_nodes (suc i) nodes fetches in
    (do
      same ← node_id_result (equivalent node.id fetch.id)
      if same then rest else err (wrong_node i))

module _ (hash_children : Bytes → Bytes → Bytes) where
  unfoldable pub process : Rehasher → Node → NodeFetch → Rehasher
  process r node fetch =
      if not r.rehashing && fetch.rehash
      then start_rehashing r node
      else if r.rehashing && not fetch.rehash
      then emit_node (end_rehashing r) node
      else if r.rehashing && fetch.rehash
      then record r { rehash_hash = hash_children node.hash r.rehash_hash }
      else emit_node r node

  abbrev pub rehashed_proof : Rehasher → ℤ → Proof
  rehashed_proof r leaf_index = record { leaf_index = leaf_index; hashes = (end_rehashing r).proof }

  -- The loop of fetchNodesAndBuildProof.
  unfoldable pub process_all : Rehasher → List Node → List NodeFetch → Outcome Error Rehasher
  process_all r [] fetches = ok r
  process_all r (node ∷ nodes) [] = panic
  process_all r (node ∷ nodes) (fetch ∷ fetches) = process_all (process r node fetch) nodes fetches

  module _ (get_merkle_nodes : List NodeId → Outcome Error (List Node)) where
    unfoldable pub fetch_nodes : List NodeFetch → Outcome Error (List Node)
    fetch_nodes fetches = do
      nodes ← get_merkle_nodes (map (λ (fetch : NodeFetch). fetch.id) fetches)
      if length nodes == length fetches
          then (check_nodes 0 nodes fetches >> ok nodes)
          else err wrong_count

    unfoldable pub fetch_nodes_and_build_proof : ℤ → List NodeFetch → Outcome Error Proof
    fetch_nodes_and_build_proof leaf_index fetches = do
      nodes ← fetch_nodes fetches
      r ← process_all start_rehasher nodes fetches
      ok (rehashed_proof r leaf_index)
