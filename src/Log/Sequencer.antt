-- ===== src/Log/Sequencer.antt =====
-- log/sequencer.go: the batches of leaves that are integrated into a log. The storage transaction,
-- the clock and the signer are the record `Storage`, an argument of the functions; metrics are left
-- out. Nanoseconds and revisions are integers, wrapped around where the code computes with them as
-- `int64`; a tree size is a number that stays below 2 ^ 63.
pub mod Nodes
pub mod Grown
pub mod Updates
pub mod Batch
mod Tests
use trillian.Prelude.{
  ℕ, zero, suc, ◌+◌, ◌-◌, List, [], ◌∷◌, ◌++◌, map, Bytes, Outcome, ok, err, panic, out_of_fuel,
  Option, none, some, Bool, true, false, not, ◌&&◌, ◌||◌, length, ltb, ◌==◌, if◌then◌else◌,
}
use trillian.Prelude.Int.{ℤ, pos, ◌+ℤ◌, ◌-ℤ◌, eqb_ℤ, ltb_ℤ}
use trillian.Merkle.Hashers.{LogHasher}
use trillian.Merkle.Compact
use trillian.Merkle.Compact.{
  CompactMerkleTree, SetNodeFunc, GetNodeFunc, new_compact_merkle_tree, current_root, add_leaf_hash,
}
use trillian.Merkle.Compact.Resume.{new_compact_merkle_tree_with_state}
use trillian.Storage.NodeId
use trillian.Storage.NodeId.{NodeId, Node, new_node_id_for_tree_coords, equivalent}
use trillian.Log.Tx.{Action, ◌>>=◌, ◌>>◌, return, fail, lift, Transactions}

-- The errors of the two callbacks that read and write nodes.
pub data NodeError : Type 0 where
  bad_coords storage_failed one_node_expected : NodeError

pub data Error : Type 0 where
  storage_error tree_needs_init wrong_write_revision invalid_leaf_index
        invalid_integrate_timestamp :
      Error
  invalid_queue_timestamp bad_leaf_node_id signing_failed : Error
  tree_error : Compact.Error NodeError → Error

-- A `Timestamp` of the protocol buffers.
pub record Timestamp : Type 0 where
  pub seconds : ℤ
  pub nanos : ℤ

-- The fields of LogLeaf that the sequencer reads and writes.
pub record LogLeaf : Type 0 where
  pub merkle_leaf_hash : Bytes
  pub leaf_index : ℤ
  pub queue_timestamp : Option Timestamp
  pub integrate_timestamp : Option Timestamp

pub record SignedLogRoot : Type 0 where
  pub root_hash : Option Bytes
  pub timestamp_nanos : ℤ
  pub tree_size : ℕ
  pub log_id : Bytes
  pub tree_revision : ℤ
  pub signature : Bytes

-- `LogTreeTX` on a state `T` and its transactions, with the clock, the conversions of times and the
-- signer.
pub record Storage (T : Type 0) : Type 0 where
  pub transactions : Transactions T Error
  pub latest_signed_log_root : Action T Error SignedLogRoot
  pub dequeue_leaves : ℕ → ℤ → Action T Error (List LogLeaf)
  pub write_revision : T → ℤ
  pub get_merkle_nodes : T → ℤ → List NodeId → Outcome NodeError (List Node)
  pub update_sequenced_leaves : List LogLeaf → Action T Error (Unit {0})
  pub set_merkle_nodes : List Node → Action T Error (Unit {0})
  pub store_signed_log_root : SignedLogRoot → Action T Error (Unit {0})
  pub now : T → T × ℤ
  pub timestamp_proto : ℤ → Option Timestamp
  pub valid_timestamp : Timestamp → Bool
  pub sign_log_root : SignedLogRoot → Option Bytes

abbrev pub max_tree_depth : ℕ
max_tree_depth = 64

-- The map from printed identifiers to nodes. A Go map is walked in no fixed order; here it keeps
-- the order of insertion.
abbrev pub NodeMap : Type 0
NodeMap = List Node

unfoldable pub same_node : NodeId → NodeId → Bool
same_node a b = elim (equivalent a b) [
  | ok same ↦ same
  | err _ ↦ false
  | panic ↦ false
  | out_of_fuel ↦ false
]

unfoldable pub put_node : Node → NodeMap → NodeMap
put_node n [] = n ∷ []
put_node n (m ∷ ms) = if same_node n.id m.id then n ∷ ms else m ∷ put_node n ms

-- The identifier of a node of the log's tree. A path of 64 bits is made of whole bytes: the last
-- two cases are not reached.
unfoldable pub tree_node_id : ℕ → ℕ → Option NodeId
tree_node_id depth index =
    elim (new_node_id_for_tree_coords (pos depth) (pos index) max_tree_depth) [
      | ok n ↦ some n
      | err _ ↦ none
      | panic ↦ none
      | out_of_fuel ↦ none
    ]

-- The callback of updateCompactTree.
unfoldable pub record_node : SetNodeFunc NodeMap NodeError
record_node depth index hash node_map = elim (tree_node_id depth index) [
  | some n ↦ (put_node (record { id = n; hash = hash; revision = pos 0 }) node_map, none)
  | none ↦ (node_map, some bad_coords)
]

-- buildNodesFromNodeMap
unfoldable pub build_nodes_from_node_map : NodeMap → ℤ → List Node
build_nodes_from_node_map node_map new_version =
    map (λ (n : Node). record n { revision = new_version }) node_map

unfoldable pub assign_indices : ℕ → List LogLeaf → List LogLeaf
assign_indices tree_size [] = []
assign_indices tree_size (leaf ∷ leaves) =
    record leaf { leaf_index = pos tree_size } ∷ assign_indices (suc tree_size) leaves

abbrev pub tree_result : {A : Type 0} → Outcome (Compact.Error NodeError) A → Outcome Error A
tree_result (ok a) = ok a
tree_result (err e) = err (tree_error e)
tree_result panic = panic
tree_result out_of_fuel = out_of_fuel

abbrev pub or_error : {A : Type 0} → Option A → Error → Outcome Error A
or_error none e = err e
or_error (some a) e = ok a

module _ {T : Type 0} (hasher : LogHasher NodeError) (s : Storage T) where
  unfoldable pub read_clock : Action T Error ℤ
  read_clock t = let (t', time) = s.now t in (t', ok time)

  abbrev pub single_node : Outcome NodeError (List Node) → Outcome NodeError Bytes
  single_node (ok (n ∷ [])) = ok n.hash
  single_node (ok []) = err one_node_expected
  single_node (ok (n ∷ m ∷ ns)) = err one_node_expected
  single_node (err e) = err e
  single_node panic = panic
  single_node out_of_fuel = out_of_fuel

  -- The callback of buildMerkleTreeFromStorageAtRoot.
  unfoldable pub stored_node : T → ℤ → GetNodeFunc NodeError
  stored_node t revision depth index = elim (tree_node_id depth index) [
    | some n ↦ single_node (s.get_merkle_nodes t revision (n ∷ []))
    | none ↦ err bad_coords
  ]

  abbrev pub hash_or_nil : Option Bytes → Bytes
  hash_or_nil none = []
  hash_or_nil (some h) = h

  unfoldable pub build_merkle_tree_from_storage_at_root :
      SignedLogRoot → T → Outcome (Compact.Error NodeError) CompactMerkleTree
  build_merkle_tree_from_storage_at_root root t =
      new_compact_merkle_tree_with_state hasher root.tree_size (stored_node t root.tree_revision)
        (hash_or_nil root.root_hash)

  unfoldable pub init_merkle_tree_from_storage : SignedLogRoot → Action T Error CompactMerkleTree
  init_merkle_tree_from_storage root t =
      if root.tree_size == 0
      then (t, ok (new_compact_merkle_tree hasher))
      else (t, tree_result (build_merkle_tree_from_storage_at_root root t))

  -- The checks of a leaf's times; the merge delay is a metric.
  unfoldable pub stamp : LogLeaf → ℤ → Outcome Error LogLeaf
  stamp leaf time = elim (s.timestamp_proto time) [
    | none ↦ err invalid_integrate_timestamp
    | some ts ↦
        let stamped = ok (record leaf { integrate_timestamp = some ts }) in
        let result : Outcome Error LogLeaf = elim leaf.queue_timestamp [
          | none ↦ stamped
          | some queued ↦
              if not (eqb_ℤ queued.seconds (pos 0)) && not (s.valid_timestamp queued)
              then err invalid_queue_timestamp
              else stamped
        ] in
        result
  ]

  -- The node of the leaf, written after those of the callback.
  unfoldable pub put_leaf_node : ℕ → Bytes → NodeMap → Outcome Error NodeMap
  put_leaf_node seq hash node_map = elim (tree_node_id 0 seq) [
    | none ↦ err bad_leaf_node_id
    | some n ↦ ok (put_node (record { id = n; hash = hash; revision = pos 0 }) node_map)
  ]

  -- A round of updateCompactTree.
  unfoldable pub integrate_leaf :
      CompactMerkleTree → NodeMap → LogLeaf → Action T Error (CompactMerkleTree × NodeMap × LogLeaf)
  integrate_leaf mt node_map leaf =
      let (mt', node_map', seq) =
        add_leaf_hash hasher record_node mt leaf.merkle_leaf_hash node_map in
      (do
        n ← lift (tree_result seq)
        (if eqb_ℤ leaf.leaf_index (pos n) then return tt else fail invalid_leaf_index)
        time ← read_clock
        leaf' ← lift (stamp leaf time)
        node_map'' ← lift (put_leaf_node n leaf.merkle_leaf_hash node_map')
        return (mt', node_map'', leaf'))

  unfoldable pub update_compact_tree :
      CompactMerkleTree
      → NodeMap
      → List LogLeaf
      → Action T Error (CompactMerkleTree × NodeMap × List LogLeaf)
  update_compact_tree mt node_map [] = return (mt, node_map, [])
  update_compact_tree mt node_map (leaf ∷ leaves) = do
    (mt', node_map', leaf') ← integrate_leaf mt node_map leaf
    (mt'', node_map'', leaves') ← update_compact_tree mt' node_map' leaves
    return (mt'', node_map'', leaf' ∷ leaves')
