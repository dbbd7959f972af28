-- ===== src/Log/Sequencer/Tests.antt =====
-- Runs of the sequencer of log/sequencer.go on a log without leaves, with a storage that keeps the
-- last root.
use trillian.Prelude.{
  inl, ℕ, suc, ◌≡◌, refl, subst, List, [], ◌∷◌, ◌++◌, Outcome, ok, err, Option, none, some, true,
  arith,
}
use trillian.Prelude.Int.{pos}
use trillian.Merkle.Hashers.{LogHasher}
use trillian.Merkle.BitLen.{bit_len}
use trillian.Merkle.Compact.{
  CompactMerkleTree, new_compact_merkle_tree, current_root, add_leaf_hash, add_nodes, add_loop,
  recalculate_root, recalculate_loop,
}
use trillian.Merkle.Compact.Correct.{IsTree, new_compact_merkle_tree-IsTree}
use trillian.Storage.NodeId.{
  new_node_id_for_tree_coords, coords_node_id, new_empty_node_id, write_index, equivalent, string,
  bits_from, bit, path_len_bits,
}
use trillian.Log.Tx.{return}
use trillian.Log.Sequencer.{
  NodeError, one_node_expected, Error, wrong_write_revision, LogLeaf, SignedLogRoot, Storage,
  tree_node_id, record_node, put_node, same_node, init_merkle_tree_from_storage, assign_indices,
  read_clock, stamp, put_leaf_node, integrate_leaf, update_compact_tree,
}
use trillian.Log.Sequencer.Batch.{
  Spec, fetch, sign_and_store, integrate_leaves, batch_or_nothing, integrate_transaction,
  integrate_batch,
}
use trillian.Log.Sequencer.Batch.Correct.{Outcomes, integrate_transaction_sound}
use trillian.Log.Sequencer.Batch.Returns.{integrate_transaction-Returns}
use trillian.Log.Sequencer.Batch.Integrate.{Batch}

abbrev hasher : LogHasher NodeError
hasher = record {
  empty_root = 9 ∷ [];
  hash_leaf = λ l. ok (0 ∷ l);
  hash_children = λ l r. 1 ∷ l ++ r;
  size = 1;
}

abbrev first_root : SignedLogRoot
first_root = record {
  root_hash = some (9 ∷ []);
  timestamp_nanos = pos 5;
  tree_size = 0;
  log_id = 7 ∷ [];
  tree_revision = pos 3;
  signature = [];
}

abbrev leaf_of : ℕ → LogLeaf
leaf_of b = record {
  merkle_leaf_hash = b ∷ [];
  leaf_index = pos 0;
  queue_timestamp = none;
  integrate_timestamp = none;
}

abbrev two_leaves : List LogLeaf
two_leaves = leaf_of 10 ∷ leaf_of 11 ∷ []

-- The time and the last root.
abbrev State : Type 0
State = ℕ × SignedLogRoot

abbrev storage : Storage State
storage = record {
  transactions = record { begin = return tt; commit = return tt; rollback = λ t. t; retries = 1 };
  latest_signed_log_root = λ t. (t, ok t.1);
  dequeue_leaves = λ limit cutoff t. (t, ok two_leaves);
  write_revision = λ t. pos 4;
  get_merkle_nodes = λ t revision ids. err one_node_expected;
  update_sequenced_leaves = λ leaves t. (t, ok tt);
  set_merkle_nodes = λ nodes t. (t, ok tt);
  store_signed_log_root = λ root t. ((t.0, root), ok tt);
  now = λ t. ((suc t.0, t.1), pos t.0);
  timestamp_proto = λ time. some (record { seconds = time; nanos = pos 0 });
  valid_timestamp = λ ts. true;
  sign_log_root = λ root. some (42 ∷ []);
}

abbrev second_root : SignedLogRoot
second_root = record {
  root_hash = some (1 ∷ 10 ∷ 11 ∷ []);
  timestamp_nanos = pos 22;
  tree_size = 2;
  log_id = 7 ∷ [];
  tree_revision = pos 4;
  signature = 42 ∷ [];
}

batch_of_two :
    (integrate_transaction hasher storage 10 (pos 0) (pos 0) (20, first_root)).1
    ≡ ok (2, some second_root)
unfolding integrate_transaction fetch assign_indices batch_or_nothing integrate_leaves
    init_merkle_tree_from_storage new_compact_merkle_tree update_compact_tree integrate_leaf
    add_leaf_hash add_nodes add_loop recalculate_root recalculate_loop bit_len record_node
    tree_node_id new_node_id_for_tree_coords coords_node_id new_empty_node_id write_index put_node
    same_node equivalent string bits_from bit path_len_bits read_clock stamp put_leaf_node
    sign_and_store current_root
batch_of_two = refl

-- The write revision is not the one after the latest root's, at either try: the clock alone has moved
-- on, and no tokens are given.
stale_revision :
    integrate_batch hasher storage
      (λ n. n)
      (pos 7)
      10
      (pos 0)
      (pos 0)
      (20, record first_root { tree_revision = pos 9 })
    ≡ ((21, record first_root { tree_revision = pos 9 }), (err wrong_write_revision, none))
unfolding integrate_batch integrate_transaction fetch assign_indices batch_or_nothing
    integrate_leaves init_merkle_tree_from_storage new_compact_merkle_tree trillian.Log.Tx.tries
    trillian.Log.Tx.attempt
stale_revision = refl

first_root-Rebuilds :
    (t : State) (c : CompactMerkleTree)
    → (init_merkle_tree_from_storage hasher storage first_root t).1 ≡ ok c
    → IsTree hasher c []
unfolding init_merkle_tree_from_storage
first_root-Rebuilds t c rebuilt =
    subst (λ (x : CompactMerkleTree). IsTree hasher x [])
      (same (new_compact_merkle_tree hasher) c rebuilt) (new_compact_merkle_tree-IsTree hasher)
  where
    same :
        (a b : CompactMerkleTree) → ◌≡◌ {A = Outcome Error CompactMerkleTree} (ok a) (ok b) → a ≡ b
    same a b h = cc

integrate_transaction_sound_example :
    Outcomes hasher storage first_root [] two_leaves (2, some second_root)
integrate_transaction_sound_example =
    integrate_transaction_sound hasher storage first_root [] two_leaves 10 (pos 0) (pos 0)
      (20, first_root) (2, some second_root) refl refl first_root-Rebuilds (omega arith)
      batch_of_two

-- A storage that has the first root as the latest one in every state.
abbrev steady : Storage State
steady = record storage { latest_signed_log_root = λ t. (t, ok first_root) }

abbrev steady_batch : State × (Outcome Error ℕ × Option (ℕ × List Spec))
steady_batch = integrate_batch hasher steady (λ n. n) (pos 7) 10 (pos 2) (pos 0) (20, first_root)

first_root-rebuilt :
    (t : State)
    → (mt : CompactMerkleTree) × ((init_merkle_tree_from_storage hasher storage first_root t).1
        ≡ ok mt)
      × IsTree hasher mt []
unfolding init_merkle_tree_from_storage
first_root-rebuilt t = (new_compact_merkle_tree hasher, refl, new_compact_merkle_tree-IsTree hasher)

integrate_transaction-Returns_example :
    (out : ℕ × Option SignedLogRoot) × ((integrate_transaction hasher storage 10
        (pos 0)
        (pos 0)
        (20, first_root)).1
      ≡ ok out)
    × Outcomes hasher storage first_root [] two_leaves out
integrate_transaction-Returns_example =
    integrate_transaction-Returns hasher storage
      (λ time. (record { seconds = time; nanos = pos 0 }, refl)) (λ root. (42 ∷ [], refl))
      (λ leaves t. (tt, refl)) (λ nodes t. (tt, refl)) (λ root t. (tt, refl)) first_root (9 ∷ []) []
      two_leaves 10 (pos 0) (pos 0) (20, first_root) refl refl refl refl first_root-rebuilt
      (λ t. refl) (omega arith) (inl refl, (inl refl, tt))
