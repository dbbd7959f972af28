-- ===== src/Log/Sequencer/Batch.antt =====
-- log/sequencer.go: IntegrateBatch and SignRoot, each one storage transaction.
pub mod Correct
pub mod Integrate
pub mod Returns
use trillian.Prelude.{
  ℕ, zero, suc, ◌+◌, List, [], ◌∷◌, Bytes, Outcome, ok, err, panic, out_of_fuel, Option, none, some,
  Bool, true, false, not, ◌||◌, length, ◌==◌, ltb, if◌then◌else◌,
}
use trillian.Prelude.Int.{ℤ, pos, int64, ◌+ℤ◌, ◌-ℤ◌, eqb_ℤ, ltb_ℤ}
use trillian.Merkle.Hashers.{LogHasher}
use trillian.Merkle.Compact.{CompactMerkleTree, current_root}
use trillian.Log.Tx.{Action, ◌>>=◌, ◌>>◌, return, fail, lift, read_write_transaction}
use trillian.Log.Sequencer.{
  NodeError, Error, storage_error, tree_needs_init, wrong_write_revision, signing_failed, LogLeaf,
  SignedLogRoot, Storage, or_error, assign_indices, build_nodes_from_node_map, read_clock,
  init_merkle_tree_from_storage, update_compact_tree,
}

-- `quota.Spec` and its two enumerations.
pub data Group : Type 0 where
  global tree user : Group

pub data Kind : Type 0 where
  read write : Kind

pub record Spec : Type 0 where
  pub group : Group
  pub kind : Kind
  pub tree_id : ℤ

-- What IntegrateBatch gives back to the quotas: the trees' and the global ones.
unfoldable pub replenished_specs : ℤ → List Spec
replenished_specs log_id =
    record { group = tree; kind = read; tree_id = log_id }
    ∷ record { group = tree; kind = write; tree_id = log_id }
    ∷ record { group = global; kind = read; tree_id = pos 0 }
    ∷ record { group = global; kind = write; tree_id = pos 0 }
    ∷ []

module _ {T : Type 0} (hasher : LogHasher NodeError) (s : Storage T) where
  -- `fetch` of logSequencingTask.
  unfoldable pub fetch : ℕ → ℕ → ℤ → Action T Error (List LogLeaf)
  fetch tree_size limit cutoff = do
    leaves ← s.dequeue_leaves limit cutoff
    return (assign_indices tree_size leaves)

  -- The root of a tree at a revision, before it is signed.
  abbrev pub new_log_root : CompactMerkleTree → ℤ → Bytes → ℤ → SignedLogRoot
  new_log_root mt time log_id revision = record {
    root_hash = some (current_root mt);
    timestamp_nanos = time;
    tree_size = mt.size;
    log_id = log_id;
    tree_revision = revision;
    signature = [];
  }

  -- The end of both transactions: the root is signed and stored.
  unfoldable pub sign_and_store : SignedLogRoot → Action T Error SignedLogRoot
  sign_and_store root = do
    sig ← lift (or_error (s.sign_log_root root) signing_failed)
    s.store_signed_log_root (record root { signature = sig })
    return (record root { signature = sig })

  -- The transaction of IntegrateBatch from the point where a root is needed.
  unfoldable pub integrate_leaves :
      SignedLogRoot → List LogLeaf → Action T Error (ℕ × Option SignedLogRoot)
  integrate_leaves current sequenced = do
    mt ← init_merkle_tree_from_storage hasher s current
    new_version ← (λ t. (t, ok (s.write_revision t)))
    (if eqb_ℤ new_version (int64 (current.tree_revision +ℤ pos 1))
        then return tt
        else fail wrong_write_revision)
    (mt', node_map, leaves) ← update_compact_tree hasher s mt [] sequenced
    s.update_sequenced_leaves leaves
    s.set_merkle_nodes (build_nodes_from_node_map node_map new_version)
    time ← read_clock hasher s
    root ← sign_and_store (new_log_root mt' time current.log_id new_version)
    return (length sequenced, some root)

  -- No root is needed for an empty batch if roots do not age, or if the last one is young enough.
  unfoldable pub batch_or_nothing :
      SignedLogRoot → ℤ → List LogLeaf → Action T Error (ℕ × Option SignedLogRoot)
  batch_or_nothing current max_root_duration [] = do
    now_nanos ← read_clock hasher s
    (if eqb_ℤ max_root_duration (pos 0)
          || ltb_ℤ (int64 (now_nanos -ℤ current.timestamp_nanos)) max_root_duration
        then return (0, none)
        else integrate_leaves current [])
  batch_or_nothing current max_root_duration (leaf ∷ leaves) =
      integrate_leaves current (leaf ∷ leaves)

  -- A log without a root hash needs its first root.
  abbrev pub if_initialised : {A : Type 0} → Option Bytes → Action T Error A → Action T Error A
  if_initialised none rest = fail tree_needs_init
  if_initialised (some h) rest = rest

  unfoldable pub integrate_transaction : ℕ → ℤ → ℤ → Action T Error (ℕ × Option SignedLogRoot)
  integrate_transaction limit cutoff max_root_duration = do
    current ← s.latest_signed_log_root
    if_initialised current.root_hash (do
      leaves ← fetch current.tree_size limit cutoff
      batch_or_nothing current max_root_duration leaves)

  -- IntegrateBatch and its call of PutTokens, if it makes one; `tokens` is the product with
  -- QuotaIncreaseFactor, a floating-point number.
  abbrev pub replenish :
      (ℕ → ℕ)
      → ℤ
      → Outcome Error (ℕ × Option SignedLogRoot)
      → Outcome Error ℕ × Option (ℕ × List Spec)
  replenish tokens log_id (ok (n, root)) =
      (ok n, if ltb 0 n then some (tokens n, replenished_specs log_id) else none)
  replenish tokens log_id (err e) = (err e, none)
  replenish tokens log_id panic = (panic, none)
  replenish tokens log_id out_of_fuel = (out_of_fuel, none)

  unfoldable pub integrate_batch :
      (ℕ → ℕ) → ℤ → ℕ → ℤ → ℤ → T → T × (Outcome Error ℕ × Option (ℕ × List Spec))
  integrate_batch tokens log_id limit guard_window max_root_duration t =
      let (t₁, start) = s.now t in
      let (t₂, result) =
        read_write_transaction s.transactions
          (integrate_transaction limit (start -ℤ guard_window) max_root_duration) t₁ in
      (t₂, replenish tokens log_id result)

  unfoldable pub sign_transaction : Action T Error (Unit {0})
  sign_transaction = do
    current ← s.latest_signed_log_root
    mt ← init_merkle_tree_from_storage hasher s current
    time ← read_clock hasher s
    root ←
        sign_and_store
          (new_log_root mt time current.log_id (int64 (current.tree_revision +ℤ pos 1)))
    return tt

  unfoldable pub sign_root : Action T Error (Unit {0})
  sign_root = read_write_transaction s.transactions sign_transaction
