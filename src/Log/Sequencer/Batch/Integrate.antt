-- ===== src/Log/Sequencer/Batch/Integrate.antt =====
-- log/sequencer.go: what IntegrateBatch returns and gives back to the quotas.
use trillian.Prelude.{ℕ, ◌≡◌, List, [], ◌∷◌, Bytes, ok, Option, none, some, length}
use trillian.Prelude.Int.{ℤ}
use trillian.Merkle.Hashers.{LogHasher}
use trillian.Log.Sequencer.{NodeError, LogLeaf, SignedLogRoot, Storage}
use trillian.Log.Sequencer.Batch.{Spec, replenished_specs}
use trillian.Log.Sequencer.Batch.Correct.{Outcomes}

module _ {T : Type 0} (hasher : LogHasher NodeError) (s : Storage T) where
  -- What IntegrateBatch gives back for a batch: nothing if it is empty.
  abbrev pub Replenished : (ℕ → ℕ) → ℤ → List LogLeaf → Option (ℕ × List Spec) → Type 0
  Replenished tokens log_id [] put = put ≡ none
  Replenished tokens log_id (leaf ∷ leaves) put =
      put ≡ some (tokens (length (leaf ∷ leaves)), replenished_specs log_id)

  -- What IntegrateBatch read: the latest root, and the leaves that were queued before the cutoff.
  pub record Read (limit : ℕ) (cutoff : ℤ) (t : T) (current : SignedLogRoot) (leaves : List LogLeaf)
      : Type 0 where
    pub latest : (s.latest_signed_log_root t).1 ≡ ok current
    pub dequeued : (s.dequeue_leaves limit cutoff (s.latest_signed_log_root t).0).1 ≡ ok leaves

  -- What a batch comes to that IntegrateBatch has integrated: the number of the leaves that were
  -- dequeued, the root that they lead to, and what is given back to the quotas.
  pub record Batch (history : SignedLogRoot → List Bytes) (tokens : ℕ → ℕ) (log_id : ℤ) (limit : ℕ)
      (cutoff : ℤ) (n : ℕ) (put : Option (ℕ × List Spec)) : Type 0 where
    pub at : T
    pub current : SignedLogRoot
    pub leaves : List LogLeaf
    pub root : Option SignedLogRoot
    pub read : Read limit cutoff at current leaves
    pub integrated : Outcomes hasher s current (history current) leaves (n, root)
    pub all_counted : n ≡ length leaves
    pub put_back : Replenished tokens log_id leaves put
