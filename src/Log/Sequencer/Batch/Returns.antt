-- ===== src/Log/Sequencer/Batch/Returns.antt =====
-- log/sequencer.go: the transaction of IntegrateBatch returns where storage, clock and signer do.
use trillian.Prelude.{
  ℕ, ◌+◌, ◌^◌, ◌<◌, ◌≡◌, refl, sym, ap, subst, ◌∙◌, List, [], ◌∷◌, Bytes, Outcome, ok, err, panic,
  out_of_fuel, Option, none, some, true, ◌||◌, length, arith,
}
use trillian.Prelude.Int.{ℤ, pos, negsuc, int64, ◌+ℤ◌, ◌-ℤ◌, eqb_ℤ, ltb_ℤ}
use trillian.Merkle.Hashers.{LogHasher}
use trillian.Merkle.Compact.{CompactMerkleTree}
use trillian.Merkle.Compact.Correct.{IsTree}
use trillian.Storage.NodeId.{Node}
use trillian.Log.Tx.{Action, ◌>>=◌, after, return, lift}
use trillian.Log.Tx.Returned.{value}
use trillian.Log.Tx.Returns.{Returns, Returns-after, Returns-then, Returns-check, Returns-if}
use trillian.Log.Sequencer.{
  NodeError, Error, wrong_write_revision, signing_failed, Timestamp, LogLeaf, SignedLogRoot,
  Storage, or_error, assign_indices, build_nodes_from_node_map, init_merkle_tree_from_storage,
  update_compact_tree,
}
use trillian.Log.Sequencer.Grown.{Numbered}
use trillian.Log.Sequencer.Batch.{
  fetch, new_log_root, sign_and_store, integrate_leaves, batch_or_nothing, if_initialised,
  integrate_transaction,
}
use trillian.Log.Sequencer.Batch.Correct.{
  length-assign_indices, Rebuilds, Outcomes, integrate_transaction_sound,
}
use trillian.Log.Sequencer.Updates.{
  ValidTimes, ValidTimes-assign_indices, Numbered-assign_indices, clock-Returns,
  update_compact_tree-Returns,
}

eqb_ℤ_same : (i : ℤ) → eqb_ℤ i i ≡ true
eqb_ℤ_same (pos n) = ground arith
eqb_ℤ_same (negsuc n) = ground arith

module _ {T : Type 0} (hasher : LogHasher NodeError) (s : Storage T) where
  -- The hypotheses on the clock, the conversions of times, the signer and the writes.
  module _ (times : (time : ℤ) → (ts : Timestamp) × (s.timestamp_proto time ≡ some ts))
      (signs : (root : SignedLogRoot) → (sig : Bytes) × (s.sign_log_root root ≡ some sig))
      (updates : (leaves : List LogLeaf) (t : T) → Returns (s.update_sequenced_leaves leaves t))
      (sets : (nodes : List Node) (t : T) → Returns (s.set_merkle_nodes nodes t))
      (stores : (root : SignedLogRoot) (t : T) → Returns (s.store_signed_log_root root t)) where
    sign_and_store-Returns :
        (root : SignedLogRoot) (t : T) → Returns (sign_and_store hasher s root t)
    unfolding sign_and_store
    sign_and_store-Returns root t =
        let (sig, is) = signs root in
        let signed : or_error (s.sign_log_root root) signing_failed ≡ ok sig = rw is refl in
        Returns-after (lift (or_error (s.sign_log_root root) signing_failed) t) _ (sig, signed)
          (λ sig' t₁ h.
            Returns-after _ _ (stores (record root { signature = sig' }) t₁)
              (λ u t₂ stored. (record root { signature = sig' }, refl)))

    integrate_leaves-Returns :
        (current : SignedLogRoot) (l : List Bytes) (leaves : List LogLeaf) (t : T)
        → ((t : T)
            → (mt : CompactMerkleTree) × ((init_merkle_tree_from_storage hasher s current t).1
                ≡ ok mt)
              × IsTree hasher mt l)
        → ((t : T) → s.write_revision t ≡ int64 (current.tree_revision +ℤ pos 1))
        → length l + length leaves < 2 ^ 63
        → ValidTimes hasher s leaves
        → Numbered (length l) leaves
        → Returns (integrate_leaves hasher s current leaves t)
    unfolding integrate_leaves
    integrate_leaves-Returns current l leaves t rebuilds revision small valid index =
        Returns-after (init_merkle_tree_from_storage hasher s current t) _
          ((rebuilds t).0, (rebuilds t).1)
          (λ mt t₁ is.
            let tree : IsTree hasher mt l =
              subst (λ (c : CompactMerkleTree). IsTree hasher c l)
                (value (rebuilds t).0 mt (sym (rebuilds t).1 ∙ is)) (rebuilds t).2 in
            let version = s.write_revision t₁ in
            Returns-after _ _
              (Returns-check (eqb_ℤ version (int64 (current.tree_revision +ℤ pos 1)))
                wrong_write_revision t₁
                (rw (revision t₁) (eqb_ℤ_same (int64 (current.tree_revision +ℤ pos 1)))))
              (λ u t₂ checked.
                Returns-after (update_compact_tree hasher s mt [] leaves t₂) _
                  (update_compact_tree-Returns hasher s times mt l [] leaves t₂ tree small valid
                    index)
                  (λ grown t₃ updated. Returns-after _ _ (updates grown.2 t₃) (λ u t₄ sequenced.
                    Returns-after _ _ (sets (build_nodes_from_node_map grown.1 version) t₄)
                      (λ u t₅ written.
                        Returns-after _ _ (clock-Returns hasher s times t₅) (λ time t₆ read.
                          Returns-after _ _
                            (sign_and_store-Returns
                              (new_log_root hasher s grown.0 time current.log_id version) t₆)
                            (λ r t₇ stored. ((length leaves, some r), refl))))))))

    batch_or_nothing-Returns :
        (current : SignedLogRoot) (l : List Bytes) (max_root_duration : ℤ) (leaves : List LogLeaf)
        (t : T)
        → ((t : T)
            → (mt : CompactMerkleTree) × ((init_merkle_tree_from_storage hasher s current t).1
                ≡ ok mt)
              × IsTree hasher mt l)
        → ((t : T) → s.write_revision t ≡ int64 (current.tree_revision +ℤ pos 1))
        → length l + length leaves < 2 ^ 63
        → ValidTimes hasher s leaves
        → Numbered (length l) leaves
        → Returns (batch_or_nothing hasher s current max_root_duration leaves t)
    unfolding batch_or_nothing
    batch_or_nothing-Returns current l max_root_duration [] t rebuilds revision small valid index =
        Returns-after _ _ (clock-Returns hasher s times t) (λ now_nanos t₁ read.
          Returns-if
            (eqb_ℤ max_root_duration (pos 0)
              || ltb_ℤ (int64 (now_nanos -ℤ current.timestamp_nanos)) max_root_duration)
            (return (0, none)) (integrate_leaves hasher s current []) t₁ ((0, none), refl)
            (integrate_leaves-Returns current l [] t₁ rebuilds revision small valid index))
    batch_or_nothing-Returns current l max_root_duration (leaf ∷ leaves) t rebuilds revision small
          valid index =
        integrate_leaves-Returns current l (leaf ∷ leaves) t rebuilds revision small valid index

    after_ok :
        {A B : Type 0} (p : T × Outcome Error A) (a : A) (g : A → B)
        → p.1 ≡ ok a
        → (after p (λ x. return (g x))).1 ≡ ok (g a)
    after_ok (t, ok b) a g is = ap (λ x. ok (g x)) (value b a is)
    after_ok (t, err e) a g is = absurd (cc)
    after_ok (t, panic) a g is = absurd (cc)
    after_ok (t, out_of_fuel) a g is = absurd (cc)

    fetched :
        (start limit : ℕ) (cutoff : ℤ) (leaves : List LogLeaf) (t : T)
        → (s.dequeue_leaves limit cutoff t).1 ≡ ok leaves
        → (fetch hasher s start limit cutoff t).1 ≡ ok (assign_indices start leaves)
    unfolding fetch
    fetched start limit cutoff leaves t dequeued =
        after_ok (s.dequeue_leaves limit cutoff t) leaves (assign_indices start) dequeued

    if_initialised-Returns :
        {A : Type 0} (root_hash : Option Bytes) (h : Bytes) (rest : Action T Error A) (t : T)
        → root_hash ≡ some h
        → Returns (rest t)
        → Returns (if_initialised hasher s root_hash rest t)
    if_initialised-Returns none h rest t is r = absurd (cc)
    if_initialised-Returns (some x) h rest t is r = r

    transaction-Returns :
        (current : SignedLogRoot) (h : Bytes) (l : List Bytes) (leaves : List LogLeaf) (limit : ℕ)
        (cutoff max_root_duration : ℤ) (t : T)
        → (s.latest_signed_log_root t).1 ≡ ok current
        → current.root_hash ≡ some h
        → current.tree_size ≡ length l
        → (s.dequeue_leaves limit cutoff (s.latest_signed_log_root t).0).1 ≡ ok leaves
        → ((t : T)
            → (mt : CompactMerkleTree) × ((init_merkle_tree_from_storage hasher s current t).1
                ≡ ok mt)
              × IsTree hasher mt l)
        → ((t : T) → s.write_revision t ≡ int64 (current.tree_revision +ℤ pos 1))
        → length l + length leaves < 2 ^ 63
        → ValidTimes hasher s leaves
        → Returns (integrate_transaction hasher s limit cutoff max_root_duration t)
    unfolding integrate_transaction
    transaction-Returns current h l leaves limit cutoff max_root_duration t latest initialised sized
          dequeued rebuilds revision small valid =
        let t₁ = (s.latest_signed_log_root t).0 in
        let numbered : Numbered (length l) (assign_indices current.tree_size leaves) =
          subst (λ (n : ℕ). Numbered n (assign_indices current.tree_size leaves)) sized
            (Numbered-assign_indices hasher s current.tree_size leaves) in
        let counted = length-assign_indices current.tree_size leaves in
        Returns-then current (s.latest_signed_log_root t) _ latest (
          if_initialised-Returns current.root_hash h
            (fetch hasher s current.tree_size limit cutoff >>= λ ls.
              batch_or_nothing hasher s current max_root_duration ls)
            t₁ initialised
            (Returns-then (assign_indices current.tree_size leaves)
              (fetch hasher s current.tree_size limit cutoff t₁) _
              (fetched current.tree_size limit cutoff leaves t₁ dequeued)
              (batch_or_nothing-Returns current l max_root_duration
                (assign_indices current.tree_size leaves)
                (fetch hasher s current.tree_size limit cutoff t₁).0 rebuilds revision
                (omega (arith, small, counted))
                (ValidTimes-assign_indices hasher s current.tree_size leaves valid) numbered)))

    -- If times convert to timestamps, the signer signs every root, and the writes of leaves, nodes and
    -- roots succeed; if the latest root is `current`, with a root hash and the size of the leaf hashes
    -- `l`, whose compact tree can be rebuilt in every state and is the one of `l`; if the write revision
    -- is the next one; and if the leaves that are dequeued have no queue times or valid ones and are
    -- fewer than 2 ^ 63 together with `l`; then the transaction of IntegrateBatch returns, and what it
    -- returns is no root for an empty batch, or the number of the leaves and the next root, that of the
    -- longer list.
    pub integrate_transaction-Returns :
        (current : SignedLogRoot) (h : Bytes) (l : List Bytes) (leaves : List LogLeaf) (limit : ℕ)
        (cutoff max_root_duration : ℤ) (t : T)
        → (s.latest_signed_log_root t).1 ≡ ok current
        → current.root_hash ≡ some h
        → current.tree_size ≡ length l
        → (s.dequeue_leaves limit cutoff (s.latest_signed_log_root t).0).1 ≡ ok leaves
        → ((t : T)
            → (mt : CompactMerkleTree) × ((init_merkle_tree_from_storage hasher s current t).1
                ≡ ok mt)
              × IsTree hasher mt l)
        → ((t : T) → s.write_revision t ≡ int64 (current.tree_revision +ℤ pos 1))
        → length l + length leaves < 2 ^ 63
        → ValidTimes hasher s leaves
        → (out : ℕ × Option SignedLogRoot) × ((integrate_transaction hasher s limit cutoff
              max_root_duration t).1
            ≡ ok out)
          × Outcomes hasher s current l leaves out
    integrate_transaction-Returns current h l leaves limit cutoff max_root_duration t latest
          initialised sized dequeued rebuilds revision small valid =
        let rebuilt : Rebuilds hasher s current l = λ at c is.
          subst (λ (x : CompactMerkleTree). IsTree hasher x l)
            (value (rebuilds at).0 c (sym (rebuilds at).1 ∙ is)) (rebuilds at).2 in
        let (out, is) =
          transaction-Returns current h l leaves limit cutoff max_root_duration t latest initialised
            sized dequeued rebuilds revision small valid in
        (
          out,
          is,
          integrate_transaction_sound hasher s current l leaves limit cutoff max_root_duration t out
              latest dequeued rebuilt small is,
        )
