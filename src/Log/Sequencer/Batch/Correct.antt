-- ===== src/Log/Sequencer/Batch/Correct.antt =====
-- log/sequencer.go: the root that a batch of leaves leads to.
use trillian.Prelude.{
  ℕ, suc, ◌+◌, ◌^◌, ◌<◌, ◌≡◌, refl, sym, ap, subst, ◌∙◌, List, [], ◌∷◌, ◌++◌, Bytes, ok, Option,
  none, some, ◌||◌, length, arith, ◌⊎◌, inl, inr, if◌then◌else◌,
}
use trillian.Prelude.Int.{ℤ, pos, int64, ◌+ℤ◌, ◌-ℤ◌, eqb_ℤ, ltb_ℤ, eqb_ℤ-eq}
use trillian.Merkle.Hashers.{LogHasher}
use trillian.Merkle.Tree.{mth}
use trillian.Merkle.Compact.{CompactMerkleTree, current_root}
use trillian.Merkle.Compact.Correct.{IsTree}
use trillian.Log.Tx.{Action, ◌>>=◌, return, fail, lift}
use trillian.Log.Tx.Returned.{
  Gives, Gives-after, Gives-then, Gives-any, Gives-return, Gives-fail, Gives-check, Gives-if,
  Gives-weaken, value,
}
use trillian.Log.Sequencer.{
  NodeError, Error, tree_needs_init, wrong_write_revision, signing_failed, LogLeaf, SignedLogRoot,
  Storage, NodeMap, or_error, assign_indices, build_nodes_from_node_map, read_clock,
  init_merkle_tree_from_storage, update_compact_tree,
}
use trillian.Log.Sequencer.Grown.{Result, >>=-eq-ok, leaf_hashes, Grown, update_compact_tree-Grown}
use trillian.Log.Sequencer.Batch.{
  fetch, new_log_root, sign_and_store, integrate_leaves, batch_or_nothing, if_initialised,
  integrate_transaction,
}

leaf_hashes-assign_indices :
    (start : ℕ) (leaves : List LogLeaf)
    → leaf_hashes (assign_indices start leaves) ≡ leaf_hashes leaves
unfolding leaf_hashes assign_indices
leaf_hashes-assign_indices start [] = refl
leaf_hashes-assign_indices start (leaf ∷ leaves) =
    ap (λ (xs : List Bytes). leaf.merkle_leaf_hash ∷ xs)
      (leaf_hashes-assign_indices (suc start) leaves)

pub length-assign_indices :
    (start : ℕ) (leaves : List LogLeaf) → length (assign_indices start leaves) ≡ length leaves
unfolding assign_indices
length-assign_indices start [] = refl
length-assign_indices start (leaf ∷ leaves) = ap suc (length-assign_indices (suc start) leaves)

length-leaf_hashes : (leaves : List LogLeaf) → length (leaf_hashes leaves) ≡ length leaves
unfolding leaf_hashes
length-leaf_hashes [] = refl
length-leaf_hashes (leaf ∷ leaves) = ap suc (length-leaf_hashes leaves)

no_leaves : (start : ℕ) (leaves : List LogLeaf) → assign_indices start leaves ≡ [] → leaves ≡ []
unfolding assign_indices
no_leaves start [] h = refl
no_leaves start (leaf ∷ leaves) h = absurd (cc)

module _ {T : Type 0} (hasher : LogHasher NodeError) (s : Storage T) where
  -- The root after `current` whose tree has the leaf hashes `l`.
  pub record Next (current r : SignedLogRoot) (l : List Bytes) : Type 0 where
    pub sized : r.tree_size ≡ length l
    pub rooted : r.root_hash ≡ some (mth hasher.hash_children hasher.empty_root l)
    pub revised : r.tree_revision ≡ int64 (current.tree_revision +ℤ pos 1)
    pub same_log : r.log_id ≡ current.log_id
    pub signed : s.sign_log_root (record r { signature = [] }) ≡ some r.signature

  -- The compact tree that is rebuilt for a root, whenever that succeeds, is the one of `l`.
  abbrev pub Rebuilds : SignedLogRoot → List Bytes → Type 0
  Rebuilds current l =
      (t : T) (c : CompactMerkleTree)
      → Result (init_merkle_tree_from_storage hasher s current t) c
      → IsTree hasher c l

  signature_of :
      (root : SignedLogRoot) (sig : Bytes)
      → or_error (s.sign_log_root root) signing_failed ≡ ok sig
      → s.sign_log_root root ≡ some sig
  signature_of root sig h = from (s.sign_log_root root) h
    where
      from : (o : Option Bytes) → or_error o signing_failed ≡ ok sig → o ≡ some sig
      from none h = absurd (cc)
      from (some b) h = cc

  return-eq-ok : {A : Type 0} (t : T) (a b : A) → Result {E = Error} (return a t) b → a ≡ b
  return-eq-ok t a b h = cc

  sign_and_store-eq-ok :
      (root r : SignedLogRoot) (t : T)
      → Result (sign_and_store hasher s root t) r
      → (sig : Bytes) × (s.sign_log_root root ≡ some sig) × (r ≡ record root { signature = sig })
  unfolding sign_and_store
  sign_and_store-eq-ok root r t h =
      let signed = >>=-eq-ok (lift (or_error (s.sign_log_root root) signing_failed)) _ t r h in
      let signed_root : SignedLogRoot = record root { signature = signed.0 } in
      let stored = >>=-eq-ok (s.store_signed_log_root signed_root) _ t r signed.2 in
      (
        signed.0,
        signature_of root signed.0 signed.1,
        sym (return-eq-ok (s.store_signed_log_root signed_root t).0 signed_root r stored.2),
      )

  new_root-Next :
      (current r : SignedLogRoot) (mt : CompactMerkleTree) (time revision : ℤ) (l : List Bytes)
      (t : T)
      → IsTree hasher mt l
      → revision ≡ int64 (current.tree_revision +ℤ pos 1)
      → Result (sign_and_store hasher s (new_log_root hasher s mt time current.log_id revision) t) r
      → Next current r l
  unfolding current_root
  new_root-Next current r mt time revision l t tree revised h =
      let root = new_log_root hasher s mt time current.log_id revision in
      let out = sign_and_store-eq-ok root r t h in
      subst (λ (x : SignedLogRoot). Next current x l) (sym out.2)
        (record {
          sized = tree.sized;
          rooted = ap some tree.rooted;
          revised = revised;
          same_log = refl;
          signed = out.1;
        })

  new_root-Gives :
      (current : SignedLogRoot) (mt : CompactMerkleTree) (time revision : ℤ) (l : List Bytes)
      (t : T)
      → IsTree hasher mt l
      → revision ≡ int64 (current.tree_revision +ℤ pos 1)
      → Gives
          (λ (r : SignedLogRoot). Next current r l)
          (sign_and_store hasher s (new_log_root hasher s mt time current.log_id revision) t)
  new_root-Gives current mt time revision l t tree revised = record {
    holds = λ r. new_root-Next current r mt time revision l t tree revised;
  }

  update_compact_tree-Gives :
      (current : SignedLogRoot) (l : List Bytes) (leaves : List LogLeaf) (mt : CompactMerkleTree)
      (t : T)
      → IsTree hasher mt l
      → length l + length leaves < 2 ^ 63
      → Gives
          (λ (x : CompactMerkleTree × NodeMap × List LogLeaf). Grown hasher s l leaves x.0 x.2)
          (update_compact_tree hasher s mt [] leaves t)
  update_compact_tree-Gives current l leaves mt t tree small = record {
    holds = λ x.
        update_compact_tree-Grown hasher s mt l [] leaves t x.0 x.1 x.2 tree (omega (arith, small));
  }

  -- What a batch of leaves leads to: their number and the root of the longer tree.
  abbrev pub Integrated :
      SignedLogRoot → List Bytes → List LogLeaf → ℕ × Option SignedLogRoot → Type 0
  Integrated current l leaves out =
      (out.0 ≡ length leaves)
      × ((r : SignedLogRoot) × (out.1 ≡ some r) × Next current r (l ++ leaf_hashes leaves))

  integrate_leaves-Integrated :
      (current : SignedLogRoot) (l : List Bytes) (leaves : List LogLeaf) (t : T)
      → Rebuilds current l
      → length l + length leaves < 2 ^ 63
      → Gives (Integrated current l leaves) (integrate_leaves hasher s current leaves t)
  unfolding integrate_leaves
  integrate_leaves-Integrated current l leaves t rebuilds small =
      Gives-after (init_merkle_tree_from_storage hasher s current t) _
        (record { holds = rebuilds t })
        (λ mt t₁ tree.
          let version = s.write_revision t₁ in
          let expected = int64 (current.tree_revision +ℤ pos 1) in
          Gives-after ((if eqb_ℤ version expected then return tt else fail wrong_write_revision) t₁)
            _ (Gives-check (eqb_ℤ version expected) wrong_write_revision t₁)
            (λ u t₂ agrees.
              Gives-after (update_compact_tree hasher s mt [] leaves t₂) _
                (update_compact_tree-Gives current l leaves mt t₂ tree small)
                (λ grown t₃ stands.
                  Gives-after (s.update_sequenced_leaves grown.2 t₃) _ (Gives-any _)
                    (λ u t₄ sequenced.
                      Gives-after
                        (s.set_merkle_nodes (build_nodes_from_node_map grown.1 version) t₄) _
                        (Gives-any _)
                        (λ u t₅ written.
                          Gives-after (read_clock hasher s t₅) _ (Gives-any _) (λ time t₆ read.
                            Gives-after
                              (sign_and_store hasher s
                                (new_log_root hasher s grown.0 time current.log_id version) t₆)
                              _
                              (new_root-Gives current grown.0 time version (l ++ leaf_hashes leaves)
                                t₆ stands.0 (eqb_ℤ-eq version expected agrees))
                              (λ r t₇ next.
                                Gives-return (length leaves, some r) t₇
                                  (refl, (r, refl, next)))))))))

  -- A batch leads to no root if it is empty, and to the next root otherwise or if roots age.
  abbrev pub Outcomes :
      SignedLogRoot → List Bytes → List LogLeaf → ℕ × Option SignedLogRoot → Type 0
  Outcomes current l leaves out =
      ((leaves ≡ []) × (out.0 ≡ 0) × (out.1 ≡ none)) ⊎ Integrated current l leaves out

  batch_or_nothing-Outcomes :
      (current : SignedLogRoot) (l : List Bytes) (max_root_duration : ℤ) (leaves : List LogLeaf)
      (t : T)
      → Rebuilds current l
      → length l + length leaves < 2 ^ 63
      → Gives
          (Outcomes current l leaves)
          (batch_or_nothing hasher s current max_root_duration leaves t)
  unfolding batch_or_nothing
  batch_or_nothing-Outcomes current l max_root_duration [] t rebuilds small =
      Gives-after (read_clock hasher s t) _ (Gives-any _) (λ now_nanos t₁ read.
        Gives-if
          (eqb_ℤ max_root_duration (pos 0)
            || ltb_ℤ (int64 (now_nanos -ℤ current.timestamp_nanos)) max_root_duration)
          _ _ t₁ (Gives-return (0, none) t₁ (inl (refl, refl, refl)))
          (Gives-weaken _ (integrate_leaves-Integrated current l [] t₁ rebuilds small)
            (λ out i. inr i)))
  batch_or_nothing-Outcomes current l max_root_duration (leaf ∷ leaves) t rebuilds small =
      Gives-weaken _ (integrate_leaves-Integrated current l (leaf ∷ leaves) t rebuilds small)
        (λ out i. inr i)

  Integrated-assign_indices :
      (current : SignedLogRoot) (l : List Bytes) (start : ℕ) (leaves : List LogLeaf)
      (out : ℕ × Option SignedLogRoot)
      → Outcomes current l (assign_indices start leaves) out
      → Outcomes current l leaves out
  Integrated-assign_indices current l start leaves out (inl (none_left, zero_leaves, no_root)) =
      inl (no_leaves start leaves none_left, zero_leaves, no_root)
  Integrated-assign_indices current l start leaves out (inr (counted, (r, is_root, next))) = inr (
    counted ∙ length-assign_indices start leaves,
    (
      r,
      is_root,
      subst (λ (hs : List Bytes). Next current r (l ++ hs))
          (leaf_hashes-assign_indices start leaves) next,
    ),
  )

  fetched :
      (start limit : ℕ) (cutoff : ℤ) (leaves : List LogLeaf) (t : T)
      → (s.dequeue_leaves limit cutoff t).1 ≡ ok leaves
      → Gives
          (λ (ls : List LogLeaf). ls ≡ assign_indices start leaves)
          (fetch hasher s start limit cutoff t)
  unfolding fetch
  fetched start limit cutoff leaves t dequeued =
      Gives-after (s.dequeue_leaves limit cutoff t) _ (Gives-any _) (λ ls t₁ got.
        Gives-return (assign_indices start ls) t₁
          (ap (assign_indices start) (value ls leaves (sym got ∙ dequeued))))

  initialised :
      {Q : ℕ × Option SignedLogRoot → Type 0} (h : Option Bytes)
      (rest : Action T Error (ℕ × Option SignedLogRoot)) (t : T)
      → Gives Q (rest t)
      → Gives Q (if_initialised hasher s h rest t)
  initialised none rest t g = Gives-fail tree_needs_init t
  initialised (some h) rest t g = g

  transaction-Outcomes :
      (current : SignedLogRoot) (l : List Bytes) (leaves : List LogLeaf) (limit : ℕ)
      (cutoff max_root_duration : ℤ) (t : T)
      → (s.latest_signed_log_root t).1 ≡ ok current
      → (s.dequeue_leaves limit cutoff (s.latest_signed_log_root t).0).1 ≡ ok leaves
      → Rebuilds current l
      → length l + length leaves < 2 ^ 63
      → Gives
          (Outcomes current l leaves)
          (integrate_transaction hasher s limit cutoff max_root_duration t)
  unfolding integrate_transaction
  transaction-Outcomes current l leaves limit cutoff max_root_duration t latest dequeued rebuilds
        small =
      let t₁ = (s.latest_signed_log_root t).0 in
      let from : Gives (Outcomes current l leaves) (
          if_initialised hasher s current.root_hash
            (fetch hasher s current.tree_size limit cutoff >>= λ ls.
              batch_or_nothing hasher s current max_root_duration ls)
            t₁) =
        initialised current.root_hash _ t₁ (
          Gives-after (fetch hasher s current.tree_size limit cutoff t₁) _
            (fetched current.tree_size limit cutoff leaves t₁ dequeued)
            (λ ls t₂ are.
              Gives-weaken _
                (batch_or_nothing-Outcomes current l max_root_duration ls t₂ rebuilds
                  (rw are (omega (arith, length-assign_indices current.tree_size leaves))))
                (λ out o.
                  Integrated-assign_indices current l current.tree_size leaves out
                    (subst (λ (x : List LogLeaf). Outcomes current l x out) are o)))) in
      Gives-then current (s.latest_signed_log_root t) _ latest from

  -- If IntegrateBatch's transaction returns, where the latest root is `current` and its tree, whenever
  -- it can be rebuilt from storage, is the one of the leaf hashes `l`, and there are fewer than 2 ^ 63
  -- leaves in all, then either no leaves were
  -- dequeued and there is no new root, or the leaves are counted and the new root is that of the
  -- longer list: its size, its tree hash, the next revision, the same log, and a signature of itself.
  pub integrate_transaction_sound :
      (current : SignedLogRoot) (l : List Bytes) (leaves : List LogLeaf) (limit : ℕ)
      (cutoff max_root_duration : ℤ) (t : T) (out : ℕ × Option SignedLogRoot)
      → (s.latest_signed_log_root t).1 ≡ ok current
      → (s.dequeue_leaves limit cutoff (s.latest_signed_log_root t).0).1 ≡ ok leaves
      → Rebuilds current l
      → length l + length leaves < 2 ^ 63
      → (integrate_transaction hasher s limit cutoff max_root_duration t).1 ≡ ok out
      → Outcomes current l leaves out
  integrate_transaction_sound current l leaves limit cutoff max_root_duration t out latest dequeued
        rebuilds small returned =
      (transaction-Outcomes current l leaves limit cutoff max_root_duration t latest dequeued
          rebuilds small).holds
        out returned
