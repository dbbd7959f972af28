-- ===== src/Log/Sequencer/Updates.antt =====
-- log/sequencer.go: updateCompactTree returns where the conversion of times does.
use trillian.Prelude.{
  ℕ, suc, ◌+◌, ◌^◌, ◌<◌, ◌≡◌, refl, sym, ap, subst, ◌∙◌, List, [], ◌∷◌, ◌++◌, Bytes, ok, Option,
  none, some, true, false, not, ◌&&◌, ◌⊎◌, inl, inr, length, length-append, arith,
}
use trillian.Prelude.Int.{ℤ, pos, eqb_ℤ}
use trillian.Merkle.Hashers.{LogHasher}
use trillian.Merkle.Compact.{CompactMerkleTree, add_leaf_hash}
use trillian.Merkle.Compact.Correct.{IsTree, add_leaf_hash-IsTree}
use trillian.Log.Tx.{lift}
use trillian.Log.Tx.Returned.{value}
use trillian.Log.Tx.Returns.{Returns, Returns-after, Returns-check}
use trillian.Log.Sequencer.{
  NodeError, invalid_leaf_index, Timestamp, LogLeaf, Storage, NodeMap, assign_indices, record_node,
  put_node, tree_result, read_clock, stamp, put_leaf_node, integrate_leaf, update_compact_tree,
}
use trillian.Log.Sequencer.Nodes.{record_node-Quiet, tree_node_id-within}
use trillian.Log.Sequencer.Grown.{Numbered, integrate_leaf-Integrated}

eqb_ℤ_pos : (i : ℤ) (n : ℕ) → i ≡ pos n → eqb_ℤ i (pos n) ≡ true
eqb_ℤ_pos i n same = rw same (ground arith)

module _ {T : Type 0} (hasher : LogHasher NodeError) (s : Storage T) where
  -- The time at which a leaf was queued, if there is one, is valid.
  abbrev pub ValidTime : LogLeaf → Type 0
  ValidTime leaf =
      (leaf.queue_timestamp ≡ none)
      ⊎ ((queued : Timestamp) × (leaf.queue_timestamp ≡ some queued)
          × (s.valid_timestamp queued ≡ true))

  abbrev pub ValidTimes : List LogLeaf → Type 0
  ValidTimes [] = Unit {0}
  ValidTimes (leaf ∷ leaves) = ValidTime leaf × ValidTimes leaves

  pub ValidTimes-assign_indices :
      (start : ℕ) (leaves : List LogLeaf)
      → ValidTimes leaves
      → ValidTimes (assign_indices start leaves)
  unfolding assign_indices
  ValidTimes-assign_indices start [] valid = tt
  ValidTimes-assign_indices start (leaf ∷ leaves) (valid, more) =
      (valid, ValidTimes-assign_indices (suc start) leaves more)

  pub Numbered-assign_indices :
      (start : ℕ) (leaves : List LogLeaf) → Numbered start (assign_indices start leaves)
  unfolding assign_indices
  Numbered-assign_indices start [] = tt
  Numbered-assign_indices start (leaf ∷ leaves) = (refl, Numbered-assign_indices (suc start) leaves)

  stamp_returns :
      (leaf : LogLeaf) (time : ℤ)
      → ((time : ℤ) → (ts : Timestamp) × (s.timestamp_proto time ≡ some ts))
      → ValidTime leaf
      → (leaf' : LogLeaf) × (stamp hasher s leaf time ≡ ok leaf')
  unfolding stamp
  stamp_returns leaf time times (inl never) =
      let (ts, is) = times time in
      (
        record leaf { queue_timestamp = none; integrate_timestamp = some ts },
        rw (stamp, is, never)
            (ap
              (λ (q : Option Timestamp).
                ok (record leaf { queue_timestamp = q; integrate_timestamp = some ts }))
              never),
      )
  stamp_returns leaf time times (inr (queued, at, valid)) =
      let (ts, is) = times time in
      let passes : (not (eqb_ℤ queued.seconds (pos 0)) && not (s.valid_timestamp queued)) ≡ false =
        ground arith in
      (
        record leaf { queue_timestamp = some queued; integrate_timestamp = some ts },
        rw (stamp, is, at, passes)
            (ap
              (λ (q : Option Timestamp).
                ok (record leaf { queue_timestamp = q; integrate_timestamp = some ts }))
              at),
      )

  put_leaf_node_returns :
      (n : ℕ) (hash : Bytes) (node_map : NodeMap)
      → n < 2 ^ 63
      → (m : NodeMap) × (put_leaf_node hasher s n hash node_map ≡ ok m)
  unfolding put_leaf_node
  put_leaf_node_returns n hash node_map small =
      let (id, is) = tree_node_id-within 0 n (omega arith) (omega arith) in
      (
        put_node (record { id = id; hash = hash; revision = pos 0 }) node_map,
        rw (put_leaf_node, is) refl,
      )

  -- Every time converts to a timestamp.
  module _ (times : (time : ℤ) → (ts : Timestamp) × (s.timestamp_proto time ≡ some ts)) where
    pub clock-Returns : (t : T) → Returns (read_clock hasher s t)
    unfolding read_clock
    clock-Returns t = ((s.now t).1, refl)

    integrate_leaf-Returns :
        (mt : CompactMerkleTree) (l : List Bytes) (node_map : NodeMap) (leaf : LogLeaf) (t : T)
        → IsTree hasher mt l
        → length l < 2 ^ 63
        → ValidTime leaf
        → leaf.leaf_index ≡ pos (length l)
        → Returns (integrate_leaf hasher s mt node_map leaf t)
    unfolding integrate_leaf
    integrate_leaf-Returns mt l node_map leaf t tree small valid index =
        let out = add_leaf_hash hasher record_node mt leaf.merkle_leaf_hash node_map in
        let added =
          add_leaf_hash-IsTree hasher record_node (2 ^ 63) record_node-Quiet mt l
            leaf.merkle_leaf_hash node_map tree small in
        let numbered : tree_result out.2 ≡ ok (length l) = rw (added.1) refl in
        Returns-after (lift (tree_result out.2) t) _ (length l, numbered)
          (λ n t₁ is.
            let same : n ≡ length l = value n (length l) (sym is ∙ numbered) in
            Returns-after _ _
              (Returns-check (eqb_ℤ leaf.leaf_index (pos n)) invalid_leaf_index t₁
                (eqb_ℤ_pos leaf.leaf_index n (index ∙ ap pos (sym same))))
              (λ u t₂ checked.
                Returns-after (read_clock hasher s t₂) _ (clock-Returns t₂) (λ time t₃ read.
                  Returns-after (lift (stamp hasher s leaf time) t₃) _
                    (stamp_returns leaf time times valid)
                    (λ leaf' t₄ stamped.
                      Returns-after (lift (put_leaf_node hasher s n leaf.merkle_leaf_hash out.1) t₄)
                        _
                        (put_leaf_node_returns n leaf.merkle_leaf_hash out.1 (omega (arith, same)))
                        (λ node_map' t₅ put. ((out.0, node_map', leaf'), refl))))))

    pub update_compact_tree-Returns :
        (mt : CompactMerkleTree) (l : List Bytes) (node_map : NodeMap) (leaves : List LogLeaf)
        (t : T)
        → IsTree hasher mt l
        → length l + length leaves < 2 ^ 63
        → ValidTimes leaves
        → Numbered (length l) leaves
        → Returns (update_compact_tree hasher s mt node_map leaves t)
    unfolding update_compact_tree
    update_compact_tree-Returns mt l node_map [] t tree small valid index =
        ((mt, node_map, []), refl)
    update_compact_tree-Returns mt l node_map (leaf ∷ leaves) t tree small (valid, valid_more)
          (index, index_more) =
        Returns-after (integrate_leaf hasher s mt node_map leaf t) _
          (integrate_leaf-Returns mt l node_map leaf t tree (omega arith) valid index)
          (λ one t₁ is.
            let (mt', node_map', leaf') = one in
            let grown =
              integrate_leaf-Integrated hasher s mt l node_map leaf t mt' node_map' leaf' tree
                (omega arith) is in
            let longer : length (l ++ leaf.merkle_leaf_hash ∷ []) ≡ suc (length l) =
              omega (arith, length-append l (leaf.merkle_leaf_hash ∷ [])) in
            Returns-after (update_compact_tree hasher s mt' node_map' leaves t₁) _
              (update_compact_tree-Returns mt' (l ++ leaf.merkle_leaf_hash ∷ []) node_map' leaves t₁
                grown.0 (omega (arith, longer)) valid_more
                (subst (λ (n : ℕ). Numbered n leaves) (sym longer) index_more))
              (λ rest t₂ more. ((rest.0, rest.1, leaf' ∷ rest.2), refl)))
