-- ===== src/Merkle/Compact/Correct.antt =====
-- The compact tree against RFC 6962: what AddLeafHash and AddLeaf make of a tree, for a callback
-- that does not fail at the nodes of a tree of `limit` leaves.
use trillian.Prelude.{
  ℕ, suc, ◌+◌, ◌<◌, ◌≤◌, ◌≡◌, refl, sym, ap, List, [], ◌∷◌, ◌++◌, Bytes, length, length-append,
  append-nil, append_assoc, arith, ◌==◌, true, false, ok, dec_lt,
}
use trillian.Merkle.Hashers.{LogHasher}
use trillian.Merkle.Tree.{mth}
use trillian.Merkle.Tree.Split.{mth-eq-root, mth_empty}
use trillian.Merkle.Compact.{
  CompactMerkleTree, SetNodeFunc, new_compact_merkle_tree, current_root, add_nodes, add_leaf_hash,
  add_leaf, add_loop,
}
use trillian.Merkle.Compact.Repr.{Repr}
use trillian.Merkle.Compact.Root.{Quiet, recalculate_root-eq-root}
use trillian.Merkle.Compact.Add.{Added, add_loop-Added, lone-Repr}

-- The compact tree of the leaf hashes `l`.
pub record IsTree {E : Type 0} (hasher : LogHasher E) (c : CompactMerkleTree) (l : List Bytes)
    : Type 0 where
  pub sized : c.size ≡ length l
  pub represented : Repr hasher.hash_children c.nodes l
  pub rooted : c.root ≡ mth hasher.hash_children hasher.empty_root l

-- A new tree is the tree of no leaves.
pub new_compact_merkle_tree-IsTree :
    {E : Type 0} (hasher : LogHasher E) → IsTree hasher (new_compact_merkle_tree hasher) []
unfolding new_compact_merkle_tree
new_compact_merkle_tree-IsTree hasher = record {
  sized = refl;
  represented = refl;
  rooted = sym (mth_empty hasher.hash_children hasher.empty_root);
}

empty_nodes :
    (hc : Bytes → Bytes → Bytes) (ns l : List Bytes) → Repr hc ns l → length l ≡ 0 → ns ≡ []
empty_nodes hc [] l r e = refl
empty_nodes hc (x ∷ ns) l r e = absurd (omega (arith, r.0))

module _ {S E : Type 0} (hasher : LogHasher E) (f : SetNodeFunc S E) (limit : ℕ)
    (quiet : Quiet limit f) where
  add_nodes_empty :
      (c : CompactMerkleTree) (h : Bytes) (s : S)
      → c.size ≡ 0
      → c.size < limit
      → (s' : S) × (add_nodes hasher f c h s ≡ (c.nodes ++ h ∷ [], s', ok c.size))
  unfolding add_nodes
  add_nodes_empty c h s e w =
      let none_yet : (c.size == 0) ≡ true = ground arith in
      (
        (f 0 c.size h s).0,
        rw (quiet 0 c.size h s (omega arith) (omega arith), add_nodes) (rw none_yet),
      )

  add_nodes_several :
      (c : CompactMerkleTree) (h : Bytes) (s : S)
      → 0 < c.size
      → c.size < limit
      → (s' : S) × (add_nodes hasher f c h s
          ≡ add_loop hasher f (suc c.size) c.size c.nodes c.size 0 c.size h s')
  unfolding add_nodes
  add_nodes_several c h s p w =
      let some_yet : (c.size == 0) ≡ false = ground arith in
      (
        (f 0 c.size h s).0,
        rw (quiet 0 c.size h s (omega arith) (omega arith), add_nodes) (rw some_yet),
      )

  add_nodes-Added :
      (c : CompactMerkleTree) (l : List Bytes) (h : Bytes) (s : S)
      → c.size ≡ length l
      → Repr hasher.hash_children c.nodes l
      → c.size < limit
      → Added hasher f limit quiet (length l) [] l h (add_nodes hasher f c h s)
  add_nodes-Added c l h s e r w = elim (dec_lt 0 (length l)) [
    | no empty ↦
        let out = add_nodes_empty c h s (omega arith) w in
        let no_nodes : c.nodes ≡ [] = empty_nodes hasher.hash_children c.nodes l r (omega arith) in
        rw (out.1, no_nodes)
          (h ∷ [], refl, lone-Repr hasher.hash_children l h (omega arith), ap ok e)
    | yes several ↦
        let out = add_nodes_several c h s (omega arith) w in
        rw (out.1, e)
          (add_loop-Added hasher f limit quiet (suc (length l)) (length l) [] c.nodes l (length l) 0
            (length l) h out.0 refl r refl several (omega arith) (omega arith) (omega arith))
  ]

  -- With a callback that does not fail at the nodes of a tree of `limit` leaves, AddLeafHash on the
  -- tree of fewer leaf hashes `l` than that returns their number, and leaves the tree of `l` and the
  -- new hash: its size, its nodes and its root are those of the longer list.
  pub add_leaf_hash-IsTree :
      (c : CompactMerkleTree) (l : List Bytes) (h : Bytes) (s : S)
      → IsTree hasher c l
      → length l < limit
      → IsTree hasher (add_leaf_hash hasher f c h s).0 (l ++ h ∷ [])
        × ((add_leaf_hash hasher f c h s).2 ≡ ok (length l))
  unfolding add_leaf_hash
  add_leaf_hash-IsTree c l h s t w =
      let hc = hasher.hash_children in
      let added = add_nodes-Added c l h s t.sized t.represented (omega (arith, t.sized)) in
      let out = add_nodes hasher f c h s in
      let c' : CompactMerkleTree = record c { nodes = out.0; size = c.size + 1 } in
      let grown : length (l ++ h ∷ []) ≡ length l + 1 = length-append l (h ∷ []) in
      let represented : Repr hc out.0 (l ++ h ∷ []) = rw added.1 added.2 in
      let sized : c.size + 1 ≡ length (l ++ h ∷ []) = omega (arith, t.sized) in
      let rooted =
        recalculate_root-eq-root hasher f limit quiet c' (l ++ h ∷ []) out.1 sized (omega arith)
          represented (omega arith) in
      (
        rw rooted.0 (record {
          sized = sized;
          represented = represented;
          rooted = sym (mth-eq-root hc hasher.empty_root (l ++ h ∷ []) (omega arith));
        }),
        rw (rooted.1, added.3),
      )

  -- If the leaf can be hashed and the callback does not fail at the nodes of a tree of `limit`
  -- leaves, AddLeaf on the compact tree of fewer leaf hashes than that returns their number and the
  -- leaf's hash, and leaves the compact tree of the longer list.
  pub add_leaf-IsTree :
      (c : CompactMerkleTree) (l : List Bytes) (leaf h : Bytes) (s : S)
      → hasher.hash_leaf leaf ≡ ok h
      → IsTree hasher c l
      → length l < limit
      → IsTree hasher (add_leaf hasher f c leaf s).0 (l ++ h ∷ [])
        × ((add_leaf hasher f c leaf s).2 ≡ ok (length l, h))
  unfolding add_leaf
  add_leaf-IsTree c l leaf h s e t w =
      let added = add_leaf_hash-IsTree c l h s t w in rw e (added.0, rw added.1)

  -- AddLeafHash for each of a list of hashes.
  unfoldable pub add_hashes : CompactMerkleTree → List Bytes → S → CompactMerkleTree × S
  add_hashes c [] s = (c, s)
  add_hashes c (h ∷ hs) s = let (c', s', _) = add_leaf_hash hasher f c h s in add_hashes c' hs s'

  add_hashes-IsTree :
      (c : CompactMerkleTree) (l hs : List Bytes) (s : S)
      → IsTree hasher c l
      → length l + length hs ≤ limit
      → IsTree hasher (add_hashes c hs s).0 (l ++ hs)
  unfolding add_hashes
  add_hashes-IsTree c l [] s t w = rw (append-nil l) t
  add_hashes-IsTree c l (h ∷ hs) s t w = rw append_assoc at (
      add_hashes-IsTree (add_leaf_hash hasher f c h s).0 (l ++ h ∷ []) hs
        (add_leaf_hash hasher f c h s).1 (add_leaf_hash-IsTree c l h s t (omega arith)).0
        (omega (arith, length-append l (h ∷ []))))

  -- Where at most `limit` leaf hashes are added to a new tree one by one, with a callback that does
  -- not fail at the nodes of a tree of `limit` leaves, CurrentRoot is their tree hash of RFC 6962.
  pub current_root-add_hashes :
      (hs : List Bytes) (s : S)
      → length hs ≤ limit
      → current_root (add_hashes (new_compact_merkle_tree hasher) hs s).0
        ≡ mth hasher.hash_children hasher.empty_root hs
  unfolding current_root
  current_root-add_hashes hs s w =
      (add_hashes-IsTree (new_compact_merkle_tree hasher) [] hs s
        (new_compact_merkle_tree-IsTree hasher) (omega arith)).rooted
