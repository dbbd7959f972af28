-- ===== src/Log/Sequencer/Grown.antt =====
-- log/sequencer.go: what updateCompactTree makes of the tree, the leaves and the node map.
use trillian.Prelude.{
  ℕ, suc, ◌+◌, ◌^◌, ◌<◌, ◌≤◌, ◌≡◌, refl, sym, ap, subst, ◌∙◌, List, [], ◌∷◌, ◌++◌, map, append-nil,
  append_assoc, Bytes, Outcome, ok, err, panic, out_of_fuel, Bool, true, false, length,
  length-append, arith, if◌then◌else◌,
}
use trillian.Prelude.Int.{ℤ, pos, eqb_ℤ, eqb_ℤ-eq}
use trillian.Merkle.Hashers.{LogHasher}
use trillian.Merkle.Compact
use trillian.Merkle.Compact.{CompactMerkleTree, add_leaf_hash}
use trillian.Merkle.Compact.Correct.{IsTree, add_leaf_hash-IsTree}
use trillian.Log.Tx.{Action, after, ◌>>=◌, return, fail, lift}
use trillian.Log.Sequencer.{
  NodeError, Error, invalid_leaf_index, LogLeaf, Storage, NodeMap, record_node, tree_result,
  read_clock, stamp, put_leaf_node, integrate_leaf, update_compact_tree,
}
use trillian.Log.Sequencer.Nodes.{record_node-Quiet}

-- What an action returns if it returns a value.
abbrev pub Result : {T E A : Type 0} → T × Outcome E A → A → Type 0
Result p a = p.1 ≡ ok a

ok_injective : {E A : Type 0} (a b : A) → ◌≡◌ {A = Outcome E A} (ok a) (ok b) → a ≡ b
ok_injective a b h = cc

after-eq-ok :
    {T E A B : Type 0} (p : T × Outcome E A) (k : A → Action T E B) (b : B)
    → Result (after p k) b
    → (a : A) × Result p a × Result (k a p.0) b
after-eq-ok (t, ok a) k b h = (a, refl, h)
after-eq-ok (t, err e) k b h = absurd (cc)
after-eq-ok (t, panic) k b h = absurd (cc)
after-eq-ok (t, out_of_fuel) k b h = absurd (cc)

-- A chain that returns a value has returned one from its first part.
pub >>=-eq-ok :
    {T E A B : Type 0} (m : Action T E A) (k : A → Action T E B) (t : T) (b : B)
    → Result ((m >>= k) t) b
    → (a : A) × Result (m t) a × Result (k a (m t).0) b
>>=-eq-ok m k t b h = after-eq-ok (m t) k b h

unfoldable pub leaf_hashes : List LogLeaf → List Bytes
leaf_hashes leaves = map (λ (leaf : LogLeaf). leaf.merkle_leaf_hash) leaves

-- The leaves are numbered from `start` on.
abbrev pub Numbered : ℕ → List LogLeaf → Type 0
Numbered start [] = Unit {0}
Numbered start (leaf ∷ leaves) = (leaf.leaf_index ≡ pos start) × Numbered (suc start) leaves

stamp_keeps :
    {T : Type 0} (hasher : LogHasher NodeError) (s : Storage T) (leaf leaf' : LogLeaf) (time : ℤ)
    → stamp hasher s leaf time ≡ ok leaf'
    → (leaf'.merkle_leaf_hash ≡ leaf.merkle_leaf_hash) × (leaf'.leaf_index ≡ leaf.leaf_index)
unfolding stamp
stamp_keeps hasher s leaf leaf' time h = ground arith

tree_result-eq-ok :
    {A : Type 0} (r : Outcome (Compact.Error NodeError) A) (a b : A)
    → r ≡ ok b
    → tree_result r ≡ ok a
    → b ≡ a
tree_result-eq-ok r a b e h = cc

triple_injective :
    {A B C E : Type 0} (a a' : A) (b b' : B) (c c' : C)
    → ◌≡◌ {A = Outcome E (A × B × C)} (ok (a, b, c)) (ok (a', b', c'))
    → (a ≡ a') × (c ≡ c')
triple_injective a a' b b' c c' h = (cc, cc)

-- A check that lets the action go on has held.
pub checked-true :
    {T : Type 0} (c : Bool) (e : Error) (t : T) (u : Unit {0})
    → Result {E = Error} ((if c then return tt else fail e) t) u
    → c ≡ true
checked-true true e t u h = refl
checked-true false e t u h = absurd (cc)

module _ {T : Type 0} (hasher : LogHasher NodeError) (s : Storage T) where
  -- What one leaf adds: its hash to the tree, with the index that it has.
  abbrev pub Integrated : List Bytes → LogLeaf → CompactMerkleTree → LogLeaf → Type 0
  Integrated l leaf mt leaf' =
      IsTree hasher mt (l ++ leaf.merkle_leaf_hash ∷ [])
      × (leaf'.merkle_leaf_hash ≡ leaf.merkle_leaf_hash)
      × (leaf'.leaf_index ≡ pos (length l))

  pub integrate_leaf-Integrated :
      (mt : CompactMerkleTree) (l : List Bytes) (node_map : NodeMap) (leaf : LogLeaf) (t : T)
      (mt' : CompactMerkleTree) (node_map' : NodeMap) (leaf' : LogLeaf)
      → IsTree hasher mt l
      → length l < 2 ^ 63
      → Result (integrate_leaf hasher s mt node_map leaf t) (mt', node_map', leaf')
      → Integrated l leaf mt' leaf'
  unfolding integrate_leaf
  integrate_leaf-Integrated mt l node_map leaf t mt' node_map' leaf' tree small h =
      let added =
        add_leaf_hash-IsTree hasher record_node (2 ^ 63) record_node-Quiet mt l
          leaf.merkle_leaf_hash node_map tree small in
      let out = add_leaf_hash hasher record_node mt leaf.merkle_leaf_hash node_map in
      let all : CompactMerkleTree × NodeMap × LogLeaf = (mt', node_map', leaf') in
      let numbered = >>=-eq-ok (lift (tree_result out.2)) _ t all h in
      let seq = tree_result-eq-ok out.2 numbered.0 (length l) added.1 numbered.1 in
      let checked =
        >>=-eq-ok
          (if eqb_ℤ leaf.leaf_index (pos numbered.0) then return tt else fail invalid_leaf_index) _
          t all numbered.2 in
      let index = eqb_ℤ-eq leaf.leaf_index (pos numbered.0) (
        checked-true (eqb_ℤ leaf.leaf_index (pos numbered.0)) invalid_leaf_index t checked.0
          checked.1) in
      let timed = >>=-eq-ok (read_clock hasher s) _ _ all checked.2 in
      let stamped = >>=-eq-ok (lift (stamp hasher s leaf timed.0)) _ _ all timed.2 in
      let kept = stamp_keeps hasher s leaf stamped.0 timed.0 stamped.1 in
      let stored =
        >>=-eq-ok (lift (put_leaf_node hasher s numbered.0 leaf.merkle_leaf_hash out.1)) _ _ all
          stamped.2 in
      let same = triple_injective out.0 mt' stored.0 node_map' stamped.0 leaf' stored.2 in
      (
        subst (λ (m : CompactMerkleTree). IsTree hasher m (l ++ leaf.merkle_leaf_hash ∷ [])) same.0
            added.0,
        ap (λ (x : LogLeaf). x.merkle_leaf_hash) (sym same.1) ∙ kept.0,
        ap (λ (x : LogLeaf). x.leaf_index) (sym same.1) ∙ kept.1 ∙ index ∙ ap pos (sym seq),
      )

  -- The tree of a longer list; the leaves keep their hashes and count up.
  abbrev pub Grown : List Bytes → List LogLeaf → CompactMerkleTree → List LogLeaf → Type 0
  Grown l leaves mt' leaves' =
      IsTree hasher mt' (l ++ leaf_hashes leaves)
      × (leaf_hashes leaves' ≡ leaf_hashes leaves)
      × Numbered (length l) leaves'

  Grown-leaf :
      (l : List Bytes) (leaf leaf' : LogLeaf) (leaves leaves' : List LogLeaf)
      (mt mt' : CompactMerkleTree)
      → Integrated l leaf mt leaf'
      → Grown (l ++ leaf.merkle_leaf_hash ∷ []) leaves mt' leaves'
      → Grown l (leaf ∷ leaves) mt' (leaf' ∷ leaves')
  unfolding leaf_hashes
  Grown-leaf l leaf leaf' leaves leaves' mt mt' one more =
      let h = leaf.merkle_leaf_hash in
      let longer : length (l ++ h ∷ []) ≡ suc (length l) =
        omega (arith, length-append l (h ∷ [])) in
      (
        rw append_assoc at (more.0),
        ap (λ (x : Bytes). x ∷ leaf_hashes leaves') one.1 ∙ ap (λ (xs : List Bytes). h ∷ xs) more.1,
        (one.2, subst (λ (n : ℕ). Numbered n leaves') longer more.2),
      )

  pub update_compact_tree-Grown :
      (mt : CompactMerkleTree) (l : List Bytes) (node_map : NodeMap) (leaves : List LogLeaf) (t : T)
      (mt' : CompactMerkleTree) (node_map' : NodeMap) (leaves' : List LogLeaf)
      → IsTree hasher mt l
      → length l + length leaves ≤ 2 ^ 63
      → Result (update_compact_tree hasher s mt node_map leaves t) (mt', node_map', leaves')
      → Grown l leaves mt' leaves'
  unfolding update_compact_tree leaf_hashes
  update_compact_tree-Grown mt l node_map [] t mt' node_map' leaves' tree small h =
      let same = triple_injective mt mt' node_map node_map' [] leaves' h in
      subst (λ (ls : List LogLeaf). Grown l [] mt' ls) same.1
        (subst (λ (m : CompactMerkleTree). Grown l [] m []) same.0
          (rw (append-nil l) tree, refl, tt))
  update_compact_tree-Grown mt l node_map (leaf ∷ leaves) t mt' node_map' leaves' tree small h =
      let all : CompactMerkleTree × NodeMap × List LogLeaf = (mt', node_map', leaves') in
      let first = >>=-eq-ok (integrate_leaf hasher s mt node_map leaf) _ t all h in
      let (mt₁, node_map₁, leaf₁) = first.0 in
      let t₁ = (integrate_leaf hasher s mt node_map leaf t).0 in
      let rest = >>=-eq-ok (update_compact_tree hasher s mt₁ node_map₁ leaves) _ t₁ all first.2 in
      let (mt₂, node_map₂, leaves₂) = rest.0 in
      let one =
        integrate_leaf-Integrated mt l node_map leaf t mt₁ node_map₁ leaf₁ tree (omega arith)
          first.1 in
      let longer = length-append l (leaf.merkle_leaf_hash ∷ []) in
      let more =
        update_compact_tree-Grown mt₁ (l ++ leaf.merkle_leaf_hash ∷ []) node_map₁ leaves t₁ mt₂
          node_map₂ leaves₂ one.0 (omega arith) rest.1 in
      let same = triple_injective mt₂ mt' node_map₂ node_map' (leaf₁ ∷ leaves₂) leaves' rest.2 in
      subst (λ (ls : List LogLeaf). Grown l (leaf ∷ leaves) mt' ls) same.1
        (subst (λ (m : CompactMerkleTree). Grown l (leaf ∷ leaves) m (leaf₁ ∷ leaves₂)) same.0
          (Grown-leaf l leaf leaf₁ leaves leaves₂ mt₁ mt₂ one more))
