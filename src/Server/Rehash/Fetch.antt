-- ===== src/Server/Rehash/Fetch.antt =====
-- fetchNodesAndBuildProof of server/proof_fetcher.go with a storage that returns what is asked for.
use trillian.Prelude.{
  ℕ, suc, List, [], ◌∷◌, ◌++◌, map, Bytes, bytes_equal_refl, Outcome, ok, length, ◌==◌, Bool, true,
  ◌≡◌, refl, ap, arith,
}
use trillian.Prelude.Int.{ℤ}
use trillian.Storage.NodeId.{NodeId, equivalent, string}
use trillian.Server.Rehash.{
  Error, Node, NodeFetch, check_nodes, fetch_nodes, fetch_nodes_and_build_proof,
}
use trillian.Server.Rehash.Chains.{
  Segment, plain, chain, fetch_of, segment_nodes, segment_fetches, all_nodes, all_fetches,
  Separated, segment_hash, process_all-segments,
}

-- The identifiers of the nodes can be printed.
unfoldable pub Printable : List Node → Type 0
Printable [] = Unit {0}
Printable (n ∷ ns) = ((bits : List ℕ) × (string n.id ≡ ok bits)) × Printable ns

equivalent_refl : (n : NodeId) (bits : List ℕ) → string n ≡ ok bits → equivalent n n ≡ ok true
unfolding equivalent
equivalent_refl n bits printed = rw (printed, bytes_equal_refl bits) refl

-- The fetches name the nodes, in order.
unfoldable Names : List NodeFetch → List Node → Type 0
Names [] [] = Unit {0}
Names [] (n ∷ ns) = ⊥
Names (f ∷ fs) [] = ⊥
Names (f ∷ fs) (n ∷ ns) = (f.id ≡ n.id) × Names fs ns

Names-nodes :
    (fs : List NodeFetch) (ns : List Node)
    → Names fs ns
    → Printable ns
    → (i : ℕ) → check_nodes i ns fs ≡ ok tt
unfolding Names Printable check_nodes
Names-nodes [] [] named printable i = refl
Names-nodes [] (n ∷ ns) named printable i = absurd named
Names-nodes (f ∷ fs) [] named printable i = absurd named
Names-nodes (f ∷ fs) (n ∷ ns) (named, later) ((bits, printed), others) i =
    rw (named, equivalent_refl n.id bits printed) (Names-nodes fs ns later others (suc i))

Names-length : (fs : List NodeFetch) (ns : List Node) → Names fs ns → length ns ≡ length fs
unfolding Names
Names-length [] [] named = refl
Names-length [] (n ∷ ns) named = absurd named
Names-length (f ∷ fs) [] named = absurd named
Names-length (f ∷ fs) (n ∷ ns) named = ap suc (Names-length fs ns named.1)

Names-fetched :
    (fs : List NodeFetch) (rehash : Bool) (ns ms : List Node)
    → Names fs ms
    → Names (map (fetch_of rehash) ns ++ fs) (ns ++ ms)
unfolding Names
Names-fetched fs rehash [] ms named = named
Names-fetched fs rehash (n ∷ ns) ms named = (refl, Names-fetched fs rehash ns ms named)

Names-all : (ss : List Segment) → Names (all_fetches ss) (all_nodes ss)
unfolding Names all_fetches all_nodes segment_fetches segment_nodes
Names-all [] = tt
Names-all (plain n ∷ ss) = (refl, Names-all ss)
Names-all (chain n ns ∷ ss) =
    Names-fetched (all_fetches ss) true (n ∷ ns) (all_nodes ss) (Names-all ss)

-- If storage returns for the fetches of separated segments the nodes that they name, and their
-- identifiers can be printed, then fetchNodesAndBuildProof returns the leaf index with one hash
-- for each segment: the node's own, or that of the chain hashed together.
pub fetch_nodes_and_build_proof-segments :
    (hash_children : Bytes → Bytes → Bytes)
    (get_merkle_nodes : List NodeId → Outcome Error (List Node)) (leaf_index : ℤ)
    (ss : List Segment)
    → Separated ss
    → Printable (all_nodes ss)
    → get_merkle_nodes (map (λ (fetch : NodeFetch). fetch.id) (all_fetches ss)) ≡ ok (all_nodes ss)
    → fetch_nodes_and_build_proof hash_children get_merkle_nodes leaf_index (all_fetches ss)
      ≡ ok (record { leaf_index = leaf_index; hashes = map (segment_hash hash_children) ss })
unfolding fetch_nodes_and_build_proof fetch_nodes
fetch_nodes_and_build_proof-segments hash_children get_merkle_nodes leaf_index ss apart printable
      stored =
    let named = Names-all ss in
    let checked = Names-nodes (all_fetches ss) (all_nodes ss) named printable 0 in
    let same_length = Names-length (all_fetches ss) (all_nodes ss) named in
    let counted : (length (all_nodes ss) == length (all_fetches ss)) ≡ true = ground arith in
    let processed = process_all-segments hash_children ss apart in
    rw (stored, counted, checked, processed.1, processed.2) refl
