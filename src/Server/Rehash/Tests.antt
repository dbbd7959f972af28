-- ===== src/Server/Rehash/Tests.antt =====
-- Runs of server/proof_fetcher.go, with a hash of the children that keeps them.
use trillian.Prelude.{ℕ, List, [], ◌∷◌, ◌++◌, map, Bytes, Outcome, ok, err, ◌≡◌, refl}
use trillian.Prelude.Int.{pos}
use trillian.Storage.NodeId.{NodeId, equivalent, string, bits_from, bit, path_len_bits}
use trillian.Server.Rehash.{
  Error, Node, NodeFetch, wrong_count, wrong_node, process, process_all, check_nodes, fetch_nodes,
  fetch_nodes_and_build_proof,
}
use trillian.Server.Rehash.Chains.{
  Segment, plain, chain, segment_nodes, segment_fetches, all_nodes, all_fetches, Separated,
  segment_hash,
}
use trillian.Server.Rehash.Fetch.{Printable, fetch_nodes_and_build_proof-segments}

abbrev hc : Bytes → Bytes → Bytes
hc l r = 1 ∷ l ++ r

abbrev node_at : ℕ → Node
node_at b = record {
  id = record { path = b ∷ []; prefix_len_bits = 1 };
  hash = b ∷ [];
  revision = pos 0;
}

abbrev some_segments : List Segment
some_segments =
    plain (node_at 0) ∷ chain (node_at 128) (node_at 64 ∷ node_at 0 ∷ []) ∷ plain (node_at 64) ∷ []

abbrev some_nodes : List Node
some_nodes = node_at 0 ∷ node_at 128 ∷ node_at 64 ∷ node_at 0 ∷ node_at 64 ∷ []

abbrev some_hashes : List Bytes
some_hashes = (0 ∷ []) ∷ (1 ∷ 0 ∷ 1 ∷ 64 ∷ 128 ∷ []) ∷ (64 ∷ []) ∷ []

abbrev full_store : List NodeId → Outcome Error (List Node)
full_store ids = ok some_nodes

abbrev short_store : List NodeId → Outcome Error (List Node)
short_store ids = ok []

abbrev mixed_store : List NodeId → Outcome Error (List Node)
mixed_store ids = ok (node_at 0 ∷ node_at 64 ∷ node_at 64 ∷ node_at 0 ∷ node_at 64 ∷ [])

built :
    fetch_nodes_and_build_proof hc full_store (pos 3) (all_fetches some_segments)
    ≡ ok (record { leaf_index = pos 3; hashes = some_hashes })
unfolding fetch_nodes_and_build_proof fetch_nodes check_nodes equivalent string bits_from bit
    path_len_bits process_all process all_fetches segment_fetches
built = refl

nodes_missing :
    fetch_nodes_and_build_proof hc short_store (pos 3) (all_fetches some_segments) ≡ err wrong_count
unfolding fetch_nodes_and_build_proof fetch_nodes all_fetches segment_fetches
nodes_missing = refl

other_node :
    fetch_nodes_and_build_proof hc mixed_store (pos 3) (all_fetches some_segments)
    ≡ err (wrong_node 1)
unfolding fetch_nodes_and_build_proof fetch_nodes check_nodes equivalent string bits_from bit
    path_len_bits all_fetches segment_fetches
other_node = refl

some_segments-Separated : Separated some_segments
unfolding Separated
some_segments-Separated = tt

some_segments-Printable : Printable (all_nodes some_segments)
unfolding Printable all_nodes segment_nodes string bits_from bit path_len_bits
some_segments-Printable =
    ((0 ∷ [], refl), ((1 ∷ [], refl), ((0 ∷ [], refl), ((0 ∷ [], refl), ((0 ∷ [], refl), tt)))))

some_segments_stored :
    full_store (map (λ (fetch : NodeFetch). fetch.id) (all_fetches some_segments))
    ≡ ok (all_nodes some_segments)
unfolding all_nodes segment_nodes
some_segments_stored = refl

fetch_nodes_and_build_proof-segments_example :
    fetch_nodes_and_build_proof hc full_store (pos 3) (all_fetches some_segments)
    ≡ ok (record { leaf_index = pos 3; hashes = map (segment_hash hc) some_segments })
fetch_nodes_and_build_proof-segments_example =
    fetch_nodes_and_build_proof-segments hc full_store (pos 3) some_segments some_segments-Separated
      some_segments-Printable some_segments_stored
