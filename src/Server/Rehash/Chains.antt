-- ===== src/Server/Rehash/Chains.antt =====
-- What the rehasher of server/proof_fetcher.go computes: one proof hash for each node that stands
-- for itself and for each chain of nodes to rehash.
use trillian.Prelude.{
  List, [], ◌∷◌, ◌++◌, map, append_assoc, append-nil, Bytes, Outcome, ok, Bool, true, false, ◌≡◌,
  refl, ◌∙◌, sym,
}
use trillian.Server.Rehash.{
  Error, Node, NodeFetch, Rehasher, start_rehasher, end_rehashing, process, process_all,
}

-- A node to be used as it is, or a first node that the others are hashed onto from the left.
pub data Segment : Type 0 where
  plain : Node → Segment
  chain : Node → List Node → Segment

unfoldable pub segment_nodes : Segment → List Node
segment_nodes (plain n) = n ∷ []
segment_nodes (chain n ns) = n ∷ ns

abbrev pub fetch_of : Bool → Node → NodeFetch
fetch_of rehash n = record { id = n.id; rehash = rehash }

unfoldable pub segment_fetches : Segment → List NodeFetch
segment_fetches (plain n) = fetch_of false n ∷ []
segment_fetches (chain n ns) = map (fetch_of true) (n ∷ ns)

unfoldable pub all_nodes : List Segment → List Node
all_nodes [] = []
all_nodes (s ∷ ss) = segment_nodes s ++ all_nodes ss

unfoldable pub all_fetches : List Segment → List NodeFetch
all_fetches [] = []
all_fetches (s ∷ ss) = segment_fetches s ++ all_fetches ss

-- No chain follows another, so that the marks of the fetches tell the segments apart.
unfoldable pub Separated : List Segment → Type 0
Separated [] = Unit {0}
Separated (plain n ∷ ss) = Separated ss
Separated (chain n ns ∷ []) = Unit {0}
Separated (chain n ns ∷ plain m ∷ ss) = Separated ss
Separated (chain n ns ∷ chain m ms ∷ ss) = ⊥

module _ (hash_children : Bytes → Bytes → Bytes) where
  unfoldable pub hash_onto : Bytes → List Node → Bytes
  hash_onto h [] = h
  hash_onto h (n ∷ ns) = hash_onto (hash_children n.hash h) ns

  unfoldable pub segment_hash : Segment → Bytes
  segment_hash (plain n) = n.hash
  segment_hash (chain n ns) = hash_onto n.hash ns

  abbrev idle : Bytes → List Bytes → Rehasher
  idle h proof = record { rehashing = false; rehash_hash = h; proof = proof }

  abbrev busy : Bytes → List Bytes → Rehasher
  busy h proof = record { rehashing = true; rehash_hash = h; proof = proof }

  process_chain :
      (h : Bytes) (proof : List Bytes) (ns nodes : List Node) (fetches : List NodeFetch)
      → process_all hash_children (busy h proof) (ns ++ nodes) (map (fetch_of true) ns ++ fetches)
        ≡ process_all hash_children (busy (hash_onto h ns) proof) nodes fetches
  unfolding process_all process hash_onto
  process_chain h proof [] nodes fetches = refl
  process_chain h proof (n ∷ ns) nodes fetches =
      process_chain (hash_children n.hash h) proof ns nodes fetches

  abbrev Processed : Outcome Error Rehasher → List Bytes → Type 0
  Processed run hashes = (r : Rehasher) × (run ≡ ok r) × ((end_rehashing r).proof ≡ hashes)

  longer :
      (run : Outcome Error Rehasher) (proof hashes : List Bytes) (h : Bytes)
      → Processed run ((proof ++ h ∷ []) ++ hashes)
      → Processed run (proof ++ h ∷ hashes)
  longer run proof hashes h (r, runs, result) =
      (r, runs, result ∙ append_assoc proof (h ∷ []) hashes)

  process_segments :
      (h : Bytes) (proof : List Bytes) (ss : List Segment)
      → Separated ss
      → Processed
          (process_all hash_children (idle h proof) (all_nodes ss) (all_fetches ss))
          (proof ++ map segment_hash ss)
  unfolding process_all process all_nodes all_fetches segment_nodes segment_fetches segment_hash
      Separated
  process_segments h proof [] apart = (idle h proof, refl, sym (append-nil proof))
  process_segments h proof (plain n ∷ ss) apart =
      longer
        (process_all hash_children (idle h (proof ++ n.hash ∷ [])) (all_nodes ss) (all_fetches ss))
        proof (map segment_hash ss) n.hash (process_segments h (proof ++ n.hash ∷ []) ss apart)
  process_segments h proof (chain n ns ∷ []) apart =
      (busy (hash_onto n.hash ns) proof, process_chain n.hash proof ns [] [], refl)
  process_segments h proof (chain n ns ∷ plain m ∷ ss) apart =
      let top = hash_onto n.hash ns in
      let run =
        process_all hash_children (idle top ((proof ++ top ∷ []) ++ m.hash ∷ [])) (all_nodes ss)
          (all_fetches ss) in
      let hashes = map segment_hash ss in
      let rest = process_segments top ((proof ++ top ∷ []) ++ m.hash ∷ []) ss apart in
      let all =
        longer run proof (m.hash ∷ hashes) top
          (longer run (proof ++ top ∷ []) hashes m.hash rest) in
      let first =
        process_chain n.hash proof ns (m ∷ all_nodes ss) (fetch_of false m ∷ all_fetches ss) in
      (all.0, first ∙ all.1, all.2)
  process_segments h proof (chain n ns ∷ chain m ms ∷ ss) apart = absurd apart

  -- The rehasher, run on the nodes of separated segments, ends without a panic, with one hash for
  -- each segment and in their order.
  pub process_all-segments :
      (ss : List Segment)
      → Separated ss
      → (r : Rehasher) × (process_all hash_children start_rehasher (all_nodes ss) (all_fetches ss)
          ≡ ok r)
        × ((end_rehashing r).proof ≡ map segment_hash ss)
  process_all-segments ss apart = process_segments [] [] ss apart
