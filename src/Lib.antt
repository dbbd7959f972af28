-- ===== src/Lib.antt =====
-- Trillian: a verification of the cores of its verifiable log. Paths are from the repository's root.
--
-- Parts. A log is an append-only Merkle tree. The sequencer (log/sequencer.go) adds leaves to a
-- compact tree (merkle/compact_merkle_tree.go) that keeps one hash for each full subtree, stores
-- the nodes under identifiers (storage/types.go) and signs the root. The server (server/) checks
-- requests (server/validate.go), opens the tree with the access that a request may have
-- (trees/trees.go), fetches the nodes of a proof and rehashes those that a past size needs
-- (server/proof_fetcher.go). Requests take tokens from the buckets of
-- quotas (quota/etcd/), and the sequencer gives some back. A client (client/) keeps the root that it
-- trusts and checks the proofs of the server (merkle/log_verifier.go), with a hasher of the kind of
-- merkle/hashers/tree_hasher.go. Trees are checked when they are created or updated (storage/).
-- A map is a sparse Merkle tree, whose roots are calculated from changed leaves (merkle/hstar2.go)
-- and whose proofs a client checks (merkle/map_verifier.go).
--
-- Files and code.
--   Merkle/Hashers.antt        LogHasher of merkle/hashers/tree_hasher.go, as a record
--   Merkle/Common.antt         parent and isRightChild of merkle/common.go
--   Merkle/BitLen.antt         bitLen of storage/types.go and merkle/compact_merkle_tree.go
--   Merkle/Tree.antt           no code: the tree hash of RFC 6962, the sibling path of a leaf and
--                              the proof between two sizes, in files by what they describe
--   Merkle/LogVerifier.antt    RootFromInclusionProof, VerifyInclusionProof and
--                              VerifyConsistencyProof of merkle/log_verifier.go; the error values
--                              are constructors
--   Merkle/Compact.antt        CompactMerkleTree of merkle/compact_merkle_tree.go: a record of the
--                              root, the nodes and the size; an operation takes the state and
--                              returns the new one. The callback that stores a node is a function
--                              that passes a state and may fail; the one that reads a node for
--                              NewCompactMerkleTreeWithState returns an Outcome
--   Merkle/MerklePath.antt     the node addresses of proofs, of merkle/merkle_path.go, with the two
--                              functions that the server calls in Merkle/MerklePath/Addresses.antt
--   Merkle/MapHasher.antt      MapHasher of merkle/hashers/tree_hasher.go, as a record
--   Merkle/Hstar2.antt         HStar2 of merkle/hstar2.go: the recursion is on the levels that are left;
--                              the functions that get and set nodes pass a state; the library's sort
--                              and search are a record of two functions
--   Merkle/MapVerifier.antt    VerifyMapInclusionProof of merkle/map_verifier.go
--   Storage/NodeId.antt        NodeID of storage/types.go with its bits, its coordinates and its
--                              printed forms
--   Storage/NodeId/Paths.antt  the identifiers of prefixes, suffixes (storage/suffix.go) and big
--                              integers, and the nodes next to a path
--   Storage/TreeValidation.antt
--                              the checks of storage/tree_validation.go, and applyUpdateMask of
--                              server/admin/admin_server.go
--   Server/Validate.antt       the request checks of server/validate.go
--   Server/Rehash.antt         the rehasher and the node fetches of server/proof_fetcher.go
--   Trees.antt                 GetOpts and GetTree of trees/trees.go
--   Log/Tx.antt                ReadWriteTransaction of storage/log_storage.go, as in
--                              storage/mysql/log_storage.go: an action on a state is begun, committed
--                              or rolled back, and tried again as often as the storage wants
--   Log/Sequencer.antt         the sequencer of log/sequencer.go: a compact tree from storage and its
--                              update by the leaves of a batch
--   Log/Sequencer/Batch.antt   IntegrateBatch and SignRoot of log/sequencer.go; the transaction, the
--                              clock and the signer are a record of operations on a state
--   Client/LogVerifier.antt    logVerifier of client/log_verifier.go; the check of a signature and
--                              the object hash are fields
--   Client/LogClient.antt      LogClient of client/log_client.go; the service and the context are a
--                              record of operations on a state that stands in the client
--   Quota/Etcd.antt            QuotaStorage of quota/etcd/storage/quota_storage.go: the configs and
--                              the token buckets of an etcd transaction
--   Util/Tracker.antt          MasterTracker of util/tracker.go
--   Prelude.antt               shared names, lists, outcomes, integers and powers of two
--
-- Conventions. A hash, a path or any other byte slice is a list of numbers, its bytes. An `int64`
-- is the integer that it holds, and a natural number behind the guards that refuse negative ones;
-- an increment or a shift that a caller can take past the word has its wrap-around written out. A
-- call that may fail returns an Outcome: a value, an error, a panic, or out_of_fuel. Error values
-- are constructors, without their texts. The hash of two children is a parameter; a statement that
-- rests on its being hard to collide has a collision, two pairs with one hash, as an alternative.
--
-- Fuel. A loop that shifts a number to the right until it is zero has more fuel than the number,
-- which gets smaller with each shift of a positive number. The loops of the compact tree, which run
-- once for a bit of the size, have as many rounds as the size has bits. The recursion of a sparse
-- tree is on the levels below a node. The loops of a client run until its context is done: their
-- fuel is an argument.
--
-- Bounds. The size of a log's tree is a number, for an int64 that does not overflow: the theorems on
-- the sequencer ask for fewer than 2 ^ 63 leaves. Its revisions and the age of a root wrap around.
--
-- Not modelled: signatures and keys, storage engines, gRPC transport, protocol buffers and metrics,
-- which are input and output or libraries; the servers' handlers, the map server, the goroutines
-- that read and write a sparse tree, the subtree cache, the other quota managers and the rest of the
-- trees' administration are further components of the repository. The hashers of a map are a
-- parameter.
pub mod Prelude
pub mod Merkle
pub mod Storage
pub mod Client
pub mod Log
pub mod Quota
pub mod Server
pub mod Trees
pub mod Util
