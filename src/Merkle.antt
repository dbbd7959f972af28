-- ===== src/Merkle.antt =====
-- The package merkle/: hashers, proofs and in-memory trees.
pub mod Hashers
pub mod Tree
pub mod Common
pub mod BitLen
pub mod LogVerifier
pub mod Compact
pub mod MerklePath
pub mod MapHasher
pub mod Hstar2
pub mod MapVerifier
