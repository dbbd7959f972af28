-- ===== src/Merkle/LogVerifier/Consistency.antt =====
-- Consistency proofs: when the loops accept, how the older root comes out, and what is proved.
pub mod Accepted
pub mod Older
pub mod Complete
pub mod Sound
