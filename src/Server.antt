-- ===== src/Server.antt =====
-- The package server/: the checks of requests and the fetch of a proof's nodes.
pub mod Validate
pub mod Rehash
