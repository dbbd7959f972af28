-- ===== src/Client.antt =====
-- client/: the library of a log's clients.
pub mod LogVerifier
pub mod LogClient
mod Tests
