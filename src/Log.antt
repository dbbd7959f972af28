-- ===== src/Log.antt =====
-- The package log/: the sequencer of a log.
pub mod Tx
pub mod Sequencer
