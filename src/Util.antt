-- ===== src/Util.antt =====
-- The package util.
pub mod Tracker
