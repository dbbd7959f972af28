-- ===== src/Storage.antt =====
-- The package storage/: the identifiers of tree nodes and the checks of trees.
pub mod NodeId
pub mod TreeValidation
