-- ===== src/Quota.antt =====
-- quota/: the tokens that requests cost.
pub mod Etcd
