-- ===== src/Sync.antt =====
-- packages/sync/src/reconciliation: how two peers find and exchange the edits that one of them lacks.
pub mod Messages
pub mod Trie
pub mod Session
pub mod Snapshots
