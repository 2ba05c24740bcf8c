-- ===== src/Daemon.antt =====
-- The daemon: the merge of metadata updates.
pub mod Merge
pub mod Results
pub mod Store
pub mod Handlers
pub mod ChunkFiles
