-- ===== src/Storage.antt =====
-- storage_server/.
pub mod Words
pub mod Sentence
pub mod State
pub mod Sessions
pub mod Numbers
pub mod Writing
pub mod Commit
pub mod Checkpoints
pub mod Revert
pub mod Lifecycle
