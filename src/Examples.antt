-- ===== src/Examples.antt =====
-- Runs of the theorems on concrete inputs.
pub mod Common
pub mod Documents
pub mod Files
pub mod Server
pub mod Requests
pub mod Entries
pub mod Stored
pub mod Connections
