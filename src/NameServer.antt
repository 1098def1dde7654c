-- ===== src/NameServer.antt =====
-- name_server/name_server.c.
pub mod Index
pub mod Cache
pub mod Paths
pub mod Servers
pub mod Files
pub mod Registry
pub mod Permissions
pub mod Exchange
pub mod State
pub mod Sharing
pub mod Mailbox
pub mod Clients
pub mod Connections
pub mod Csv
pub mod Creation
pub mod Sync
pub mod Location
pub mod Listing
pub mod Deletion
pub mod Copying
pub mod Info
pub mod Metadata
pub mod Execution
