-- ===== src/Node.antt =====
-- The node: the programs and the server of src/.
pub mod Names
pub mod Readers
pub mod Capabilities
pub mod Queue
pub mod Globs
pub mod Paths
pub mod Store
pub mod Delivery
pub mod Arguments
pub mod Presence
pub mod Ports
pub mod Ids
pub mod Auth
pub mod Server
pub mod Pairing
pub mod Views
pub mod Config
pub mod Resolve
pub mod Reload
pub mod Mcp
pub mod Roots
