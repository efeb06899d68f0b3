-- ===== src/Registry.antt =====
-- rhosus/registry: how a registry's handlers combine its storage, its cluster and its data nodes.
pub mod Paths
pub mod Replay
pub mod Types
pub mod Files
pub mod Remove
pub mod Placing
pub mod Uploads
pub mod Requests
pub mod Access
pub mod Nodes
pub mod Discovery
pub mod Tests
