-- ===== src/Cluster.antt =====
-- rhosus/registry/cluster: the log that the registries share, its leader and its followers.
pub mod Types
pub mod Buffer
pub mod Node
pub mod Write
pub mod Entries
pub mod Server
pub mod Election
pub mod Recovery
pub mod Members
pub mod Tests
