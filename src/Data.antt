-- ===== src/Data.antt =====
-- rhosus/node/data: how a node keeps its blocks on disk.
pub mod Files
pub mod IdxFile
pub mod Partition
pub mod Manager
pub mod Sink
pub mod PartitionsMap
pub mod Service
pub mod Tests
