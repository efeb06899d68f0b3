-- ===== src/Storage.antt =====
-- rhosus/registry/storage: the registry's tables in memory, with a backend behind them.
pub mod Types
pub mod Tables
pub mod Store
pub mod Load
pub mod FileBackend
pub mod Tests
