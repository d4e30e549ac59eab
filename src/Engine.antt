-- ===== src/Engine.antt =====
-- The storage engine (engine/).
pub mod PageFormat
pub mod Types
pub mod Record
pub mod Wal
pub mod BTree
pub mod WriteTxn
