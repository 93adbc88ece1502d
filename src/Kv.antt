-- ===== src/Kv.antt =====
-- FlashDB/src/fdb_kvdb.c: the key-value database.
pub mod Types
pub mod State
pub mod SectorCache
pub mod KvCache
pub mod Walk
pub mod Read
pub mod Iterate
pub mod Find
pub mod Write
pub mod Alloc
pub mod Gc
pub mod Create
pub mod Items
pub mod Load
pub mod Check
