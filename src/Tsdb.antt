-- ===== src/Tsdb.antt =====
-- FlashDB/src/fdb_tsdb.c, the time series database.
pub mod Types
pub mod Walk
pub mod Search
pub mod Write
pub mod State
pub mod Sector
pub mod Append
pub mod Iterate
pub mod Visit
pub mod Load
pub mod Control
pub mod Logs
pub mod InUse
pub mod Series
