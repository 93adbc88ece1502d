-- ===== src/Tsdb/Walk.antt =====
-- Reading a log's index, and the addresses next to a log or a sector: FlashDB/src/fdb_tsdb.c.
pub mod Inverse
use flashdb_ko.Prelude.{ℕ, ◌||◌, ◌==◌, ltb, leb, if◌then◌else◌}
use flashdb_ko.Prelude.Words.{add32, sub32, failed_addr}
use flashdb_ko.Storage.{Flash, flash_fetch}
use flashdb_ko.Status.{fdb_get_status}
use flashdb_ko.Kv.Types.{store_empty}
use flashdb_ko.Tsdb.Types.{
  FdbTsl, TsdbSecInfo, log_idx_of_bytes, fdb_tsl_unused, fdb_tsl_pre_write, fdb_tsl_status_num,
  sector_hdr_data_size, log_idx_data_size,
}

-- `read_tsl` of the log whose index is at an address, over `db->max_len`.
unfoldable pub read_tsl : Flash → ℕ → ℕ → FdbTsl
read_tsl fl max_len index =
    let idx = log_idx_of_bytes (flash_fetch fl index log_idx_data_size) in
    let status = fdb_get_status idx.status_table fdb_tsl_status_num in
    let unfinished = status == fdb_tsl_pre_write || status == fdb_tsl_unused in
    record {
      status = status;
      time = if unfinished then 0 else idx.time;
      log_len = if unfinished then max_len else idx.log_len;
      index = index;
      log = if unfinished then failed_addr else idx.log_addr;
    }

module _ (sec_size max_size : ℕ) where
  -- `get_next_sector_addr`
  unfoldable pub get_next_sector_addr : TsdbSecInfo → ℕ → ℕ
  get_next_sector_addr pre_sec traversed_len =
      if leb (add32 traversed_len sec_size) max_size
      then (if ltb (add32 pre_sec.addr sec_size) max_size then add32 pre_sec.addr sec_size else 0)
      else failed_addr

  -- `get_last_sector_addr`
  unfoldable pub get_last_sector_addr : TsdbSecInfo → ℕ → ℕ
  get_last_sector_addr pre_sec traversed_len =
      if leb (add32 traversed_len sec_size) max_size
      then (if leb sec_size pre_sec.addr
          then sub32 pre_sec.addr sec_size
          else sub32 max_size sec_size)
      else failed_addr

-- `get_next_tsl_addr`
unfoldable pub get_next_tsl_addr : TsdbSecInfo → FdbTsl → ℕ
get_next_tsl_addr sector pre_tsl =
    if sector.status == store_empty
    then failed_addr
    else if leb (add32 pre_tsl.index log_idx_data_size) sector.end_idx
    then add32 pre_tsl.index log_idx_data_size
    else failed_addr

-- `get_last_tsl_addr`
unfoldable pub get_last_tsl_addr : TsdbSecInfo → FdbTsl → ℕ
get_last_tsl_addr sector pre_tsl =
    if sector.status == store_empty
    then failed_addr
    else if leb (add32 (add32 sector.addr sector_hdr_data_size) log_idx_data_size) pre_tsl.index
    then sub32 pre_tsl.index log_idx_data_size
    else failed_addr
