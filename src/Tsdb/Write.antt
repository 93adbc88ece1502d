-- ===== src/Tsdb/Write.antt =====
-- `write_tsl` and `fdb_tsl_set_status` of FlashDB/src/fdb_tsdb.c.
pub mod RoundTrip
use flashdb_ko.Prelude.{ℕ, List, ◌++◌, if◌then◌else◌, length}
use flashdb_ko.Prelude.Words.{add32, sub32, wg_align}
use flashdb_ko.Bytes.{le32}
use flashdb_ko.Storage.{FdbErr, Flash, is_ok, flash_write}
use flashdb_ko.Status.{fdb_write_status}
use flashdb_ko.Tsdb.Types.{
  FdbTsl, TsdbSecInfo, fdb_tsl_pre_write, fdb_tsl_write, fdb_tsl_status_num,
}

-- The address of a blob's data in the current sector.
abbrev pub log_addr_of : TsdbSecInfo → List ℕ → ℕ
log_addr_of cur_sec blob = sub32 cur_sec.empty_data (wg_align (length blob))

-- The bytes of `struct log_idx_data` from `time` on.
unfoldable pub log_idx_tail_bytes : ℕ → ℕ → ℕ → List ℕ
log_idx_tail_bytes time log_len log_addr = le32 time ++ (le32 log_len ++ le32 log_addr)

-- `write_tsl` into the current sector: the error and the flash.
unfoldable pub write_tsl : Flash → TsdbSecInfo → List ℕ → ℕ → FdbErr × Flash
write_tsl fl cur_sec blob time =
    let idx_addr = cur_sec.empty_idx in
    let log_addr = log_addr_of cur_sec blob in
    let (err1, fl1, table1) = fdb_write_status fl idx_addr fdb_tsl_status_num fdb_tsl_pre_write in
    let (err2, fl2) =
      flash_write fl1 (add32 idx_addr 4) (log_idx_tail_bytes time (length blob) log_addr) in
    let (err3, fl3) = flash_write fl2 log_addr blob in
    let (err4, fl4, table4) = fdb_write_status fl3 idx_addr fdb_tsl_status_num fdb_tsl_write in
    if is_ok err1
    then (if is_ok err2 then (if is_ok err3 then (err4, fl4) else (err3, fl3)) else (err2, fl2))
    else (err1, fl1)

-- `fdb_tsl_set_status`
unfoldable pub fdb_tsl_set_status : Flash → FdbTsl → ℕ → FdbErr × Flash
fdb_tsl_set_status fl tsl status =
    let (err, fl', table) = fdb_write_status fl tsl.index fdb_tsl_status_num status in (err, fl')
