-- ===== src/Tsdb/Series/Close.antt =====
-- The writes that close the current sector, in `update_sec_status` of FlashDB/src/fdb_tsdb.c.
use flashdb_ko.Prelude.{ℕ, ◌+◌, ◌≤◌, ◌<◌, ◌==◌, if-both, arith}
use flashdb_ko.Prelude.Words.{add32, sub32}
use flashdb_ko.Bytes.{le32}
use flashdb_ko.Kv.Types.{store_full, store_status_num}
use flashdb_ko.Tsdb.Types.{
  TsdbSecInfo, fdb_tsl_unused, fdb_tsl_pre_write, fdb_tsl_write, fdb_tsl_status_num,
  log_idx_data_size,
}
use flashdb_ko.Tsdb.State.{◌>>◌, write_status, write_flash}
use flashdb_ko.Tsdb.State.Touches.{
  Touches, no_write-Touches, write_flash-Touches, write_status-Touches, >>-Touches,
}
use flashdb_ko.Tsdb.Append.{write_end_entry, write_end_info, close_sector}

module _ (off len addr : ℕ) (inside : addr + 40 ≤ len) where
  entry-Touches :
      (time_addr idx_addr status_addr last_time end_index : ℕ)
      → addr ≤ time_addr
      → time_addr + 4 ≤ addr + 40
      → addr ≤ idx_addr
      → idx_addr + 4 ≤ addr + 40
      → addr ≤ status_addr
      → status_addr < addr + 40
      → Touches off len addr
          (addr + 40)
          (write_end_entry time_addr idx_addr status_addr last_time end_index)
  unfolding le32
  entry-Touches time_addr idx_addr status_addr last_time end_index t1 t2 i1 i2 s1 s2 =
      let status : (s : ℕ)
          → 0 < s
          → s < fdb_tsl_status_num
          → Touches off len addr (addr + 40) (write_status status_addr fdb_tsl_status_num s) =
        λ s p q.
          write_status-Touches off len addr (addr + 40) status_addr fdb_tsl_status_num s p q
            (omega arith) s1 s2 inside in
      let first = write_status status_addr fdb_tsl_status_num fdb_tsl_pre_write in
      let second = write_flash time_addr (le32 last_time) in
      let third = write_flash idx_addr (le32 end_index) in
      let last = write_status status_addr fdb_tsl_status_num fdb_tsl_write in
      >>-Touches off len addr (addr + 40) (first >> second >> third) last
        (>>-Touches off len addr (addr + 40) (first >> second) third
          (>>-Touches off len addr (addr + 40) first second
            (status fdb_tsl_pre_write (omega arith) (omega arith))
            (write_flash-Touches off len addr (addr + 40) time_addr (le32 last_time) t1 t2 inside))
          (write_flash-Touches off len addr (addr + 40) idx_addr (le32 end_index) i1 i2 inside))
        (status fdb_tsl_write (omega arith) (omega arith))

write_end_info-Touches :
    (off len : ℕ) (sector : TsdbSecInfo) (last_time : ℕ)
    → sector.addr + 40 ≤ len
    → len < 0x1_0000_0000
    → Touches off len sector.addr (sector.addr + 40) (write_end_info sector last_time)
unfolding write_end_info
write_end_info-Touches off len sector last_time inside small =
    let addr = sector.addr in
    let end_index = sub32 sector.empty_idx log_idx_data_size in
    if-both (Touches off len addr (addr + 40)) (sector.end_info_stat0 == fdb_tsl_unused)
      (entry-Touches off len addr inside (add32 addr 12) (add32 addr 16) (add32 addr 20) last_time
        end_index (omega arith) (omega arith) (omega arith) (omega arith) (omega arith)
        (omega arith))
      (if-both (Touches off len addr (addr + 40)) (sector.end_info_stat1 == fdb_tsl_unused)
        (entry-Touches off len addr inside (add32 addr 24) (add32 addr 28) (add32 addr 32) last_time
          end_index (omega arith) (omega arith) (omega arith) (omega arith) (omega arith)
          (omega arith))
        (no_write-Touches off len addr (addr + 40)))

-- Closing a sector changes its header only.
pub close_sector-Touches :
    (off len : ℕ) (sector : TsdbSecInfo) (last_time : ℕ)
    → sector.addr + 40 ≤ len
    → len < 0x1_0000_0000
    → Touches off len sector.addr (sector.addr + 40) (close_sector sector last_time)
close_sector-Touches off len sector last_time inside small =
    >>-Touches off len sector.addr (sector.addr + 40) (write_end_info sector last_time)
      (write_status sector.addr store_status_num store_full)
      (write_end_info-Touches off len sector last_time inside small)
      (write_status-Touches off len sector.addr (sector.addr + 40) sector.addr store_status_num
        store_full (omega arith) (omega arith) (omega arith) (omega arith) (omega arith) inside)
