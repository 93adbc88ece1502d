-- ===== src/Tsdb/Append.antt =====
-- Appending a log: `update_sec_status`, `tsl_append`, `fdb_tsl_append` and
-- `fdb_tsl_append_with_ts` of FlashDB/src/fdb_tsdb.c. The parameter `sector` of `update_sec_status`
-- is `&db->cur_sec` at its only call, so it is read and changed as `cur_sec` here.
use flashdb_ko.Prelude.{
  ℕ, List, Option, none, some, true, false, ◌&&◌, ◌||◌, ◌==◌, ltb, if◌then◌else◌, length,
}
use flashdb_ko.Prelude.Words.{add32, sub32, wg_align, le_int32}
use flashdb_ko.Bytes.{le32}
use flashdb_ko.Storage.{FdbErr, no_err, write_err, saved_full, init_failed, is_ok}
use flashdb_ko.Kv.Types.{store_empty, store_using, store_full, store_status_num}
use flashdb_ko.Tsdb.Types.{
  TsdbSecInfo, fdb_tsl_unused, fdb_tsl_pre_write, fdb_tsl_write, fdb_tsl_status_num,
  log_idx_data_size,
}
use flashdb_ko.Tsdb.Write.{write_tsl}
use flashdb_ko.Tsdb.State.{FdbTsdb, Writes, ◌>>◌, no_write, write_status, write_flash}
use flashdb_ko.Tsdb.Sector.{log_room, read_sector_info, format_sector}

-- One `end_info` entry, whose time, index and status stand at the given addresses.
abbrev pub write_end_entry : ℕ → ℕ → ℕ → ℕ → ℕ → Writes
write_end_entry time_addr idx_addr status_addr last_time end_index =
    write_status status_addr fdb_tsl_status_num fdb_tsl_pre_write
    >> write_flash time_addr (le32 last_time)
    >> write_flash idx_addr (le32 end_index)
    >> write_status status_addr fdb_tsl_status_num fdb_tsl_write

-- The end node of a sector, in the first `end_info` entry that is unused.
unfoldable pub write_end_info : TsdbSecInfo → ℕ → Writes
write_end_info sector last_time =
    let end_index = sub32 sector.empty_idx log_idx_data_size in
    let addr = sector.addr in
    if sector.end_info_stat0 == fdb_tsl_unused
    then write_end_entry (add32 addr 12) (add32 addr 16) (add32 addr 20) last_time end_index
    else if sector.end_info_stat1 == fdb_tsl_unused
    then write_end_entry (add32 addr 24) (add32 addr 28) (add32 addr 32) last_time end_index
    else no_write

-- The writes that make the current sector full.
abbrev pub close_sector : TsdbSecInfo → ℕ → Writes
close_sector sector last_time =
    write_end_info sector last_time >> write_status sector.addr store_status_num store_full

-- The writes that put an empty sector in use.
abbrev pub open_sector : ℕ → ℕ → Writes
open_sector addr cur_time =
    write_status addr store_status_num store_using >> write_flash (add32 addr 8) (le32 cur_time)

-- The end of `update_sec_status`.
unfoldable pub start_sector : FdbTsdb → ℕ → FdbErr × FdbTsdb
start_sector db cur_time =
    let sector = record db.cur_sec { status = store_using; start_time = cur_time } in
    let (err, fl) = open_sector sector.addr cur_time db.flash in
    if db.cur_sec.status == store_empty
    then (err, record db { flash = fl; cur_sec = sector })
    else (no_err, db)

-- The address behind a sector, or the first one.
unfoldable pub sector_behind : FdbTsdb → ℕ → ℕ
sector_behind db addr =
    if ltb (add32 addr db.sec_size) db.max_size then add32 addr db.sec_size else 0

-- The sector that was read is not empty: it is formatted, and read again.
unfoldable pub reuse_sector : FdbTsdb → ℕ → Option FdbTsdb
unfolding sector_behind
reuse_sector db addr = elim (format_sector db.sec_size addr db.flash) [
  | none ↦ none
  | some (_, fl) ↦ elim (read_sector_info fl db.max_len db.sec_size addr db.cur_sec false) [
    | none ↦ none
    | some (_, sector) ↦
        some (record db { oldest_addr = sector_behind db addr; flash = fl; cur_sec = sector })
  ]
]

-- The current sector becomes the one at an address, with no log in it.
unfoldable pub enter_sector : FdbTsdb → ℕ → Option FdbTsdb
enter_sector db addr =
    elim (read_sector_info db.flash db.max_len db.sec_size addr db.cur_sec false) [
      | none ↦ none
      | some (_, sector) ↦
          let db' = record db { cur_sec = sector } in
          elim (sector.status == store_empty) [ true ↦ some db' | false ↦ reuse_sector db' addr ]
    ]

-- The change to the next sector, once the current one is full.
unfoldable pub next_cur_sec : FdbTsdb → ℕ → Option (FdbErr × FdbTsdb)
unfolding start_sector sector_behind
next_cur_sec db cur_time =
    let full = record db { cur_sec = record db.cur_sec { status = store_full } } in
    elim (ltb (add32 db.cur_sec.addr db.sec_size) db.max_size || db.rollover) [
      | false ↦ some (saved_full, full)
      | true ↦ elim (enter_sector full (sector_behind db db.cur_sec.addr)) [
        | none ↦ none
        | some db' ↦ some (start_sector db' cur_time)
      ]
    ]

-- `update_sec_status`
unfoldable pub update_sec_status : FdbTsdb → List ℕ → ℕ → Option (FdbErr × FdbTsdb)
unfolding start_sector
update_sec_status db blob cur_time =
    let sector = db.cur_sec in
    elim (sector.status == store_using && ltb sector.remain (log_room (length blob))) [
      | true ↦
          let (err, fl) = close_sector sector db.last_time db.flash in
          elim (is_ok err) [
            | true ↦ next_cur_sec (record db { flash = fl }) cur_time
            | false ↦ some (err, record db { flash = fl })
          ]
      | false ↦
          if sector.status == store_full
          then some (saved_full, db)
          else some (start_sector db cur_time)
    ]

-- What `tsl_append` makes of the current sector once the log is written.
unfoldable pub advance : TsdbSecInfo → ℕ → ℕ → TsdbSecInfo
advance sector len time = record sector {
  end_idx = sector.empty_idx;
  end_time = time;
  empty_idx = add32 sector.empty_idx log_idx_data_size;
  empty_data = sub32 sector.empty_data (wg_align len);
  remain = sub32 sector.remain (log_room len);
}

-- The log goes into the current sector, which has room.
unfoldable pub append_here : FdbTsdb → List ℕ → ℕ → FdbErr × FdbTsdb
unfolding advance
append_here db blob cur_time =
    let (err, fl) = write_tsl db.flash db.cur_sec blob cur_time in
    if is_ok err
    then (
      err,
      record db {
        flash = fl;
        cur_sec = advance db.cur_sec (length blob) cur_time;
        last_time = cur_time;
      },
    )
    else (err, record db { flash = fl })

-- `tsl_append`, with the timestamp that the caller gave or `get_time` returned.
unfoldable pub tsl_append : FdbTsdb → List ℕ → ℕ → Option (FdbErr × FdbTsdb)
unfolding append_here
tsl_append db blob cur_time = elim (ltb db.max_len (length blob)) [
  | true ↦ some (write_err, db)
  | false ↦ elim (le_int32 cur_time db.last_time) [
    | true ↦ some (write_err, db)
    | false ↦ elim (update_sec_status db blob cur_time) [
      | none ↦ none
      | some (err, db') ↦ elim (is_ok err) [
        | true ↦ some (append_here db' blob cur_time)
        | false ↦ some (err, db')
      ]
    ]
  ]
]

-- `fdb_tsl_append_with_ts`, and `fdb_tsl_append` with what `get_time` returns.
unfoldable pub fdb_tsl_append_with_ts : FdbTsdb → List ℕ → ℕ → Option (FdbErr × FdbTsdb)
fdb_tsl_append_with_ts db blob timestamp = elim db.init_ok [
  | true ↦ tsl_append db blob timestamp
  | false ↦ some (init_failed, db)
]

unfoldable pub fdb_tsl_append : FdbTsdb → (Unit {0} → ℕ) → List ℕ → Option (FdbErr × FdbTsdb)
fdb_tsl_append db get_time blob = elim db.init_ok [
  | true ↦ tsl_append db blob (get_time tt)
  | false ↦ some (init_failed, db)
]
