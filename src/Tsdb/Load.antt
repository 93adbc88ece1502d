-- ===== src/Tsdb/Load.antt =====
-- Formatting, options and start-up of the time series database: FlashDB/src/fdb_tsdb.c, over the
-- start-up of a database in FlashDB/src/fdb.c. `none` means that the function does not return.
use flashdb_ko.Prelude.{
  ℕ, ◌+◌, Option, none, some, Bool, true, false, not, ◌&&◌, ◌||◌, ◌==◌, ltb, leb, if◌then◌else◌,
}
use flashdb_ko.Prelude.Words.{add32, sub32, failed_addr}
use flashdb_ko.Storage.{FdbErr, no_err, read_err, is_ok}
use flashdb_ko.Kv.Types.{store_unused, store_empty, store_using}
use flashdb_ko.Tsdb.Types.{TsdbSecInfo}
use flashdb_ko.Tsdb.State.{FdbTsdb}
use flashdb_ko.Tsdb.Sector.{read_sector_info, format_sector}
use flashdb_ko.Tsdb.Visit.{sector_iterator}

-- `struct check_sec_hdr_cb_args`
pub record CheckSecHdrCbArgs : Type 0 where
  pub check_failed : Bool
  pub empty_num : ℕ
  pub empty_addr : ℕ

-- `check_sec_hdr_cb`
unfoldable pub check_sec_hdr_cb :
    TsdbSecInfo → FdbTsdb → CheckSecHdrCbArgs → Option (Bool × FdbTsdb × CheckSecHdrCbArgs)
check_sec_hdr_cb sector db arg =
    let unset = db.cur_sec.addr == failed_addr in
    let failed = record arg { check_failed = true } in
    let taken = record db { cur_sec = sector } in
    let empty_num = arg.empty_num + 1 in
    let counted = record arg { empty_num = empty_num; empty_addr = sector.addr } in
    some (
      if not sector.check_ok
      then (true, db, failed)
      else if sector.status == store_using
      then (if unset then (false, taken, arg) else (true, db, failed))
      else if sector.status == store_empty
      then (false, (if empty_num == 1 && unset then taken else db), counted)
      else (false, db, arg))

-- `format_all_cb`
unfoldable pub format_all_cb : TsdbSecInfo → FdbTsdb → Unit {0} → Option (Bool × FdbTsdb × Unit {0})
format_all_cb sector db arg = elim (format_sector db.sec_size sector.addr db.flash) [
  | none ↦ none
  | some (_, fl) ↦ some (false, record db { flash = fl }, arg)
]

-- `tsl_format_all`
unfoldable pub tsl_format_all : FdbTsdb → Option FdbTsdb
unfolding sector_iterator format_all_cb
tsl_format_all db =
    elim (sector_iterator db (record db.junk { addr = 0 }) store_unused tt format_all_cb false) [
      | none ↦ none
      | some (db', _) ↦
          let fresh = record db'.cur_sec { addr = 0 } in
          elim (read_sector_info db'.flash db'.max_len db'.sec_size 0 fresh false) [
            | none ↦ none
            | some (_, sector) ↦
                some (record db' { oldest_addr = 0; last_time = 0; cur_sec = sector })
          ]
    ]

-- `fdb_tsl_clean`
unfoldable pub fdb_tsl_clean : FdbTsdb → Option FdbTsdb
unfolding tsl_format_all
fdb_tsl_clean db = tsl_format_all db

-- The sector that is oldest, where the one at `latest_addr` is the latest.
unfoldable pub oldest_behind : FdbTsdb → ℕ → ℕ
oldest_behind db latest_addr =
    if leb db.max_size (add32 latest_addr db.sec_size) then 0 else add32 latest_addr db.sec_size

-- What `fdb_tsdb_init` makes of headers that passed the check: the current and the oldest sector.
unfoldable pub place_sectors : FdbTsdb → CheckSecHdrCbArgs → FdbTsdb
unfolding oldest_behind
place_sectors db arg =
    let bottom = sub32 db.max_size db.sec_size in
    let latest_addr =
      if ltb 0 arg.empty_num
      then arg.empty_addr
      else if db.rollover
      then db.cur_sec.addr
      else bottom in
    let cur_addr = if ltb 0 arg.empty_num || db.rollover then db.cur_sec.addr else bottom in
    record db {
      cur_sec = record db.cur_sec { addr = cur_addr };
      oldest_addr = oldest_behind db latest_addr;
    }

-- The last time is the one of the current sector, or of the sector before an empty one.
unfoldable pub load_last_time : FdbTsdb → Option FdbTsdb
load_last_time db =
    let addr = db.cur_sec.addr in
    let before = if addr == 0 then sub32 db.max_size db.sec_size else sub32 addr db.sec_size in
    let look_before = db.cur_sec.status == store_empty && not (db.oldest_addr == addr) in
    elim (db.cur_sec.status == store_using) [
      | true ↦ some (record db { last_time = db.cur_sec.end_time })
      | false ↦ elim look_before [
        | false ↦ some db
        | true ↦ elim (read_sector_info db.flash db.max_len db.sec_size before db.junk false) [
          | none ↦ none
          | some (_, sec) ↦ some (record db { last_time = sec.end_time })
        ]
      ]
    ]

-- The current sector is read with its logs, and the last time is set.
unfoldable pub load_cur_sec : FdbTsdb → Option FdbTsdb
unfolding load_last_time
load_cur_sec db =
    elim (read_sector_info db.flash db.max_len db.sec_size db.cur_sec.addr db.cur_sec true) [
      | none ↦ none
      | some (_, sector) ↦ load_last_time (record db { cur_sec = sector })
    ]

-- `fdb_tsdb_init` behind its assertion: the check of the sectors, and the current one.
unfoldable pub load_sectors : FdbTsdb → Option (FdbErr × FdbTsdb)
unfolding sector_iterator check_sec_hdr_cb tsl_format_all place_sectors load_cur_sec
load_sectors fresh =
    let args : CheckSecHdrCbArgs = record { check_failed = false; empty_num = 0; empty_addr = 0 } in
    let start = record fresh.junk { addr = 0 } in
    elim (sector_iterator fresh start store_unused args check_sec_hdr_cb true) [
      | none ↦ none
      | some (db', arg) ↦ elim (arg.check_failed && db'.not_formatable) [
        | true ↦ some (read_err, db')
        | false ↦
            elim (if arg.check_failed then tsl_format_all db' else some (place_sectors db' arg)) [
              | none ↦ none
              | some placed ↦ elim (load_cur_sec placed) [
                | none ↦ none
                | some loaded ↦ some (no_err, loaded)
              ]
            ]
      ]
    ]

-- `fdb_tsdb_init` behind `_fdb_init_ex`, whose error is `result`, up to `_fdb_init_finish`.
unfoldable pub fdb_tsdb_init : FdbTsdb → FdbErr → ℕ → Option (FdbErr × FdbTsdb)
unfolding load_sectors
fdb_tsdb_init db result max_len =
    let fresh = record db {
      max_len = max_len;
      rollover = true;
      oldest_addr = failed_addr;
      cur_sec = record db.cur_sec { addr = failed_addr };
    } in
    elim (is_ok result) [
      | false ↦ some (result, db)
      | true ↦ elim (ltb max_len db.sec_size) [
        | false ↦ none
        | true ↦ elim (load_sectors fresh) [
          | none ↦ none
          | some (err, db') ↦
              some (err, record db' { init_ok = if is_ok err then true else db'.init_ok })
        ]
      ]
    ]

-- `fdb_tsdb_deinit`
unfoldable pub fdb_tsdb_deinit : FdbTsdb → FdbErr × FdbTsdb
fdb_tsdb_deinit db = (no_err, record db { init_ok = false })
