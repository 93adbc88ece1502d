-- ===== src/Tsdb/Series/Start.antt =====
-- `fdb_tsdb_init` of FlashDB/src/fdb_tsdb.c on a database that holds logs: the check of all sectors
-- finds the current one.
use flashdb_ko.Prelude.{
  ℕ, suc, ◌+◌, ◌≤◌, ◌<◌, ◌≡◌, refl, ap, ◌∙◌, List, ◌∷◌, some, true, false, ◌||◌, ◌==◌, arith, ltb,
  if◌then◌else◌,
}
use flashdb_ko.Prelude.Words.{sub32, failed_addr}
use flashdb_ko.Storage.{no_err, is_ok}
use flashdb_ko.Kv.Types.{store_unused}
use flashdb_ko.Tsdb.Types.{TsdbSecInfo}
use flashdb_ko.Tsdb.State.{FdbTsdb}
use flashdb_ko.Tsdb.Visit.{sector_iterator}
use flashdb_ko.Tsdb.Load.{
  CheckSecHdrCbArgs, check_sec_hdr_cb, place_sectors, load_cur_sec, load_sectors, fdb_tsdb_init,
}
use flashdb_ko.Tsdb.Logs.{Entry}
use flashdb_ko.Tsdb.InUse.{opened}
use flashdb_ko.Tsdb.InUse.Recover.{read_sector_info-InUse}
use flashdb_ko.Tsdb.Series.{Holds}
use flashdb_ko.Tsdb.Series.Restart.{load_cur_sec-found}
use flashdb_ko.Tsdb.Series.Others.{Others, Others-count}
use flashdb_ko.Tsdb.Series.Scan.{check_all}

-- The database as `_fdb_init_ex` leaves it: the flash and the sizes are known, the rest of memory is
-- left open.
abbrev pub reopened : FdbTsdb → FdbTsdb → FdbTsdb
reopened db memory = record memory {
  flash = db.flash;
  sec_size = db.sec_size;
  max_size = db.max_size;
}

-- The database after the start.
abbrev pub started : FdbTsdb → FdbTsdb → ℕ → FdbTsdb
started db memory oldest_addr = record db {
  oldest_addr = oldest_addr;
  init_ok = true;
  not_formatable = memory.not_formatable;
  rollover = true;
  junk = memory.junk;
}

load_sectors-run :
    (fresh : FdbTsdb) (cur : TsdbSecInfo) (r : CheckSecHdrCbArgs) (loaded : FdbTsdb)
    → sector_iterator fresh
        (record fresh.junk { addr = 0 })
        store_unused
        (record { check_failed = false; empty_num = 0; empty_addr = 0 })
        check_sec_hdr_cb
        true
      ≡ some (record fresh { cur_sec = cur }, r)
    → r.check_failed ≡ false
    → load_cur_sec (place_sectors (record fresh { cur_sec = cur }) r) ≡ some loaded
    → load_sectors fresh ≡ some (no_err, loaded)
unfolding load_sectors
load_sectors-run fresh cur r loaded run good load = rw (load_sectors, run, good, good, load) refl

place_sectors-using :
    (fresh : FdbTsdb) (r : CheckSecHdrCbArgs)
    → fresh.rollover ≡ true
    → (oldest : ℕ) × (place_sectors fresh r ≡ record fresh { oldest_addr = oldest })
unfolding place_sectors
place_sectors-using fresh r rolls =
    let bottom = sub32 fresh.max_size fresh.sec_size in
    let stays : (if ltb 0 r.empty_num || fresh.rollover then fresh.cur_sec.addr else bottom)
        ≡ fresh.cur_sec.addr =
      ground arith in
    (
      (place_sectors fresh r).oldest_addr,
      ap (λ (x : ℕ). record (place_sectors fresh r) { cur_sec = record fresh.cur_sec { addr = x } })
          stays,
    )

-- The sectors of a database that has been written from the first one on: those before the current
-- one are neither in use nor empty, those behind it are not in use, and their headers are right.
pub record Placed (db : FdbTsdb) : Type 0 where
  pub before : ℕ
  pub after : ℕ
  pub full : Others db true 0 before db.cur_sec.addr
  pub idle : Others db false (db.cur_sec.addr + db.sec_size) after db.max_size
  pub checked : db.cur_sec.check_ok ≡ true
  pub inside : db.max_size ≤ db.flash.part.len

check-Placed :
    {db : FdbTsdb} {e : Entry} {logs : List Entry} (held : Holds db (e ∷ logs)) (others : Placed db)
    (fresh : FdbTsdb) (args : CheckSecHdrCbArgs)
    → db.cur_sec.empty_idx + 16 ≤ db.flash.part.len
    → (fresh.cur_sec.addr == failed_addr) ≡ true
    → (r : CheckSecHdrCbArgs) × (sector_iterator
          (record fresh {
            flash = db.flash;
            sec_size = db.sec_size;
            max_size = db.max_size;
            max_len = db.max_len;
          })
          (record fresh.junk { addr = 0 })
          store_unused
          args
          check_sec_hdr_cb
          true
        ≡ some (
          record fresh {
            flash = db.flash;
            sec_size = db.sec_size;
            max_size = db.max_size;
            max_len = db.max_len;
            cur_sec = db.cur_sec;
          },
          r,
        ))
      × (r.check_failed ≡ args.check_failed)
unfolding sector_iterator
check-Placed {db} held others fresh args next_inside unset =
    let wide = held.in_use.wide in
    let word = held.in_use.ready.fits in
    let inside = others.inside in
    let low = Others-count db true others.before 0 db.cur_sec.addr (omega arith) others.full in
    let high =
      Others-count db false others.after (db.cur_sec.addr + db.sec_size) db.max_size (omega arith)
        others.idle in
    check_all db.cur_sec others.after others.before (suc db.max_size) 0
      (record fresh.junk { addr = 0 })
      (record fresh {
        flash = db.flash;
        sec_size = db.sec_size;
        max_size = db.max_size;
        max_len = db.max_len;
      })
      args (omega arith) unset
      (λ o.
        let t = opened db.sec_size db.cur_sec o in
        let (err, second) = read_sector_info-InUse held.in_use t next_inside in
        (no_err, t, err, held.in_use.header o, second))
      others.checked held.in_use.using (omega arith) (omega arith) others.full others.idle

fdb_tsdb_init-run :
    (db : FdbTsdb) (max_len : ℕ) (loaded : FdbTsdb)
    → max_len < db.sec_size
    → load_sectors (record db {
      max_len = max_len;
      rollover = true;
      oldest_addr = failed_addr;
      cur_sec = record db.cur_sec { addr = failed_addr };
    })
      ≡ some (no_err, loaded)
    → fdb_tsdb_init db no_err max_len ≡ some (no_err, record loaded { init_ok = true })
unfolding fdb_tsdb_init is_ok
fdb_tsdb_init-run db max_len loaded short run =
    let below : ltb max_len db.sec_size ≡ true = ground arith in rw (fdb_tsdb_init, below, run) refl

started-Holds :
    {db : FdbTsdb} {logs : List Entry} (held : Holds db logs) (memory : FdbTsdb) (oldest_addr : ℕ)
    → Holds (started db memory oldest_addr) logs
started-Holds held memory oldest_addr = record {
  cells = held.cells;
  since = held.since;
  initialised = refl;
  in_use = held.in_use;
  ordered = held.ordered;
  last_is = held.last_is;
}

-- A database holds logs in its current sector, the next index would lie in the partition, and so
-- does the database. Its headers are right; the sectors before the current one are neither in use
-- nor empty, and those behind it are not in use. When `fdb_tsdb_init` starts it again behind
-- `_fdb_init_ex`, with any contents of memory but the flash and the sizes, and with the length
-- limit of before, which is less than the sector size, it finds the current sector among all of
-- them, with the information that was in memory, and the last time: the database holds the logs
-- again. Which sector it takes for the oldest one is left open.
pub fdb_tsdb_init-Holds :
    {db : FdbTsdb} {e : Entry} {logs : List Entry} (held : Holds db (e ∷ logs)) (memory : FdbTsdb)
    → Placed db
    → db.max_len < db.sec_size
    → db.cur_sec.empty_idx + 16 ≤ db.flash.part.len
    → (oldest_addr : ℕ) × (fdb_tsdb_init (reopened db memory) no_err db.max_len
        ≡ some (no_err, started db memory oldest_addr))
      × Holds (started db memory oldest_addr) (e ∷ logs)
fdb_tsdb_init-Holds {db} held memory others short next_inside =
    let fresh0 : FdbTsdb = record memory {
      rollover = true;
      oldest_addr = failed_addr;
      cur_sec = record memory.cur_sec { addr = failed_addr };
    } in
    let taken : FdbTsdb = record fresh0 {
      flash = db.flash;
      sec_size = db.sec_size;
      max_size = db.max_size;
      max_len = db.max_len;
      cur_sec = db.cur_sec;
    } in
    let (r, run, good) =
      check-Placed held others fresh0
        (record { check_failed = false; empty_num = 0; empty_addr = 0 }) next_inside refl in
    let (oldest_addr, placed) = place_sectors-using taken r refl in
    let load =
      ap load_cur_sec placed
      ∙ load_cur_sec-found held (record taken { oldest_addr = oldest_addr }) next_inside in
    let loaded : FdbTsdb = record taken { oldest_addr = oldest_addr; last_time = db.last_time } in
    (
      oldest_addr,
      fdb_tsdb_init-run (reopened db memory) db.max_len loaded short (
          load_sectors-run (record taken { cur_sec = fresh0.cur_sec }) db.cur_sec r loaded run good
            load),
      started-Holds held memory oldest_addr,
    )
