-- ===== src/Tsdb/Series/Restart.antt =====
-- The end of `fdb_tsdb_init` of FlashDB/src/fdb_tsdb.c: the current sector after a restart.
use flashdb_ko.Prelude.{ℕ, ◌+◌, ◌≤◌, ◌≡◌, refl, ap, ◌∙◌, sym, List, ◌∷◌, some, true, arith}
use flashdb_ko.Storage.{FdbErr}
use flashdb_ko.Kv.Types.{store_using}
use flashdb_ko.Tsdb.Types.{TsdbSecInfo}
use flashdb_ko.Tsdb.State.{FdbTsdb}
use flashdb_ko.Tsdb.Sector.{read_sector_info}
use flashdb_ko.Tsdb.Load.{load_cur_sec, load_last_time}
use flashdb_ko.Tsdb.Logs.{Entry}
use flashdb_ko.Tsdb.Logs.Times.{end_time-advance_all}
use flashdb_ko.Tsdb.InUse.{opened}
use flashdb_ko.Tsdb.InUse.Recover.{read_sector_info-InUse}
use flashdb_ko.Tsdb.Series.{Holds}

load_last_time-using :
    (db : FdbTsdb)
    → db.cur_sec.status ≡ store_using
    → load_last_time db ≡ some (record db { last_time = db.cur_sec.end_time })
unfolding load_last_time
load_last_time-using db using = ground arith

load_cur_sec-read :
    (db : FdbTsdb) (err : FdbErr) (sector : TsdbSecInfo)
    → read_sector_info db.flash db.max_len db.sec_size db.cur_sec.addr db.cur_sec true
      ≡ some (err, sector)
    → load_cur_sec db ≡ load_last_time (record db { cur_sec = sector })
unfolding load_cur_sec
load_cur_sec-read db err sector read = rw (load_cur_sec, read) refl

-- Whatever the rest of memory holds, the flash, the settings and the address are enough.
pub load_cur_sec-found :
    {db : FdbTsdb} {e : Entry} {logs : List Entry} (held : Holds db (e ∷ logs)) (memory : FdbTsdb)
    → db.cur_sec.empty_idx + 16 ≤ db.flash.part.len
    → load_cur_sec (record memory {
      flash = db.flash;
      sec_size = db.sec_size;
      max_len = db.max_len;
      cur_sec = record memory.cur_sec { addr = db.cur_sec.addr };
    })
      ≡ some (record memory {
        flash = db.flash;
        sec_size = db.sec_size;
        max_len = db.max_len;
        cur_sec = db.cur_sec;
        last_time = db.last_time;
      })
load_cur_sec-found {db} {e} {logs} held memory next_inside =
    let known : FdbTsdb = record memory {
      flash = db.flash;
      sec_size = db.sec_size;
      max_len = db.max_len;
      cur_sec = record memory.cur_sec { addr = db.cur_sec.addr };
    } in
    let (err, read) = read_sector_info-InUse held.in_use known.cur_sec next_inside in
    let end_time : db.cur_sec.end_time ≡ db.last_time =
      ap (λ (s : TsdbSecInfo). s.end_time) (sym held.in_use.tracked)
      ∙ end_time-advance_all held.since e logs (opened db.sec_size db.cur_sec db.cur_sec)
      ∙ sym held.last_is in
    load_cur_sec-read known err db.cur_sec read
    ∙ load_last_time-using (record known { cur_sec = db.cur_sec }) held.in_use.using
    ∙ ap (λ (t : ℕ). some (record known { cur_sec = db.cur_sec; last_time = t })) end_time
