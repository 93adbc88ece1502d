-- ===== src/Tsdb/Series/Next.antt =====
-- A log that goes to the next sector: `fdb_tsl_append_with_ts` of FlashDB/src/fdb_tsdb.c where the
-- current sector has no room.
use flashdb_ko.Prelude.{
  ℕ, ◌+◌, ◌%◌, ◌≤◌, ◌<◌, ◌≡◌, refl, ap, ◌∙◌, ◌⊎◌, List, [], ◌∷◌, length, some, ◌||◌, ltb, true,
  arith,
}
use flashdb_ko.Prelude.Words.{add32, flip_sign}
use flashdb_ko.Storage.{FdbErr, no_err}
use flashdb_ko.Storage.Laws.{with_cells}
use flashdb_ko.Kv.Types.{store_full, store_using}
use flashdb_ko.Tsdb.State.{FdbTsdb}
use flashdb_ko.Tsdb.Sector.{log_room}
use flashdb_ko.Tsdb.Sector.Bytes.{info}
use flashdb_ko.Tsdb.Append.{advance, sector_behind, fdb_tsl_append_with_ts}
use flashdb_ko.Tsdb.Logs.{Entry, LogsAt}
use flashdb_ko.Tsdb.Logs.Frame.{LogsAt-frame}
use flashdb_ko.Tsdb.InUse.Append.{cells_after, outside}
use flashdb_ko.Tsdb.Series.{Holds, Above, last_of}
use flashdb_ko.Tsdb.Series.Change.{CanEnter}
use flashdb_ko.Tsdb.Series.Refine.{
  appended, append_here-Holds, tsl_append_lem, append_with_ts-tsl_append,
}
use flashdb_ko.Tsdb.Series.Rollover.{open_next}

-- Where the current sector has no room for a log, it is not the last one or the database rolls
-- over, and the next one, at a multiple of the sector size, lies in the partition and apart from
-- it, and is blank or not called empty by its header: a log that fits an empty sector, is not
-- longer than `max_len` and later than the last one is appended without an error. It is then the
-- only log of the next sector, which is the current one, and the flash still holds the logs of the
-- sector before.
pub append_with_ts-next_sector :
    {db : FdbTsdb} {logs : List Entry} (held : Holds db logs) (blob : List ℕ) (time : ℕ)
    → time < 0x1_0000_0000
    → db.cur_sec.remain < log_room (length blob)
    → (ltb (add32 db.cur_sec.addr db.sec_size) db.max_size || db.rollover) ≡ true
    → sector_behind db db.cur_sec.addr + db.sec_size ≤ db.flash.part.len
    → sector_behind db db.cur_sec.addr % db.sec_size ≡ 0
    → (sector_behind db db.cur_sec.addr + db.sec_size ≤ db.cur_sec.addr)
      ⊎ (db.cur_sec.addr + db.sec_size ≤ sector_behind db db.cur_sec.addr)
    → CanEnter
        (record db { cur_sec = record db.cur_sec { status = store_full } })
        held.cells
        (sector_behind db db.cur_sec.addr)
    → length blob ≤ db.max_len
    → flip_sign db.last_time < flip_sign time
    → 40 + 16 + length blob ≤ db.sec_size
    → (db' : FdbTsdb) × (fdb_tsl_append_with_ts db blob time ≡ some (no_err, db'))
      × Holds db' (record { time = time; blob = blob } ∷ [])
      × (db'.cur_sec.addr ≡ sector_behind db db.cur_sec.addr)
      × LogsAt db'.flash db.max_len (db.cur_sec.addr + 40) (db.cur_sec.addr + db.sec_size) logs
unfolding Above last_of advance
append_with_ts-next_sector {db} {logs} held blob time word full more next_inside aligned apart free
      short later fits =
    let next = sector_behind db db.cur_sec.addr in
    let (m3, oldest, old, (changed, in_use, kept)) =
      open_next held blob time word full more next_inside apart aligned free in
    let db3 : FdbTsdb = record db {
      oldest_addr = oldest;
      flash = with_cells db.flash m3;
      cur_sec = info db.sec_size next store_using time old;
    } in
    let held3 : Holds db3 [] = record {
      cells = m3;
      since = db.last_time;
      initialised = held.initialised;
      in_use = in_use;
      ordered = tt;
      last_is = refl;
    } in
    let fits3 : next + 40 + 16 + length blob ≤ next + db.sec_size = omega arith in
    let m4 = cells_after in_use blob time fits3 word in
    let here = held.in_use.idx_is in
    let ends_at = held.in_use.top_is in
    let in_order = held.in_use.room in
    let inside = held.in_use.inside in
    let same : (x : ℕ)
        → db.flash.part.offset + db.cur_sec.addr + 40 ≤ x
        → x < db.flash.part.offset + db.cur_sec.addr + db.sec_size
        → m4 x ≡ held.cells x =
      λ x p q. outside in_use blob time fits3 word x (ground arith) (ground arith) ∙ kept x p q in
    let (written, after) = append_here-Holds held3 blob time word fits3 later in
    (
      appended held3 blob time word fits3,
      append_with_ts-tsl_append db blob time held.initialised
          ∙ tsl_append_lem db db3 blob time (ground arith) (ground arith) changed
          ∙ ap (λ (r : FdbErr × FdbTsdb). some r) written,
      after,
      refl,
      LogsAt-frame held.in_use.ready m4 db.max_len (db.cur_sec.addr + 40)
          (db.cur_sec.addr + db.sec_size) logs (omega arith) (omega arith) (omega arith)
          (λ x p q. same x (omega arith) (omega arith))
          (λ x p q. same x (omega arith) (omega arith)) held.in_use.held,
    )
