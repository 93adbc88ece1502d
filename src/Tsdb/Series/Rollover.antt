-- ===== src/Tsdb/Series/Rollover.antt =====
-- Appending a log for which the current sector has no room: FlashDB/src/fdb_tsdb.c.
use flashdb_ko.Prelude.{
  ℕ, ◌+◌, ◌%◌, ◌≤◌, ◌<◌, ◌≡◌, refl, ap, ◌∙◌, ◌⊎◌, inl, inr, List, [], length, some, ◌==◌, ◌||◌, ltb,
  true, arith,
}
use flashdb_ko.Prelude.Words.{add32}
use flashdb_ko.Storage.{Flash, FdbErr, no_err, is_ok}
use flashdb_ko.Storage.Laws.{with_cells, with_cells-Ready}
use flashdb_ko.Kv.Types.{store_empty, store_using, store_full}
use flashdb_ko.Tsdb.Types.{TsdbSecInfo}
use flashdb_ko.Tsdb.State.{FdbTsdb}
use flashdb_ko.Tsdb.Sector.{log_room}
use flashdb_ko.Tsdb.Sector.Bytes.{info}
use flashdb_ko.Tsdb.Sector.Format.{Blank-frame}
use flashdb_ko.Tsdb.Sector.Header.{read_sector_info-cong}
use flashdb_ko.Tsdb.Append.{
  close_sector, start_sector, sector_behind, enter_sector, next_cur_sec, update_sec_status,
}
use flashdb_ko.Tsdb.Logs.{Entry}
use flashdb_ko.Tsdb.Logs.Frame.{fetch-same}
use flashdb_ko.Tsdb.InUse.{InUse}
use flashdb_ko.Tsdb.InUse.Open.{
  opened_cells, open_sector_lem, opened-InUse, opened_cells-outside, start_sector_lem,
}
use flashdb_ko.Tsdb.Series.{Holds}
use flashdb_ko.Tsdb.Series.Close.{close_sector-Touches}
use flashdb_ko.Tsdb.Series.Change.{CanEnter, enter_sector-Entered}

-- The database whose current sector is marked full, on the flash `fl`.
abbrev pub closed : FdbTsdb → Flash → FdbTsdb
closed db fl = record db { flash = fl; cur_sec = record db.cur_sec { status = store_full } }

-- `update_sec_status` of a sector in use without room, as its steps.
update_sec_status-full :
    (db db' : FdbTsdb) (blob : List ℕ) (time : ℕ) (fl : Flash)
    → db.cur_sec.status ≡ store_using
    → db.cur_sec.remain < log_room (length blob)
    → close_sector db.cur_sec db.last_time db.flash ≡ (no_err, fl)
    → (ltb (add32 db.cur_sec.addr db.sec_size) db.max_size || db.rollover) ≡ true
    → enter_sector (closed db fl) (sector_behind db db.cur_sec.addr) ≡ some db'
    → update_sec_status db blob time ≡ some (start_sector db' time)
unfolding update_sec_status next_cur_sec is_ok sector_behind
update_sec_status-full db db' blob time fl using full closing more entered =
    let use_it : (db.cur_sec.status == store_using) ≡ true = ground arith in
    let none_left : ltb db.cur_sec.remain (log_room (length blob)) ≡ true = ground arith in
    rw (update_sec_status, use_it, none_left, closing, next_cur_sec, more, closing, entered) refl

module _ {db : FdbTsdb} {logs : List Entry} (held : Holds db logs) (blob : List ℕ) (time : ℕ)
    (word : time < 0x1_0000_0000) (full : db.cur_sec.remain < log_room (length blob))
    (more : (ltb (add32 db.cur_sec.addr db.sec_size) db.max_size || db.rollover) ≡ true)
    (next_inside : sector_behind db db.cur_sec.addr + db.sec_size ≤ db.flash.part.len)
    (apart : (sector_behind db db.cur_sec.addr + db.sec_size ≤ db.cur_sec.addr)
      ⊎ (db.cur_sec.addr + db.sec_size ≤ sector_behind db db.cur_sec.addr)) where
  abbrev pub next : ℕ
  next = sector_behind db db.cur_sec.addr

  -- The current sector is closed, and its neighbours keep their bytes.
  pub closing :
      (m1 : ℕ → ℕ) × (close_sector db.cur_sec db.last_time db.flash
        ≡ (no_err, with_cells db.flash m1))
      × ((x : ℕ)
          → (x < db.flash.part.offset + db.cur_sec.addr)
            ⊎ (db.flash.part.offset + (db.cur_sec.addr + 40) ≤ x)
          → m1 x ≡ held.cells x)
  closing =
      let small = held.in_use.ready.fits in
      let inside = held.in_use.inside in
      let wide = held.in_use.wide in
      close_sector-Touches db.flash.part.offset db.flash.part.len db.cur_sec db.last_time
        (omega arith) (omega arith) db.flash held.cells held.in_use.ready refl refl

  abbrev pub m1 : ℕ → ℕ
  m1 = closing.0

  abbrev pub db1 : FdbTsdb
  db1 = closed db (with_cells db.flash m1)

  -- What could be entered before can be entered still.
  can_enter : CanEnter (record db { cur_sec = db1.cur_sec }) held.cells next → CanEnter db1 m1 next
  can_enter (inl blank) =
      let wide = held.in_use.wide in
      inl (Blank-frame blank m1 (λ x p q. closing.2 x (ground arith)))
  can_enter (inr (err, sector, read, used)) =
      let wide = held.in_use.wide in
      inr (
        err,
        sector,
        read_sector_info-cong db.flash db1.flash db.max_len db.sec_size next db1.cur_sec (
              fetch-same held.in_use.ready m1 next 40 (omega arith)
                (λ x p q. closing.2 x (ground arith)))
            ∙ read,
        used,
      )

  -- The next sector is in use without a log, and the flash outside it and outside the header of
  -- the closed sector is as before.
  abbrev pub Opened : Type 0
  Opened =
      (m3 : ℕ → ℕ) × (oldest : ℕ) × (old : TsdbSecInfo) × let db3 = record db {
        oldest_addr = oldest;
        flash = with_cells db.flash m3;
        cur_sec = info db.sec_size next store_using time old;
      } in
        (update_sec_status db blob time ≡ some (no_err, db3))
        × InUse db3.flash m3 db.max_len db.sec_size db3.cur_sec []
        × ((x : ℕ)
            → db.flash.part.offset + db.cur_sec.addr + 40 ≤ x
            → x < db.flash.part.offset + db.cur_sec.addr + db.sec_size
            → m3 x ≡ held.cells x)

  pub open_next :
      next % db.sec_size ≡ 0
      → CanEnter (record db { cur_sec = db1.cur_sec }) held.cells next
      → Opened
  open_next aligned free =
      let wide = held.in_use.wide in
      let (m2, old, oldest, entered, blank, same) =
        enter_sector-Entered db1 (with_cells-Ready m1 held.in_use.ready) next next_inside wide
          aligned (can_enter free) in
      let db2 : FdbTsdb = record db1 {
        oldest_addr = oldest;
        flash = with_cells db.flash m2;
        cur_sec = info db.sec_size next store_empty 0xffff_ffff old;
      } in
      (
        opened_cells m2 (db.flash.part.offset + next) time,
        oldest,
        old,
        (
          update_sec_status-full db db2 blob time (with_cells db.flash m1) held.in_use.using full
                closing.1 more entered
              ∙ ap (λ (r : FdbErr × FdbTsdb). some r)
                  (start_sector_lem db2 time
                    (with_cells db.flash (opened_cells m2 (db.flash.part.offset + next) time)) refl
                    (open_sector_lem blank time)),
          opened-InUse blank time db.max_len old word,
          λ x p q.
              opened_cells-outside m2 (db.flash.part.offset + next) time x (ground arith)
              ∙ same x (ground arith)
              ∙ closing.2 x (inr (omega arith)),
        ),
      )
