-- ===== src/Tsdb/Series/Refine.antt =====
-- `fdb_tsl_append_with_ts` of FlashDB/src/fdb_tsdb.c implements the appending to a list.
use flashdb_ko.Prelude.{
  ℕ, ◌+◌, ◌≤◌, ◌<◌, ◌≡◌, refl, ap, ◌∙◌, sym, inl, inr, List, [], ◌∷◌, ◌++◌, length, some, true,
  false, ltb, Bool-cases, arith,
}
use flashdb_ko.Prelude.Words.{flip_sign, le_int32}
use flashdb_ko.Storage.{Flash, FdbErr, no_err, is_ok}
use flashdb_ko.Kv.Types.{store_using}
use flashdb_ko.Tsdb.Write.{write_tsl}
use flashdb_ko.Tsdb.Write.RoundTrip.{write_tsl_lem}
use flashdb_ko.Tsdb.State.{FdbTsdb}
use flashdb_ko.Tsdb.Sector.{log_room}
use flashdb_ko.Tsdb.Append.{
  advance, append_here, start_sector, update_sec_status, tsl_append, fdb_tsl_append_with_ts,
}
use flashdb_ko.Tsdb.Logs.{Entry, log_room_lem}
use flashdb_ko.Tsdb.InUse.Append.{flash_after, cells_after, inside_part, InUse-append}
use flashdb_ko.Tsdb.Series.{Above-snoc, last_of-snoc, Holds, append_log}

-- A sector in use with room stays the current one.
pub update_sec_status-room :
    (db : FdbTsdb) (blob : List ℕ) (time : ℕ)
    → db.cur_sec.status ≡ store_using
    → log_room (length blob) ≤ db.cur_sec.remain
    → update_sec_status db blob time ≡ some (no_err, db)
unfolding update_sec_status start_sector
update_sec_status-room db blob time using enough = ground arith

append_here_lem :
    (db : FdbTsdb) (blob : List ℕ) (time : ℕ) (fl : Flash)
    → write_tsl db.flash db.cur_sec blob time ≡ (no_err, fl)
    → append_here db blob time ≡ (
      no_err,
      record db { flash = fl; cur_sec = advance db.cur_sec (length blob) time; last_time = time },
    )
unfolding append_here is_ok
append_here_lem db blob time fl written = rw (append_here, written) refl

-- The log is neither too long nor too early, and `update_sec_status` succeeds.
pub tsl_append_lem :
    (db db' : FdbTsdb) (blob : List ℕ) (time : ℕ)
    → ltb db.max_len (length blob) ≡ false
    → le_int32 time db.last_time ≡ false
    → update_sec_status db blob time ≡ some (no_err, db')
    → tsl_append db blob time ≡ some (append_here db' blob time)
unfolding tsl_append is_ok
tsl_append_lem db db' blob time short later kept = rw (tsl_append, short, later, kept) refl

pub append_with_ts-tsl_append :
    (db : FdbTsdb) (blob : List ℕ) (time : ℕ)
    → db.init_ok ≡ true
    → fdb_tsl_append_with_ts db blob time ≡ tsl_append db blob time
unfolding fdb_tsl_append_with_ts
append_with_ts-tsl_append db blob time ok = ground arith

module _ {db : FdbTsdb} {logs : List Entry} (held : Holds db logs) (blob : List ℕ) (time : ℕ)
    (word : time < 0x1_0000_0000)
    (fits : db.cur_sec.empty_idx + 16 + length blob ≤ db.cur_sec.empty_data) where
  abbrev pub appended : FdbTsdb
  appended = record db {
    flash = flash_after held.in_use blob time fits word;
    cur_sec = advance db.cur_sec (length blob) time;
    last_time = time;
  }

  abbrev more : List Entry
  more = logs ++ (record { time = time; blob = blob } ∷ [])

  appended-Holds : flip_sign db.last_time < flip_sign time → Holds appended more
  appended-Holds later =
      let e : Entry = record { time = time; blob = blob } in
      record {
        cells = cells_after held.in_use blob time fits word;
        since = held.since;
        initialised = held.initialised;
        in_use = InUse-append held.in_use blob time fits word;
        ordered = Above-snoc held.since logs e held.ordered (rw held.last_is at later);
        last_is = sym (last_of-snoc held.since logs e);
      }

  -- The log is written into the current sector.
  pub append_here-Holds :
      flip_sign db.last_time < flip_sign time
      → (append_here db blob time ≡ (no_err, appended)) × Holds appended more
  append_here-Holds later = (
    append_here_lem db blob time appended.flash (
        write_tsl_lem held.in_use.ready db.cur_sec blob time fits
          (inside_part held.in_use blob time fits word)),
    appended-Holds later,
  )

  -- A log that is neither too long nor too early is taken.
  pub taken :
      ltb db.max_len (length blob) ≡ false
      → le_int32 time db.last_time ≡ false
      → (fdb_tsl_append_with_ts db blob time ≡ some (no_err, appended)) × Holds appended more
  taken short later =
      let word' = held.in_use.ready.fits in
      let inside = inside_part held.in_use blob time fits word in
      let rem = held.in_use.remain_is in
      let room : log_room (length blob) ≡ 16 + length blob =
        log_room_lem (length blob) (omega arith) in
      let (written, after) = append_here-Holds (ground arith) in
      (
        append_with_ts-tsl_append db blob time held.initialised
            ∙ tsl_append_lem db db blob time short later
                (update_sec_status-room db blob time held.in_use.using (omega arith))
            ∙ ap (λ (r : FdbErr × FdbTsdb). some r) written,
        after,
      )

-- Where the current sector has room for the log, `fdb_tsl_append_with_ts` returns the error and
-- leads to the logs that appending to the list does: a log that is longer than `max_len`, or not
-- later than the last one, is refused and leaves the logs as they are, and any other is written
-- behind the logs of the sector.
pub append_with_ts-append_log :
    {db : FdbTsdb} {logs : List Entry} (held : Holds db logs) (blob : List ℕ) (time : ℕ)
    → time < 0x1_0000_0000
    → db.cur_sec.empty_idx + 16 + length blob ≤ db.cur_sec.empty_data
    → let promised = append_log db.max_len db.last_time logs blob time in
      (db' : FdbTsdb) × (fdb_tsl_append_with_ts db blob time ≡ some (promised.0, db'))
      × Holds db' promised.1
unfolding append_log fdb_tsl_append_with_ts tsl_append
append_with_ts-append_log {db} {logs} held blob time word fits =
    elim (Bool-cases (ltb db.max_len (length blob))) [
      | inl long ↦ rw long (db, rw (held.initialised, tsl_append, long) refl, held)
      | inr short ↦ elim (Bool-cases (le_int32 time db.last_time)) [
        | inl early ↦
            rw (short, early) (db, rw (held.initialised, tsl_append, short, early) refl, held)
        | inr later ↦
            let (done, after) = taken held blob time word fits short later in
            rw (short, later) (appended held blob time word fits, done, after)
      ]
    ]
