-- ===== src/Tsdb/Series/Run.antt =====
-- A series of calls of `fdb_tsl_append_with_ts` of FlashDB/src/fdb_tsdb.c.
use flashdb_ko.Prelude.{
  ℕ, ◌+◌, ◌*◌, ◌≤◌, ◌<◌, ◌≡◌, refl, ◌∙◌, List, [], ◌∷◌, ◌++◌, length, append-nil, append_assoc,
  Option, some, none, true, false, arith,
}
use flashdb_ko.Prelude.Words.{flip_sign}
use flashdb_ko.Storage.{no_err, is_ok}
use flashdb_ko.Tsdb.State.{FdbTsdb}
use flashdb_ko.Tsdb.Append.{advance, fdb_tsl_append_with_ts}
use flashdb_ko.Tsdb.Logs.{Entry, data_len, advance_lem}
use flashdb_ko.Tsdb.Series.{Above, Holds}
use flashdb_ko.Tsdb.Series.Refine.{appended, taken}

-- The calls in turn, as long as they succeed.
unfoldable pub append_each : FdbTsdb → List Entry → Option FdbTsdb
append_each db [] = some db
append_each db (e ∷ logs) = elim (fdb_tsl_append_with_ts db e.blob e.time) [
  | none ↦ none
  | some (err, db') ↦ elim (is_ok err) [ true ↦ append_each db' logs | false ↦ none ]
]

-- The database takes each of these logs: their times and lengths are words within its bound.
unfoldable pub Fitting : ℕ → List Entry → Type 0
Fitting max_len [] = Unit {0}
Fitting max_len (e ∷ logs) =
    (e.time < 0x1_0000_0000) × (length e.blob ≤ max_len) × Fitting max_len logs

append_each-step :
    (db db' : FdbTsdb) (e : Entry) (logs : List Entry)
    → fdb_tsl_append_with_ts db e.blob e.time ≡ some (no_err, db')
    → append_each db (e ∷ logs) ≡ append_each db' logs
unfolding append_each is_ok
append_each-step db db' e logs done = rw (append_each, done) refl

-- Logs that are not longer than `max_len`, in the order of their times and later than those that
-- are there, for which the current sector has room, are all appended without an error: the database
-- then holds them behind its own.
pub append_each-Holds :
    (more : List Entry) {db : FdbTsdb} {logs : List Entry} (held : Holds db logs)
    → Fitting db.max_len more
    → Above (flip_sign db.last_time) more
    → db.cur_sec.empty_idx + 16 * length more + data_len more ≤ db.cur_sec.empty_data
    → (db' : FdbTsdb) × (append_each db more ≡ some db') × Holds db' (logs ++ more)
unfolding Fitting Above data_len append_each advance
append_each-Holds [] {db} {logs} held fitting above fits = (db, refl, rw (append-nil logs) held)
append_each-Holds (e ∷ more) {db} {logs} held (word, short, fitting) (first, above) fits =
    let fits_one : db.cur_sec.empty_idx + 16 + length e.blob ≤ db.cur_sec.empty_data =
      omega arith in
    let small = held.in_use.ready.fits in
    let inside = held.in_use.inside in
    let ends_at = held.in_use.top_is in
    let (done, held1) = taken held e.blob e.time word fits_one (ground arith) (ground arith) in
    let (idx, top, rem) =
      advance_lem db.cur_sec (length e.blob) e.time (omega arith) fits_one held.in_use.remain_is in
    let (db', ran, held') = append_each-Holds more held1 fitting above (omega (arith, idx, top)) in
    (
      db',
      append_each-step db (appended held e.blob e.time word fits_one) e more done ∙ ran,
      rw (append_assoc logs (e ∷ []) more) at held',
    )
