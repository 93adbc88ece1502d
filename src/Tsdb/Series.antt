-- ===== src/Tsdb/Series.antt =====
-- The current sector of a time series database as an ordered list of logs, and appending to it.
pub mod Refine
pub mod Close
pub mod Change
pub mod Rollover
pub mod Next
pub mod Others
pub mod Scan
pub mod Start
pub mod Bounds
pub mod Restart
pub mod Run
pub mod Reach
use flashdb_ko.Prelude.{
  ℕ, ◌≤◌, ◌<◌, ◌≡◌, refl, List, [], ◌∷◌, ◌++◌, true, ltb, if◌then◌else◌, length, arith,
}
use flashdb_ko.Prelude.Words.{flip_sign, le_int32}
use flashdb_ko.Storage.{FdbErr, no_err, write_err}
use flashdb_ko.Tsdb.State.{FdbTsdb}
use flashdb_ko.Tsdb.Logs.{Entry}
use flashdb_ko.Tsdb.InUse.{InUse}

-- The times increase, as `int32_t` values, from above `lo` on.
unfoldable pub Above : ℕ → List Entry → Type 0
Above lo [] = Unit {0}
Above lo (e ∷ logs) = (lo < flip_sign e.time) × Above (flip_sign e.time) logs

-- The time of the last log, or the one before all of them.
unfoldable pub last_of : ℕ → List Entry → ℕ
last_of since [] = since
last_of since (e ∷ logs) = last_of e.time logs

pub Above-snoc :
    (since : ℕ) (logs : List Entry) (e : Entry)
    → Above (flip_sign since) logs
    → flip_sign (last_of since logs) < flip_sign e.time
    → Above (flip_sign since) (logs ++ (e ∷ []))
unfolding Above last_of
Above-snoc since [] e above later = (later, tt)
Above-snoc since (f ∷ logs) e (first, above) later = (first, Above-snoc f.time logs e above later)

pub last_of-snoc :
    (since : ℕ) (logs : List Entry) (e : Entry) → last_of since (logs ++ (e ∷ [])) ≡ e.time
unfolding last_of
last_of-snoc since [] e = refl
last_of-snoc since (f ∷ logs) e = last_of-snoc f.time logs e

-- The database is initialised, its current sector holds the logs, which came in the order of their
-- times, and `last_time` is the last of these.
pub record Holds (db : FdbTsdb) (logs : List Entry) : Type 0 where
  pub cells : ℕ → ℕ
  pub since : ℕ
  pub initialised : db.init_ok ≡ true
  pub in_use : InUse db.flash cells db.max_len db.sec_size db.cur_sec logs
  pub ordered : Above (flip_sign since) logs
  pub last_is : db.last_time ≡ last_of since logs

-- What appending a log promises: one that is too long or not later than the last one is refused,
-- and any other joins the list.
unfoldable pub append_log : ℕ → ℕ → List Entry → List ℕ → ℕ → FdbErr × List Entry
append_log max_len last logs blob time =
    if ltb max_len (length blob)
    then (write_err, logs)
    else if le_int32 time last
    then (write_err, logs)
    else (no_err, logs ++ (record { time = time; blob = blob } ∷ []))
