-- ===== src/Tsdb/Series/Reach.antt =====
-- Any interleaving of appends, accepted or refused, and restarts of a time series database, as long
-- as the sector in use has room: FlashDB/src/fdb_tsdb.c.
use mathlib.Core.Option.{some_inj}
use flashdb_ko.Prelude.{
  ℕ, ◌+◌, ◌≤◌, ◌<◌, ◌≡◌, refl, sym, ap, ◌∙◌, subst, inl, inr, List, [], ◌∷◌, ◌++◌, append-nil,
  append_assoc, ltb, Bool-cases, length, some, arith,
}
use flashdb_ko.Prelude.Words.{le_int32}
use flashdb_ko.Storage.{FdbErr, no_err}
use flashdb_ko.Tsdb.State.{FdbTsdb}
use flashdb_ko.Tsdb.Append.{fdb_tsl_append_with_ts}
use flashdb_ko.Tsdb.Load.{fdb_tsdb_init}
use flashdb_ko.Tsdb.Logs.{Entry}
use flashdb_ko.Tsdb.Series.{Holds, append_log}
use flashdb_ko.Tsdb.Series.Refine.{append_with_ts-append_log}
use flashdb_ko.Tsdb.Series.Start.{Placed, reopened, started, fdb_tsdb_init-Holds}

-- One step: a call of `fdb_tsl_append_with_ts` with any log for which the sector has room, whatever
-- it returns, or, behind the first log, a call of `fdb_tsdb_init` with the length limit of before.
pub data Step : FdbTsdb → FdbTsdb → Type 0 where
  append :
      {db db' : FdbTsdb} (blob : List ℕ) (time : ℕ) (err : FdbErr)
      → time < 0x1_0000_0000
      → db.cur_sec.empty_idx + 16 + length blob ≤ db.cur_sec.empty_data
      → fdb_tsl_append_with_ts db blob time ≡ some (err, db')
      → Step db db'
  restart :
      {db db' : FdbTsdb} (memory : FdbTsdb) (err : FdbErr)
      → Placed db
      → db.max_len < db.sec_size
      → db.cur_sec.addr + 40 < db.cur_sec.empty_idx
      → db.cur_sec.empty_idx + 16 ≤ db.flash.part.len
      → fdb_tsdb_init (reopened db memory) no_err db.max_len ≡ some (err, db')
      → Step db db'

-- The databases that steps lead to.
pub data Reach (s : FdbTsdb) : FdbTsdb → Type 0 where
  here : Reach s s
  next : {t u : FdbTsdb} → Reach s t → Step t u → Reach s u

-- Appending to the list leaves what is there.
append_log-grows :
    (max_len last : ℕ) (logs : List Entry) (blob : List ℕ) (time : ℕ)
    → (more : List Entry) × ((append_log max_len last logs blob time).1 ≡ logs ++ more)
unfolding append_log
append_log-grows max_len last logs blob time = elim (Bool-cases (ltb max_len (length blob))) [
  | inl long ↦ ([], rw (append_log, long) (sym (append-nil logs)))
  | inr short ↦ elim (Bool-cases (le_int32 time last)) [
    | inl early ↦ ([], rw (append_log, short, early) (sym (append-nil logs)))
    | inr later ↦ (record { time = time; blob = blob } ∷ [], rw (append_log, short, later) refl)
  ]
]

restart-Holds :
    (logs : List Entry) {db db' : FdbTsdb} (held : Holds db logs) (memory : FdbTsdb) (err : FdbErr)
    → Placed db
    → db.max_len < db.sec_size
    → db.cur_sec.addr + 40 < db.cur_sec.empty_idx
    → db.cur_sec.empty_idx + 16 ≤ db.flash.part.len
    → fdb_tsdb_init (reopened db memory) no_err db.max_len ≡ some (err, db')
    → Holds db' logs
restart-Holds [] held memory err others short more inside loaded =
    let none_there = held.in_use.idx_is in absurd (omega arith)
restart-Holds (e ∷ logs) {db} {db'} held memory err others short more inside loaded =
    let (oldest_addr, run, after) = fdb_tsdb_init-Holds held memory others short inside in
    let same : started db memory oldest_addr ≡ db' =
      ap (λ (r : FdbErr × FdbTsdb). r.1) (some_inj.0 (sym run ∙ loaded)) in
    subst (λ (d : FdbTsdb). Holds d (e ∷ logs)) same after

pub Step-Holds :
    {db db' : FdbTsdb} {logs : List Entry}
    → Step db db'
    → Holds db logs
    → (more : List Entry) × Holds db' (logs ++ more)
Step-Holds {db} {db'} {logs} (append blob time err word fits called) held =
    let (reached, done, after) = append_with_ts-append_log held blob time word fits in
    let (more, grown) = append_log-grows db.max_len db.last_time logs blob time in
    let same : reached ≡ db' =
      ap (λ (r : FdbErr × FdbTsdb). r.1) (some_inj.0 (sym done ∙ called)) in
    (
      more,
      subst (λ (d : FdbTsdb). Holds d (logs ++ more)) same
          (subst (λ (l : List Entry). Holds reached l) grown after),
    )
Step-Holds {db} {db'} {logs} (restart memory err others short behind inside loaded) held = (
  [],
  subst (λ (l : List Entry). Holds db' l) (sym (append-nil logs))
      (restart-Holds logs held memory err others short behind inside loaded),
)

-- A step is a call of `fdb_tsl_append_with_ts`, accepted or refused, with room in the sector for
-- the log, or a call of `fdb_tsdb_init` behind `_fdb_init_ex`, with any contents of memory but the
-- flash, the sizes and the length limit, which is less than the sector size. For the latter there
-- is a log in the current sector, whose next index would lie in the partition, the database lies in
-- the partition, all sectors have right headers, those before the current one are neither in use
-- nor empty, and those behind it are not in use. In every state that such steps lead to, in any
-- order, the database still holds the logs that it had, in their order and with their contents, and
-- any others behind them, in the order of their times.
pub Reach-Holds :
    {start db : FdbTsdb} {logs : List Entry}
    → Holds start logs
    → Reach start db
    → (more : List Entry) × Holds db (logs ++ more)
Reach-Holds {logs} held here = ([], rw (append-nil logs) held)
Reach-Holds {logs} held (next reached step) =
    let (before, held1) = Reach-Holds held reached in
    let (more, held2) = Step-Holds step held1 in
    (before ++ more, rw (append_assoc logs before more) at held2)
