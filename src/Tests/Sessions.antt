-- ===== src/Tests/Sessions.antt =====
-- Instances of the theorems on the start of a database that holds logs, and on appends and restarts.
use flashdb_ko.Prelude.{ℕ, ◌≡◌, refl, some, List, [], ◌∷◌, false, arith}
use flashdb_ko.MemBlk
use flashdb_ko.MemBlk.{read_cells, write_cells, fill_cells}
use flashdb_ko.Bytes.{le32, word_at}
use flashdb_ko.Status.{fdb_get_status}
use flashdb_ko.Storage.{no_err, flash_fetch, is_ok}
use flashdb_ko.Storage.Laws.{with_cells}
use flashdb_ko.Kv.Types.{store_empty}
use flashdb_ko.Tsdb.Write.{log_idx_tail_bytes}
use flashdb_ko.Tsdb.State.{FdbTsdb}
use flashdb_ko.Tsdb.Append.{advance}
use flashdb_ko.Tsdb.Sector.{
  read_sector_info, read_hdr, no_valid_end, sector_of_hdr, traverse_sector,
}
use flashdb_ko.Tsdb.Sector.Bytes.{info}
use flashdb_ko.Tsdb.Sector.Format.{formatted, formatted-Blank}
use flashdb_ko.Tsdb.Load.{fdb_tsdb_init}
use flashdb_ko.Tsdb.Logs.{Entry}
use flashdb_ko.Tsdb.InUse.Open.{opened_cells, opened-InUse}
use flashdb_ko.Tsdb.Series.{Holds, Above, last_of}
use flashdb_ko.Tsdb.Series.Refine.{taken, appended, append_here-Holds}
use flashdb_ko.Tsdb.Series.Others.{OtherAt, OthersAt}
use flashdb_ko.Tsdb.Series.Start.{Placed, reopened, started, fdb_tsdb_init-Holds}
use flashdb_ko.Tsdb.Series.Reach.{Step, Reach, Reach-Holds}
use flashdb_ko.Tests.Journal.{raw, zeros, raw-Ready, some_sector, journal, first}

-- Two formatted sectors, the first of which was put in use at the time 7.
abbrev idle_cells : ℕ → ℕ
idle_cells = formatted zeros 512 512

abbrev both_cells : ℕ → ℕ
both_cells = formatted idle_cells 0 512

abbrev pair : FdbTsdb
pair = record journal { flash = with_cells raw (opened_cells both_cells 0 7); max_size = 1024 }

pair-Holds : Holds pair []
unfolding Above last_of
pair-Holds = record {
  cells = opened_cells both_cells 0 7;
  since = 5;
  initialised = refl;
  in_use =
      opened-InUse
        (formatted-Blank (formatted-Blank raw-Ready 512 512 (omega arith) (omega arith)).ready 512 0
          (omega arith) (omega arith))
        7 480 some_sector (omega arith);
  ordered = tt;
  last_is = refl;
}

-- The database with one log.
abbrev logged : FdbTsdb
logged = appended pair-Holds (1 ∷ 2 ∷ []) 7 (omega arith) (omega arith)

logged-Holds : Holds logged (first ∷ [])
logged-Holds =
    (append_here-Holds pair-Holds (1 ∷ 2 ∷ []) 7 (omega arith) (omega arith) (omega arith)).1

second_idle : OtherAt logged.flash 480 512 false 512
unfolding advance read_sector_info read_hdr is_ok flash_fetch MemBlk.read read_cells word_at
    write_cells log_idx_tail_bytes le32 pair-Holds fill_cells no_valid_end sector_of_hdr
    fdb_get_status traverse_sector
second_idle = record {
  info = info 512 512 store_empty 0xffff_ffff;
  reads = λ old. refl;
  checked = λ old. refl;
  placed = λ old. refl;
  unused = λ old. refl;
  filled = λ old. refl;
}

logged-Placed : Placed logged
unfolding OthersAt advance
logged-Placed = record {
  before = 0;
  after = 1;
  full = refl;
  idle = (second_idle, refl);
  checked = refl;
  inside = omega arith;
}

fdb_tsdb_init-Holds_example :
    (oldest_addr : ℕ) × (fdb_tsdb_init (reopened logged journal) no_err 480
      ≡ some (no_err, started logged journal oldest_addr))
    × Holds (started logged journal oldest_addr) (first ∷ [])
unfolding advance
fdb_tsdb_init-Holds_example =
    fdb_tsdb_init-Holds logged-Holds journal logged-Placed (omega arith) (omega arith)

start_run :
    (oldest_addr : ℕ) × (fdb_tsdb_init (reopened logged journal) no_err 480
      ≡ some (no_err, started logged journal oldest_addr))
    × Holds (started logged journal oldest_addr) (first ∷ [])
unfolding advance
start_run = fdb_tsdb_init-Holds logged-Holds journal logged-Placed (omega arith) (omega arith)

-- One log is appended, and the database starts again.
session : Reach pair (started logged journal start_run.0)
unfolding advance
session =
    Reach.next
      (Reach.next Reach.here (
        Step.append (1 ∷ 2 ∷ []) 7 no_err (omega arith) (omega arith)
          (taken pair-Holds (1 ∷ 2 ∷ []) 7 (omega arith) (omega arith) refl (ground arith)).0))
      (Step.restart journal no_err logged-Placed (omega arith) (omega arith) (omega arith)
        start_run.1)

Reach-Holds_example : (more : List Entry) × Holds (started logged journal start_run.0) more
Reach-Holds_example = Reach-Holds pair-Holds session
