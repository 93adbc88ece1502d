-- ===== src/Tests/Restart.antt =====
-- Instances of the theorems on series of appends, restarts, reads of a period and the checked sizes.
use flashdb_ko.Prelude.{
  ℕ, ◌+◌, ◌-◌, ◌≤◌, ◌<◌, ◌≡◌, refl, ◌⊎◌, List, [], ◌∷◌, Bool, true, false, none, some, arith,
}
use flashdb_ko.Fal.{
  FalFlashDev, FalPartition, fal_partition_find, fal_flash_device_find, str_eq, strn_eq,
}
use flashdb_ko.MemBlk.{MemBlk, mem_blk}
use flashdb_ko.Storage.{no_err}
use flashdb_ko.Storage.Laws.{with_cells}
use flashdb_ko.Fdb.{FdbDb, fdb_init_ex, check_sizes, take_sizes}
use flashdb_ko.Fdb.FdbDbType.{db_type_ts}
use flashdb_ko.Fdb.Sizes.{ValidSizes, init_ex-ValidSizes}
use flashdb_ko.Tsdb.Types.{FdbTsl}
use flashdb_ko.Tsdb.State.{FdbTsdb}
use flashdb_ko.Tsdb.Append.{advance, append_here}
use flashdb_ko.Tsdb.Iterate.{iter_by_time_body}
use flashdb_ko.Tsdb.Iterate.InUse.{visit}
use flashdb_ko.Tsdb.Iterate.Period.{iter_by_time_body-period}
use flashdb_ko.Tsdb.Iterate.Period.Visit.{only_in_period}
use flashdb_ko.Tsdb.Logs.{Entry, data_len}
use flashdb_ko.Tsdb.Series.{Holds, Above}
use flashdb_ko.Tsdb.Series.Bounds.{append_here-inside}
use flashdb_ko.Tsdb.Series.Run.{append_each, Fitting, append_each-Holds}
use flashdb_ko.Tests.Journal.{journal, journal-Holds, first, one_log, one_log-Holds}

append_here-inside_example :
    (m' : ℕ → ℕ) × ((append_here journal (1 ∷ 2 ∷ []) 7).1.flash ≡ with_cells journal.flash m')
    × ((x : ℕ)
        → (x < 0 + 40) ⊎ (0 + 40 + 16 ≤ x)
        → (x < 0 + (512 - 2)) ⊎ (0 + 512 ≤ x)
        → m' x ≡ journal-Holds.cells x)
append_here-inside_example =
    append_here-inside journal-Holds (1 ∷ 2 ∷ []) 7 (omega arith) (omega arith) (omega arith)

abbrev two_more : List Entry
two_more = record { time = 8; blob = 5 ∷ [] } ∷ record { time = 11; blob = 6 ∷ 7 ∷ [] } ∷ []

append_each-Holds_example :
    (db' : FdbTsdb) × (append_each journal (first ∷ two_more) ≡ some db')
    × Holds db' (first ∷ two_more)
unfolding Fitting Above data_len
append_each-Holds_example =
    append_each-Holds (first ∷ two_more) journal-Holds
      (omega arith, omega arith, (omega arith, omega arith, (omega arith, omega arith, tt)))
      (omega arith, (omega arith, (omega arith, tt))) (omega arith)

iter_by_time_body-period_example :
    let count : FdbTsl → ℕ → Bool × ℕ = λ tsl n. (false, n + 1) in
    (stop : Bool) × (iter_by_time_body one_log 0 6 9 count 0 one_log.cur_sec (false, 0)
      ≡ some (
        stop,
        one_log.cur_sec,
        (true, (visit (only_in_period 6 9 count) 40 512 (first ∷ []) 0).1),
      ))
unfolding advance
iter_by_time_body-period_example =
    iter_by_time_body-period one_log-Holds 6 9 0 0 (λ tsl n. (false, n + 1)) one_log.cur_sec false 0
      (omega arith) (omega arith) (omega arith) refl

abbrev devices : List (FalFlashDev MemBlk)
devices = mem_blk 16384 ∷ []

abbrev journal_part : FalPartition
journal_part = record {
  magic_word = 0;
  name = 1 ∷ [];
  flash_name = 0x4d ∷ 0x45 ∷ 0x4d ∷ [];
  offset = 0;
  len = 16384;
}

abbrev fresh : FdbDb
fresh = record {
  name = [];
  db_type = db_type_ts;
  part = none;
  sec_size = 0;
  max_size = 0;
  init_ok = false;
  file_mode = false;
  not_formatable = false;
}

abbrev started : FdbDb
started = record fresh { part = some journal_part; sec_size = 4096; max_size = 16384 }

fresh_run :
    fdb_init_ex devices (journal_part ∷ [], 1) fresh [] (1 ∷ []) db_type_ts ≡ some (no_err, started)
unfolding fdb_init_ex take_sizes check_sizes fal_partition_find fal_flash_device_find str_eq strn_eq
    mem_blk
fresh_run = refl

init_ex-ValidSizes_example :
    ValidSizes started
    × (part : FalPartition) × (fal_partition_find (journal_part ∷ [], 1) (1 ∷ []) ≡ some part)
    × (started.part ≡ some part)
    × (started.max_size ≡ part.len)
init_ex-ValidSizes_example =
    init_ex-ValidSizes devices (journal_part ∷ [], 1) fresh started [] (1 ∷ []) db_type_ts refl refl
      fresh_run
