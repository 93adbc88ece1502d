-- ===== src/Tests/Journal.antt =====
-- Instances of the theorems on appending, recovery and iteration, from a formatted sector on.
use flashdb_ko.Prelude.{
  ℕ, ◌+◌, ◌≤◌, ◌<◌, ◌≡◌, refl, ◌⊎◌, inr, [], ◌∷◌, Bool, true, false, some, replicate, arith,
}
use flashdb_ko.Prelude.Words.{wg_align}
use flashdb_ko.Bytes.{le32, word_at}
use flashdb_ko.MemBlk
use flashdb_ko.MemBlk.{read_cells, write_cells, fill_cells}
use flashdb_ko.Fal.{FalPartition}
use flashdb_ko.Storage.{Flash, FdbErr, no_err, init_failed, is_ok, flash_fetch}
use flashdb_ko.Storage.Laws.{Ready, with_cells}
use flashdb_ko.Kv.Types.{store_using, store_empty, store_full}
use flashdb_ko.Tsdb.Types.{FdbTsl, TsdbSecInfo}
use flashdb_ko.Tsdb.Write.{log_idx_tail_bytes}
use flashdb_ko.Tsdb.State.{FdbTsdb}
use flashdb_ko.Tsdb.Sector.{log_room, read_hdr, read_sector_info, format_sector}
use flashdb_ko.Tsdb.Sector.Bytes.{info}
use flashdb_ko.Tsdb.Sector.Format.{
  Blank, formatted, formatted-Blank, read_sector_info-format_sector,
}
use flashdb_ko.Tsdb.Append.{advance, sector_behind, fdb_tsl_append_with_ts}
use flashdb_ko.Tsdb.Iterate.{iter_body}
use flashdb_ko.Tsdb.Iterate.InUse.{visit, iter_body-visit}
use flashdb_ko.Tsdb.Logs.{Entry, LogsAt}
use flashdb_ko.Tsdb.InUse.Open.{opened_cells, opened-InUse}
use flashdb_ko.Tsdb.InUse.Recover.{read_sector_info-InUse}
use flashdb_ko.Tsdb.Series.{Holds, Above, last_of, append_log}
use flashdb_ko.Tsdb.Series.Change.{CanEnter}
use flashdb_ko.Tsdb.Series.Refine.{appended, append_here-Holds, append_with_ts-append_log}
use flashdb_ko.Tsdb.Series.Next.{append_with_ts-next_sector}

abbrev pub part : FalPartition
part = record { magic_word = 0; name = []; flash_name = []; offset = 0; len = 2048 }

abbrev pub zeros : ℕ → ℕ
zeros x = 0

abbrev pub raw : Flash
raw = record {
  file_mode = false;
  part = part;
  dev_len = 2048;
  block = some (λ (x : ℕ). 0);
  junk = 0;
}

pub raw-Ready : Ready raw zeros
raw-Ready = record { no_file = refl; block_is = refl; fits = omega arith }

abbrev pub some_sector : TsdbSecInfo
some_sector = record {
  check_ok = false;
  status = 0;
  addr = 0;
  magic = 0;
  start_time = 0;
  end_time = 0;
  end_idx = 0;
  end_info_stat0 = 0;
  end_info_stat1 = 0;
  remain = 0;
  empty_idx = 0;
  empty_data = 0;
}

read_sector_info-format_sector_example :
    (m' : ℕ → ℕ) × (format_sector 512 512 raw ≡ some (no_err, with_cells raw m'))
    × (read_sector_info (with_cells raw m') 64 512 512 some_sector false
        ≡ some (no_err, info 512 512 store_empty 0xffff_ffff some_sector))
    × ((x : ℕ) → (x < 512) ⊎ (1024 ≤ x) → m' x ≡ 0)
read_sector_info-format_sector_example =
    read_sector_info-format_sector raw-Ready 64 512 512 some_sector (omega arith) (omega arith) refl

abbrev blank_cells : ℕ → ℕ
blank_cells = formatted zeros 0 512

blank_cells-Blank : Blank (with_cells raw blank_cells) blank_cells 512 0
blank_cells-Blank = formatted-Blank raw-Ready 512 0 (omega arith) (omega arith)

-- A database whose first sector was put in use at the time 7.
abbrev pub journal : FdbTsdb
journal = record {
  flash = with_cells raw (opened_cells blank_cells 0 7);
  sec_size = 512;
  max_size = 2048;
  oldest_addr = 512;
  init_ok = true;
  not_formatable = false;
  cur_sec = info 512 0 store_using 7 some_sector;
  last_time = 5;
  max_len = 480;
  rollover = true;
  junk = some_sector;
}

pub journal-Holds : Holds journal []
unfolding Above last_of
journal-Holds = record {
  cells = opened_cells blank_cells 0 7;
  since = 5;
  initialised = refl;
  in_use = opened-InUse blank_cells-Blank 7 480 some_sector (omega arith);
  ordered = tt;
  last_is = refl;
}

append_with_ts-append_log_example :
    let promised = append_log 480 5 [] (1 ∷ 2 ∷ []) 7 in
    (db' : FdbTsdb) × (fdb_tsl_append_with_ts journal (1 ∷ 2 ∷ []) 7 ≡ some (promised.0, db'))
    × Holds db' promised.1
append_with_ts-append_log_example =
    append_with_ts-append_log journal-Holds (1 ∷ 2 ∷ []) 7 (omega arith) (omega arith)

-- The database with that log.
abbrev pub first : Entry
first = record { time = 7; blob = 1 ∷ 2 ∷ [] }

abbrev pub one_log : FdbTsdb
one_log = appended journal-Holds (1 ∷ 2 ∷ []) 7 (omega arith) (omega arith)

pub one_log-Holds : Holds one_log (first ∷ [])
one_log-Holds =
    (append_here-Holds journal-Holds (1 ∷ 2 ∷ []) 7 (omega arith) (omega arith) (omega arith)).1

read_sector_info-InUse_example :
    (err : FdbErr) × (read_sector_info one_log.flash 480 512 0 some_sector true
      ≡ some (err, one_log.cur_sec))
unfolding advance
read_sector_info-InUse_example =
    read_sector_info-InUse one_log-Holds.in_use some_sector (omega arith)

iter_body-visit_example :
    let count : FdbTsl → ℕ → Bool × ℕ = λ tsl n. (false, n + tsl.time) in
    let visited = visit count 40 512 (first ∷ []) 3 in
    iter_body one_log count 0 one_log.cur_sec 3 ≡ some (visited.0, one_log.cur_sec, visited.1)
unfolding advance
iter_body-visit_example =
    iter_body-visit one_log-Holds (λ tsl n. (false, n + tsl.time)) 0 one_log.cur_sec 3 refl

-- The next sector holds no header, and is called full since the structure was that of the closed one.
second-CanEnter :
    CanEnter
      (record one_log { cur_sec = record one_log.cur_sec { status = store_full } })
      one_log-Holds.cells
      512
unfolding advance read_sector_info read_hdr is_ok flash_fetch MemBlk.read read_cells word_at
    write_cells log_idx_tail_bytes le32 journal-Holds fill_cells
second-CanEnter = inr (
  init_failed,
  record one_log.cur_sec { status = store_full; check_ok = false; addr = 512; magic = 0 },
  refl,
  λ e. absurd (omega (arith, e)),
)

append_with_ts-next_sector_example :
    (db' : FdbTsdb) × (fdb_tsl_append_with_ts one_log (replicate 456 3) 9 ≡ some (no_err, db'))
    × Holds db' (record { time = 9; blob = replicate 456 3 } ∷ [])
    × (db'.cur_sec.addr ≡ sector_behind one_log 0)
    × LogsAt db'.flash 480 40 512 (first ∷ [])
unfolding advance log_room wg_align sector_behind
append_with_ts-next_sector_example =
    append_with_ts-next_sector one_log-Holds (replicate 456 3) 9 (omega arith) (omega arith) refl
      (omega arith) refl (inr (omega arith)) second-CanEnter (omega arith) (omega arith)
      (omega arith)
