-- ===== src/Tests/Series.antt =====
-- Instances of the theorems of the time series database, on a sector with two logs.
use flashdb_ko.Prelude.{
  ℕ, refl, [], ◌∷◌, zero, suc, ◌+◌, ◌≡◌, ◌<◌, ◌*◌, [], some, true, false, ◌==◌, ◌||◌, if◌then◌else◌,
  arith,
}
use flashdb_ko.Bytes.{word_at}
use flashdb_ko.Fal.{FalPartition}
use flashdb_ko.MemBlk
use flashdb_ko.MemBlk.{read_cells}
use flashdb_ko.Storage.{Flash, no_err, flash_fetch}
use flashdb_ko.Storage.Laws.{Ready}
use flashdb_ko.Status.{fdb_get_status}
use flashdb_ko.Tsdb.Types.{FdbTsl, TsdbSecInfo, log_idx_of_bytes}
use flashdb_ko.Tsdb.Walk.{read_tsl}
use flashdb_ko.Tsdb.Write.{write_tsl}
use flashdb_ko.Tsdb.Write.RoundTrip.{read_tsl-write_tsl}
use flashdb_ko.Tsdb.Search.{search_start_tsl_addr}
use flashdb_ko.Tsdb.Search.LowerBound.{time_of, FirstFrom, search_start_tsl_addr-FirstFrom}

abbrev part : FalPartition
part = record { magic_word = 0; name = []; flash_name = []; offset = 0; len = 2048 }

-- The indexes at 40 and 56 are written, with the times 5 and 9.
abbrev cells : ℕ → ℕ
cells x = if x == 40 || x == 56 then 63 else if x == 44 then 5 else if x == 60 then 9 else 0

abbrev fl : Flash
fl = record {
  file_mode = false;
  part = part;
  dev_len = 2048;
  block =
      some
        (λ x. if x == 40 || x == 56 then 63 else if x == 44 then 5 else if x == 60 then 9 else 0);
  junk = 0;
}

fl-Ready : Ready fl cells
fl-Ready = record { no_file = refl; block_is = refl; fits = omega arith }

abbrev sector : TsdbSecInfo
sector = record {
  check_ok = true;
  status = 2;
  addr = 0;
  magic = 0;
  start_time = 5;
  end_time = 9;
  end_idx = 56;
  end_info_stat0 = 0;
  end_info_stat1 = 0;
  remain = 0;
  empty_idx = 72;
  empty_data = 512;
}

abbrev first_log : FdbTsl
first_log = record { status = 2; time = 5; log_len = 4; index = 40; log = 508 }

times-increasing : (i k : ℕ) → i < k → k < 2 → time_of fl 64 40 2 7 9 i < time_of fl 64 40 2 7 9 k
unfolding read_tsl log_idx_of_bytes flash_fetch fdb_get_status word_at MemBlk.read read_cells
times-increasing zero (suc zero) h top = omega arith
times-increasing zero zero h top = absurd (omega arith)
times-increasing (suc i) zero h top = absurd (omega arith)
times-increasing (suc i) (suc zero) h top = absurd (omega arith)
times-increasing i (suc (suc k)) h top = absurd (omega arith)

search_start_tsl_addr-FirstFrom_example :
    (q : ℕ) × (search_start_tsl_addr fl 64 40 56 7 9 ≡ some (40 + 16 * q))
    × FirstFrom fl 64 40 2 7 9 q
search_start_tsl_addr-FirstFrom_example =
    search_start_tsl_addr-FirstFrom fl 64 40 2 7 9 times-increasing (omega arith) (omega arith)
      (omega arith) (omega arith)

read_tsl-write_tsl_example :
    let written = write_tsl fl sector (1 ∷ 2 ∷ []) 11 in
    (written.0 ≡ no_err)
    × (read_tsl written.1 64 72
        ≡ record { status = 2; time = 11; log_len = 2; index = 72; log = 510 })
    × (flash_fetch written.1 510 2 ≡ 1 ∷ 2 ∷ [])
read_tsl-write_tsl_example =
    read_tsl-write_tsl fl-Ready sector (1 ∷ 2 ∷ []) 11 64 (omega arith) (omega arith) (omega arith)
