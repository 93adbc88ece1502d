-- ===== src/Tsdb/InUse.antt =====
-- A sector in use: what its information in memory and its bytes on the flash have to do with each
-- other and with the list of its logs.
pub mod Recover
pub mod Append
pub mod Open
use flashdb_ko.Prelude.{
  ℕ, ◌+◌, ◌*◌, ◌-◌, ◌≤◌, ◌<◌, ◌≡◌, refl, List, [], ◌∷◌, length, some, false, arith,
}
use flashdb_ko.Storage.{Flash, no_err}
use flashdb_ko.Storage.Laws.{Ready}
use flashdb_ko.Kv.Types.{store_using}
use flashdb_ko.Tsdb.Types.{TsdbSecInfo}
use flashdb_ko.Tsdb.Sector.{read_sector_info}
use flashdb_ko.Tsdb.Logs.{Entry, data_len, LogsAt, advance_all}

-- The information of the sector before its first log, the last log's time and index being those
-- of `old`.
abbrev pub opened : ℕ → TsdbSecInfo → TsdbSecInfo → TsdbSecInfo
opened sec_size sector old = record sector {
  end_time = old.end_time;
  end_idx = old.end_idx;
  empty_idx = sector.addr + 40;
  empty_data = sector.addr + sec_size;
  remain = sector.addr + sec_size - (sector.addr + 40);
}

-- The invariant: the free addresses and the remaining room are those behind the logs, the free
-- part is erased, the flash holds the logs, and the header on the flash agrees.
pub record InUse (fl : Flash) (m : ℕ → ℕ) (max_len sec_size : ℕ) (sector : TsdbSecInfo)
    (logs : List Entry) : Type 0 where
  pub ready : Ready fl m
  pub using : sector.status ≡ store_using
  pub inside : sector.addr + sec_size ≤ fl.part.len
  pub wide : 40 < sec_size
  pub idx_is : sector.empty_idx ≡ sector.addr + 40 + 16 * length logs
  pub top_is : sector.empty_data + data_len logs ≡ sector.addr + sec_size
  pub room : sector.empty_idx ≤ sector.empty_data
  pub remain_is : sector.remain ≡ sector.empty_data - sector.empty_idx
  pub held : LogsAt fl max_len (sector.addr + 40) (sector.addr + sec_size) logs
  pub erased :
      (x : ℕ)
      → fl.part.offset + sector.empty_idx ≤ x
      → x < fl.part.offset + sector.empty_data
      → m x ≡ 0xff
  pub header :
      (old : TsdbSecInfo)
      → read_sector_info fl max_len sec_size sector.addr old false
        ≡ some (no_err, opened sec_size sector old)
  pub tracked : advance_all (opened sec_size sector sector) logs ≡ sector
