-- ===== src/Tsdb/State.antt =====
-- `struct fdb_tsdb` of FlashDB/inc/fdb_def.h, and sequences of writes that return at the first
-- error, as the macros `_FDB_WRITE_STATUS` and `FLASH_WRITE` of FlashDB/inc/fdb_low_lvl.h do.
pub mod Touches
use flashdb_ko.Prelude.{ℕ, List, Bool, if◌then◌else◌}
use flashdb_ko.Storage.{FdbErr, no_err, Flash, is_ok, flash_write}
use flashdb_ko.Status.{fdb_write_status}
use flashdb_ko.Tsdb.Types.{TsdbSecInfo}

-- The database object; `junk` is what an uninitialised local sector structure holds. The locks
-- have no effect on the rest of the object.
pub record FdbTsdb : Type 0 where
  pub flash : Flash
  pub sec_size : ℕ
  pub max_size : ℕ
  pub oldest_addr : ℕ
  pub init_ok : Bool
  pub not_formatable : Bool
  pub cur_sec : TsdbSecInfo
  pub last_time : ℕ
  pub max_len : ℕ
  pub rollover : Bool
  pub junk : TsdbSecInfo

abbrev pub Writes : Type 0
Writes = Flash → FdbErr × Flash

infixl 5 ◌>>◌
abbrev pub ◌>>◌ : Writes → Writes → Writes
◌>>◌ first rest fl = let (err, fl') = first fl in if is_ok err then rest fl' else (err, fl')

abbrev pub no_write : Writes
no_write fl = (no_err, fl)

abbrev pub write_flash : ℕ → List ℕ → Writes
write_flash addr buf fl = flash_write fl addr buf

abbrev pub write_status : ℕ → ℕ → ℕ → Writes
write_status addr num index fl =
    let (err, fl', table) = fdb_write_status fl addr num index in (err, fl')
