-- ===== src/Tsdb/Control.antt =====
-- `fdb_tsdb_control` of FlashDB/src/fdb_tsdb.c.
use flashdb_ko.Prelude.{ℕ, Option, none, some, Bool, if◌then◌else◌}
use flashdb_ko.Tsdb.State.{FdbTsdb}

-- The commands of `fdb_tsdb_control` that have a number or a flag as their argument; those that
-- set the locks or belong to file mode change nothing here.
pub data TsdbCtrl : Type 0 where
  set_sec_size : ℕ → TsdbCtrl
  get_sec_size : TsdbCtrl
  set_rollover : Bool → TsdbCtrl
  get_rollover : TsdbCtrl
  get_last_time : TsdbCtrl
  set_not_format : Bool → TsdbCtrl

-- What a command stores through `arg`.
pub data CtrlAnswer : Type 0 where
  nothing : CtrlAnswer
  number : ℕ → CtrlAnswer
  flag : Bool → CtrlAnswer

-- `fdb_tsdb_control`; `none` where the code asserts that the database is, or is not, initialised.
unfoldable pub fdb_tsdb_control : FdbTsdb → TsdbCtrl → Option (CtrlAnswer × FdbTsdb)
fdb_tsdb_control db (set_sec_size size) =
    if db.init_ok then none else some (nothing, record db { sec_size = size })
fdb_tsdb_control db get_sec_size = some (number db.sec_size, db)
fdb_tsdb_control db (set_rollover f) =
    if db.init_ok then some (nothing, record db { rollover = f }) else none
fdb_tsdb_control db get_rollover = some (flag db.rollover, db)
fdb_tsdb_control db get_last_time = some (number db.last_time, db)
fdb_tsdb_control db (set_not_format f) =
    if db.init_ok then none else some (nothing, record db { not_formatable = f })
