-- ===== src/Kv/Read/Total.antt =====
-- `read_kv` of FlashDB/src/fdb_kvdb.c on any flash, a damaged one included.
use flashdb_ko.Prelude.{◌<◌, ◌≡◌, Option, some}
use flashdb_ko.Storage.{FdbErr}
use flashdb_ko.Kv.Types.{FdbKv, FdbKvdb, fdb_kv_status_num}

-- What a call gives: the call ends, and the status is one of the enumeration.
abbrev pub Enumerated : Option ((FdbErr × FdbKv) × FdbKvdb) → Type 0
Enumerated r =
    (err : FdbErr) × (kv : FdbKv) × (db : FdbKvdb) × (r ≡ some ((err, kv), db))
    × (kv.status < fdb_kv_status_num)
