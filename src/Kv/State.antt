-- ===== src/Kv/State.antt =====
-- The database object as the state of a computation. `none` means that the fuel of a loop ran out, or
-- that an assertion failed.
use flashdb_ko.Prelude.{ℕ, ◌%◌, ◌==◌, true, false, List, Option, none, some}
use flashdb_ko.Storage.{FdbErr, flash_fetch, flash_write, flash_erase}
use flashdb_ko.Status.{fdb_write_status, fdb_read_status}
use flashdb_ko.Kv.Types.{FdbKvdb}

abbrev pub M : Type 0 → Type 0
M A = FdbKvdb → Option (A × FdbKvdb)

infixl 5 ◌>>=◌ ◌>>◌
abbrev pub ◌>>=◌ : {A B : Type 0} → M A → (A → M B) → M B
◌>>=◌ m f db = elim (m db) [ none ↦ none | some (a, db') ↦ f a db' ]

abbrev pub ◌>>◌ : {A B : Type 0} → M A → M B → M B
◌>>◌ m k db = elim (m db) [ none ↦ none | some (a, db') ↦ k db' ]

abbrev pub pure : {A : Type 0} → A → M A
pure a db = some (a, db)

abbrev pub get_db : M FdbKvdb
get_db db = some (db, db)

abbrev pub update_db : (FdbKvdb → FdbKvdb) → M (Unit {0})
update_db f db = some (tt, f db)

abbrev pub out_of_fuel : {A : Type 0} → M A
out_of_fuel db = none

-- `FDB_ASSERT(addr % db_sec_size(db) == 0)`, which loops for ever where it fails.
abbrev pub assert_aligned : {A : Type 0} → ℕ → M A → M A
assert_aligned addr body db = elim (addr % db.sec_size == 0) [ true ↦ body db | false ↦ none ]

-- A part with no effect on the state, which may run out of fuel.
abbrev pub lift : {A : Type 0} → Option A → M A
lift none db = none
lift (some a) db = some (a, db)

-- The storage operations on the database's flash.
abbrev pub fetch : ℕ → ℕ → M (List ℕ)
fetch addr n db = some (flash_fetch db.flash addr n, db)

abbrev pub write_flash : ℕ → List ℕ → M FdbErr
write_flash addr buf db =
    let (err, fl) = flash_write db.flash addr buf in some (err, record db { flash = fl })

abbrev pub erase_flash : ℕ → ℕ → M FdbErr
erase_flash addr size db =
    let (err, fl) = flash_erase db.flash addr size in some (err, record db { flash = fl })

abbrev pub write_status : ℕ → ℕ → ℕ → M FdbErr
write_status addr num index db =
    let (err, fl, table) = fdb_write_status db.flash addr num index in
    some (err, record db { flash = fl })

abbrev pub read_status : ℕ → ℕ → M ℕ
read_status addr num db = some (fdb_read_status db.flash addr num, db)
