-- ===== src/Fdb/Sizes.antt =====
-- The sizes that `_fdb_init_ex` of FlashDB/src/fdb.c accepts.
use flashdb_ko.Prelude.{
  ℕ, ◌/◌, ◌%◌, ◌≤◌, ◌≡◌, ◌≢◌, refl, sym, ap, subst, List, Option, none, some, false, ◌==◌, bit_and,
  if◌then◌else◌, arith,
}
use flashdb_ko.Prelude.Words.{sub32}
use flashdb_ko.Fal.{FalFlashDev, FalPartition, fal_flash_device_find, fal_partition_find}
use flashdb_ko.Storage.{no_err}
use flashdb_ko.Fdb.{FdbDb, FdbDbType, check_sizes, take_sizes, fdb_init_ex}

-- What the operations of both databases rely on.
pub record ValidSizes (db : FdbDb) : Type 0 where
  pub some_size : db.sec_size ≢ 0
  pub power_of_two : bit_and db.sec_size (sub32 db.sec_size 1) ≡ 0
  pub whole_sectors : db.max_size % db.sec_size ≡ 0
  pub two_sectors : 2 ≤ db.max_size / db.sec_size

check_sizes-same : (db db' : FdbDb) → check_sizes db ≡ some (no_err, db') → db ≡ db'
unfolding check_sizes
check_sizes-same db db' h = ground arith

check_sizes-ValidSizes : (db db' : FdbDb) → check_sizes db ≡ some (no_err, db') → ValidSizes db
unfolding check_sizes
check_sizes-ValidSizes db db' h = record {
  some_size = ground arith;
  power_of_two = ground arith;
  whole_sectors = ground arith;
  two_sectors = ground arith;
}

module _ {M : Type 0} (devices : List (FalFlashDev M)) (partitions : List FalPartition × ℕ) where
  -- The sizes that are checked.
  abbrev sized : FdbDb → FalPartition → ℕ → FdbDb
  sized db part sec_size = record db { sec_size = sec_size; max_size = part.len }

  take_sizes-missing :
      (db db' : FdbDb) (part : FalPartition)
      → fal_flash_device_find devices part.flash_name ≡ none
      → take_sizes devices partitions db part ≡ some (no_err, db')
      → ⊥
  unfolding take_sizes
  take_sizes-missing db db' part missing h = ground arith

  take_sizes-found :
      (db db' : FdbDb) (part : FalPartition) (dev : FalFlashDev M)
      → fal_flash_device_find devices part.flash_name ≡ some dev
      → take_sizes devices partitions db part ≡ some (no_err, db')
      → check_sizes (sized db part (if db.sec_size == 0 then dev.blk_size else db.sec_size))
        ≡ some (no_err, db')
  unfolding take_sizes
  take_sizes-found db db' part dev found h = ground arith

  take_sizes-ValidSizes :
      (db db' : FdbDb) (part : FalPartition)
      → take_sizes devices partitions db part ≡ some (no_err, db')
      → ValidSizes db' × (db'.max_size ≡ part.len) × (db'.part ≡ db.part)
  take_sizes-ValidSizes db db' part h =
      by_device (fal_flash_device_find devices part.flash_name) refl
    where
      by_device :
          (d : Option (FalFlashDev M))
          → fal_flash_device_find devices part.flash_name ≡ d
          → ValidSizes db' × (db'.max_size ≡ part.len) × (db'.part ≡ db.part)
      by_device none missing = absurd (take_sizes-missing db db' part missing h)
      by_device (some dev) found =
          let chosen = if db.sec_size == 0 then dev.blk_size else db.sec_size in
          let checked = take_sizes-found db db' part dev found h in
          let same = check_sizes-same (sized db part chosen) db' checked in
          (
            subst ValidSizes same (check_sizes-ValidSizes (sized db part chosen) db' checked),
            sym (ap (λ (d : FdbDb). d.max_size) same),
            sym (ap (λ (d : FdbDb). d.part) same),
          )

  init_ex-missing :
      (db db' : FdbDb) (name path : List ℕ) (db_type : FdbDbType)
      → db.init_ok ≡ false
      → db.file_mode ≡ false
      → fal_partition_find partitions path ≡ none
      → fdb_init_ex devices partitions db name path db_type ≡ some (no_err, db')
      → ⊥
  unfolding fdb_init_ex
  init_ex-missing db db' name path db_type fresh fal missing h = ground arith

  init_ex-found :
      (db db' : FdbDb) (name path : List ℕ) (db_type : FdbDbType) (part : FalPartition)
      → db.init_ok ≡ false
      → db.file_mode ≡ false
      → fal_partition_find partitions path ≡ some part
      → fdb_init_ex devices partitions db name path db_type ≡ some (no_err, db')
      → take_sizes devices partitions
          (record db { name = name; db_type = db_type; part = some part })
          part
        ≡ some (no_err, db')
  unfolding fdb_init_ex
  init_ex-found db db' name path db_type part fresh fal found h = ground arith

  init_ex-take_sizes :
      (db db' : FdbDb) (name path : List ℕ) (db_type : FdbDbType)
      → db.init_ok ≡ false
      → db.file_mode ≡ false
      → fdb_init_ex devices partitions db name path db_type ≡ some (no_err, db')
      → (part : FalPartition) × (fal_partition_find partitions path ≡ some part)
        × (take_sizes devices partitions
              (record db { name = name; db_type = db_type; part = some part })
              part
            ≡ some (no_err, db'))
  init_ex-take_sizes db db' name path db_type fresh fal h =
      by_partition (fal_partition_find partitions path) refl
    where
      by_partition :
          (p : Option FalPartition)
          → fal_partition_find partitions path ≡ p
          → (part : FalPartition) × (fal_partition_find partitions path ≡ some part)
            × (take_sizes devices partitions
                  (record db { name = name; db_type = db_type; part = some part })
                  part
                ≡ some (no_err, db'))
      by_partition none missing =
          absurd (init_ex-missing db db' name path db_type fresh fal missing h)
      by_partition (some part) found =
          (part, found, init_ex-found db db' name path db_type part fresh fal found h)

  -- Where `_fdb_init_ex` returns FDB_NO_ERR for a database that is not initialised and not in file
  -- mode, the partition of that name is the database's: the sector size is a power of two, the
  -- partition is made up of whole sectors, of two at least, and is the database.
  pub init_ex-ValidSizes :
      (db db' : FdbDb) (name path : List ℕ) (db_type : FdbDbType)
      → db.init_ok ≡ false
      → db.file_mode ≡ false
      → fdb_init_ex devices partitions db name path db_type ≡ some (no_err, db')
      → ValidSizes db'
        × (part : FalPartition) × (fal_partition_find partitions path ≡ some part)
        × (db'.part ≡ some part)
        × (db'.max_size ≡ part.len)
  init_ex-ValidSizes db db' name path db_type fresh fal h =
      let (part, found, taken) = init_ex-take_sizes db db' name path db_type fresh fal h in
      let (valid, size, same) =
        take_sizes-ValidSizes (record db { name = name; db_type = db_type; part = some part }) db'
          part taken in
      (valid, part, found, same, size)
