-- ===== src/Fdb.antt =====
-- The part of a database's start-up that both kinds share: `_fdb_init_ex`, `_fdb_init_finish` and
-- `_fdb_deinit` of FlashDB/src/fdb.c, with FDB_USING_FAL_MODE alone. The device table and the
-- partition table are those that `fal_init` leaves.
pub mod Sizes
use flashdb_ko.Prelude.{
  ℕ, zero, suc, ◌/◌, ◌%◌, List, Option, none, some, Bool, true, false, not, ◌&&◌, ◌==◌, ltb,
  bit_and, if◌then◌else◌,
}
use flashdb_ko.Prelude.Words.{sub32}
use flashdb_ko.Fal.{FalFlashDev, FalPartition, fal_flash_device_find, fal_partition_find}
use flashdb_ko.Storage.{FdbErr, no_err, init_failed, part_not_found, is_ok}

-- `fdb_db_type`
pub data FdbDbType : Type 0 where
  db_type_kv db_type_ts : FdbDbType

-- `struct fdb_db`, without the locks and the user's data, which nothing here looks at.
pub record FdbDb : Type 0 where
  pub name : List ℕ
  pub db_type : FdbDbType
  pub part : Option FalPartition
  pub sec_size : ℕ
  pub max_size : ℕ
  pub init_ok : Bool
  pub file_mode : Bool
  pub not_formatable : Bool

-- The checks of the sizes at the end of `_fdb_init_ex`. `none` means that it does not return: the
-- sector size is no power of two, which is asserted, or 0, by which it would divide.
unfoldable pub check_sizes : FdbDb → Option (FdbErr × FdbDb)
check_sizes db = elim (bit_and db.sec_size (sub32 db.sec_size 1) == 0 && not (db.sec_size == 0)) [
  | false ↦ none
  | true ↦
      if not (db.max_size % db.sec_size == 0)
      then some (init_failed, db)
      else if ltb (db.max_size / db.sec_size) 2
      then some (init_failed, db)
      else some (no_err, db)
]

module _ {M : Type 0} (devices : List (FalFlashDev M)) (partitions : List FalPartition × ℕ) where
  -- The sizes from the partition and its device; `none` where the device is missing, whose null
  -- pointer would be followed, or where its block size is 0.
  unfoldable pub take_sizes : FdbDb → FalPartition → Option (FdbErr × FdbDb)
  unfolding check_sizes
  take_sizes db part = elim (fal_flash_device_find devices part.flash_name) [
    | none ↦ none
    | some dev ↦
        let sec_size = if db.sec_size == 0 then dev.blk_size else db.sec_size in
        let sized = record db { sec_size = sec_size; max_size = part.len } in
        elim (db.sec_size == 0) [
          | true ↦ check_sizes sized
          | false ↦ elim dev.blk_size [
            | zero ↦ none
            | suc b ↦ elim (db.sec_size % suc b == 0) [
              | true ↦ check_sizes sized
              | false ↦ some (init_failed, db)
            ]
          ]
        ]
  ]

  -- `_fdb_init_ex`
  unfoldable pub fdb_init_ex : FdbDb → List ℕ → List ℕ → FdbDbType → Option (FdbErr × FdbDb)
  unfolding check_sizes take_sizes
  fdb_init_ex db name path db_type =
      let named = record db { name = name; db_type = db_type } in
      elim db.init_ok [
        | true ↦ some (no_err, db)
        | false ↦ elim db.file_mode [
          | true ↦ check_sizes named
          | false ↦ elim (fal_partition_find partitions path) [
            | none ↦ some (part_not_found, record named { part = none })
            | some part ↦ take_sizes (record named { part = some part }) part
          ]
        ]
      ]

-- `_fdb_init_finish`
unfoldable pub fdb_init_finish : FdbDb → FdbErr → FdbDb
fdb_init_finish db result = if is_ok result then record db { init_ok = true } else db

-- `_fdb_deinit`
unfoldable pub fdb_deinit : FdbDb → FdbDb
fdb_deinit db = record db { init_ok = false }
