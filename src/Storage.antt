-- ===== src/Storage.antt =====
-- The storage layer of FlashDB/src/fdb_utils.c, in the configuration of porting/inc/fdb_cfg.h:
-- FDB_USING_FAL_MODE alone, so the file-mode branches are compiled out, over the `mem_blk` device.
pub mod Laws
use flashdb_ko.Prelude.{
  ℕ, ◌+◌, List, [], Option, none, some, Bool, true, false, if◌then◌else◌, ltb, length, replicate,
}
use flashdb_ko.Fal.{
  FalFlashDev, FalPartition, fal_partition_read, fal_partition_write, fal_partition_erase,
}
use flashdb_ko.MemBlk.{MemBlk, mem_blk}

-- `fdb_err_t`
pub data FdbErr : Type 0 where
  no_err erase_err read_err write_err part_not_found kv_name_err kv_name_exist saved_full
        init_failed :
      FdbErr

-- `result == FDB_NO_ERR`
unfoldable pub is_ok : FdbErr → Bool
is_ok no_err = true
is_ok _ = false

-- What the functions below reach through `db`: whether `file_mode` is set, the partition, the
-- state of the device that the partition stands on with its length, and the byte that an
-- uninitialised local buffer holds.
pub record Flash : Type 0 where
  pub file_mode : Bool
  pub part : FalPartition
  pub dev_len : ℕ
  pub block : MemBlk
  pub junk : ℕ

abbrev pub device : Flash → Option (FalFlashDev MemBlk)
device fl = some (mem_blk fl.dev_len)

-- `_fdb_flash_read` into a buffer: the error and the buffer after the call.
unfoldable pub flash_read : Flash → ℕ → List ℕ → FdbErr × List ℕ
unfolding fal_partition_read mem_blk
flash_read fl addr buf =
    if fl.file_mode
    then (read_err, buf)
    else (let (ret, buf') = fal_partition_read (device fl) fl.part fl.block addr buf in
        elim ret [ none ↦ (read_err, buf') | some n ↦ (no_err, buf') ])

-- A read of `n` bytes into a local buffer that nothing has initialised.
unfoldable pub flash_fetch : Flash → ℕ → ℕ → List ℕ
unfolding flash_read
flash_fetch fl addr n = (flash_read fl addr (replicate n fl.junk)).1

-- `_fdb_flash_write`; `sync` is used in file mode only.
unfoldable pub flash_write : Flash → ℕ → List ℕ → FdbErr × Flash
unfolding fal_partition_write mem_blk
flash_write fl addr buf =
    if fl.file_mode
    then (write_err, fl)
    else (let (ret, block') = fal_partition_write (device fl) fl.part fl.block addr buf in
        let fl' = record fl { block = block' } in
        elim ret [ none ↦ (write_err, fl') | some n ↦ (no_err, fl') ])

-- `_fdb_flash_erase`
unfoldable pub flash_erase : Flash → ℕ → ℕ → FdbErr × Flash
unfolding fal_partition_erase mem_blk
flash_erase fl addr size =
    if fl.file_mode
    then (erase_err, fl)
    else (let (ret, block') = fal_partition_erase (device fl) fl.part fl.block addr size in
        let fl' = record fl { block = block' } in
        elim ret [ none ↦ (erase_err, fl') | some n ↦ (no_err, fl') ])
