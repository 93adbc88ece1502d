-- ===== src/VirtParts/Start.antt =====
-- The detection of porting/fal_flash_virt_parts.c, the loading by `fal_partition_init` and the
-- lookup by `fal_partition_find` of FlashDB/port/fal/src/fal_partition.c, one after the other.
use flashdb_ko.Prelude.{false, ℕ, ◌≡◌, List, Option, some, false}
use flashdb_ko.Prelude.Words.{le_int32}
use flashdb_ko.Fal.{FalFlashDev, FalPartition, fal_flash_device_find}
use flashdb_ko.VirtParts.{FlashMem, MtdInfo, detect_partition}

-- The offset of a partition, as a `long`, lies on its device, if the device is there.
abbrev pub Placed : {M : Type 0} → List (FalFlashDev M) → FalPartition → Type 0
Placed devices p =
    (d : _) → fal_flash_device_find devices p.flash_name ≡ some d → le_int32 d.len p.offset ≡ false

-- A device that shows the memory as `detect_partition` has left it.
module _ {M : Type 0} (dev : FalFlashDev M) (m : M) (devices : List (FalFlashDev M))
    (get_mtd_device : ℕ → Option MtdInfo) (param_mtd_name name : List ℕ) (len : ℕ)
    (flash_mem : FlashMem) (new_part read_buf : List ℕ)
    (fresh : ℕ → Option (List (Option (FalFlashDev M)))) where
  -- The number of the partitions of the flash, and the memory.
  abbrev count : ℕ
  count = (detect_partition get_mtd_device param_mtd_name name len flash_mem).0

  abbrev cells : FlashMem
  cells = (detect_partition get_mtd_device param_mtd_name name len flash_mem).1
