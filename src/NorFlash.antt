-- ===== src/NorFlash.antt =====
-- porting/fal_flash_nor_flash.c: the device for a NOR flash, whose operations do nothing yet. Its
-- mutex is left out, since an operation is one step here; the detection of its partitions is in
-- VirtParts.
use flashdb_ko.Prelude.{ℕ, List, Option, none, some}
use flashdb_ko.Fal.{FalFlashDev}
use flashdb_ko.VirtParts.{MtdInfo}

-- The fields of `nor_flash0` that `_init` sets.
pub record NorFlash : Type 0 where
  pub name : List ℕ
  pub len : ℕ
  pub blk_size : ℕ

-- `_init`: it returns 0. Without a device 0 the source takes the master of an error pointer, which
-- has no result here.
unfoldable pub init : (ℕ → Option MtdInfo) → NorFlash → Option (ℕ × NorFlash)
init get_mtd_device nor_flash0 = elim (get_mtd_device 0) [
  | none ↦ none
  | some mtd ↦ some (
    0,
    record nor_flash0 {
      len = mtd.master_size;
      blk_size = mtd.master_erasesize;
      name = mtd.master_name;
    },
  )
]

-- `_read`, `_write` and `_erase`: 0 bytes.
unfoldable pub read : NorFlash → ℕ → List ℕ → Option ℕ × List ℕ
read nor_flash0 offset buf = (some 0, buf)

unfoldable pub write : NorFlash → ℕ → List ℕ → Option ℕ × NorFlash
write nor_flash0 offset buf = (some 0, nor_flash0)

unfoldable pub erase : NorFlash → ℕ → ℕ → Option ℕ × NorFlash
erase nor_flash0 offset size = (some 0, nor_flash0)

-- `nor_flash0` as an entry of the device table.
unfoldable pub nor_flash0 : NorFlash → FalFlashDev NorFlash
nor_flash0 state = record {
  name = state.name;
  len = state.len;
  blk_size = state.blk_size;
  read = read;
  write = write;
  erase = erase;
}
