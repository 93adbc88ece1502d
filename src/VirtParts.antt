-- ===== src/VirtParts.antt =====
-- porting/fal_flash_virt_parts.c, the device that holds the partition table in memory, with the
-- detection of the partitions in porting/fal_flash_nor_flash.c and porting/fal_flash_mem_blk.c.
pub mod Loaded
pub mod MemEntry
pub mod Detected
pub mod Start
pub mod NoCache
use flashdb_ko.Prelude.{
  ℕ, zero, suc, ◌+◌, ◌*◌, List, [], ◌∷◌, ◌++◌, Option, none, some, Bool, true, false, ◌==◌, ◌||◌,
  leb, ltb, if◌then◌else◌, length,
}
use flashdb_ko.Prelude.Words.{add32}
use flashdb_ko.Bytes.{le32}
use flashdb_ko.MemBlk.{read_cells, write_cells}
use flashdb_ko.Fal.{FalFlashDev, str_eq}
use flashdb_ko.Fal.Table.{fal_part_magic_word}
use flashdb_ko.Fal.Table.Load.{table_item_size}

-- The bytes of `flash_mem`, which is zero before the first use.
abbrev pub FlashMem : Type 0
FlashMem = ℕ → ℕ

-- FLASH_SIZE
abbrev pub flash_size : ℕ
flash_size = 1024

-- `_read`; an offset of 2 ^ 31 or more is a negative `long`.
unfoldable pub read : FlashMem → ℕ → List ℕ → Option ℕ × List ℕ
read flash_mem offset buf =
    if leb 0x8000_0000 offset
    then (some 0, buf)
    else if ltb flash_size (add32 offset (length buf))
    then (some 0, buf)
    else (some (length buf), read_cells flash_mem offset (length buf))

-- `_write` and `_erase`, which are not supported.
unfoldable pub write : FlashMem → ℕ → List ℕ → Option ℕ × FlashMem
write flash_mem offset buf = (some 0, flash_mem)

unfoldable pub erase : FlashMem → ℕ → ℕ → Option ℕ × FlashMem
erase flash_mem offset size = (some 0, flash_mem)

-- `virt_parts`; its name is VIRT_PARTS_FLASH_DEV_NAME.
unfoldable pub virt_parts : FalFlashDev FlashMem
virt_parts = record {
  name = 0x76 ∷ 0x69 ∷ 0x72 ∷ 0x74 ∷ [];
  len = flash_size;
  blk_size = 1024;
  read = read;
  write = write;
  erase = erase;
}

-- `strcpy` of a name to an address.
abbrev pub strcpy : FlashMem → ℕ → List ℕ → FlashMem
strcpy flash_mem at name = write_cells flash_mem at (name ++ (0 ∷ []))

-- What `get_mtd_device` (a parameter: the kernel's MTD layer) tells of a device: its name, its size,
-- its offset in its master, and the name, the size and the erase size of the master.
pub record MtdInfo : Type 0 where
  pub name : List ℕ
  pub size : ℕ
  pub master_ofs : ℕ
  pub master_name : List ℕ
  pub master_size : ℕ
  pub master_erasesize : ℕ

-- The stores of `fal_flash_nor_flash_detect` to the entry at an address.
unfoldable pub store_mtd : FlashMem → ℕ → MtdInfo → FlashMem
store_mtd flash_mem at mtd =
    let m1 = strcpy flash_mem (at + 28) mtd.master_name in
    let m2 = write_cells m1 at (le32 fal_part_magic_word) in
    let m3 = strcpy m2 (at + 4) mtd.name in
    let m4 = write_cells m3 (at + 52) (le32 mtd.master_ofs) in
    write_cells m4 (at + 56) (le32 mtd.size)

module _ (get_mtd_device : ℕ → Option MtdInfo) (param_mtd_name : List ℕ) where
  -- The loop of `fal_flash_nor_flash_detect`, with `n` devices from `i` on to look at: the number of
  -- partitions, and the bytes.
  unfoldable pub detect_loop : ℕ → ℕ → ℕ → FlashMem → ℕ × FlashMem
  unfolding store_mtd
  detect_loop zero i part_num flash_mem = (part_num, flash_mem)
  detect_loop (suc n) i part_num flash_mem = elim (get_mtd_device i) [
    | none ↦ (part_num, flash_mem)
    | some mtd ↦ elim (str_eq mtd.master_name param_mtd_name) [
      | false ↦ detect_loop n (suc i) part_num flash_mem
      | true ↦
          detect_loop n (suc i) (suc part_num)
            (store_mtd flash_mem (table_item_size * part_num) mtd)
    ]
  ]

  -- `fal_flash_nor_flash_detect` on `&parts[0]`
  unfoldable pub fal_flash_nor_flash_detect : FlashMem → ℕ × FlashMem
  unfolding detect_loop
  fal_flash_nor_flash_detect flash_mem = detect_loop 64 0 0 flash_mem

-- `fal_flash_mem_blk_detect` on the entry at an address; it returns 0. `mem_blk_len` is `mem_blk.len`
-- at the time of the call, and the name of the device is MEM_FLASH_DEV_NAME.
unfoldable pub fal_flash_mem_blk_detect : List ℕ → ℕ → FlashMem → ℕ → ℕ × FlashMem
fal_flash_mem_blk_detect param_part_name mem_blk_len flash_mem at =
    let m1 = write_cells flash_mem at (le32 fal_part_magic_word) in
    let m2 = strcpy m1 (at + 4) param_part_name in
    let m3 = strcpy m2 (at + 28) (0x4d ∷ 0x45 ∷ 0x4d ∷ []) in
    let m4 = write_cells m3 (at + 52) (le32 0) in (0, write_cells m4 (at + 56) (le32 mem_blk_len))

-- `detect_partition`, the `_init` of the device: the count that it returns, and the bytes.
unfoldable pub detect_partition :
    (ℕ → Option MtdInfo) → List ℕ → List ℕ → ℕ → FlashMem → ℕ × FlashMem
unfolding fal_flash_nor_flash_detect fal_flash_mem_blk_detect
detect_partition get_mtd_device param_mtd_name param_part_name mem_blk_len flash_mem =
    let (count, m1) = fal_flash_nor_flash_detect get_mtd_device param_mtd_name flash_mem in
    let (ret, m2) =
      fal_flash_mem_blk_detect param_part_name mem_blk_len m1 (table_item_size * count) in
    (count + ret, m2)
