-- ===== src/Fal.antt =====
-- FlashDB/port/fal: the devices and partitions of fal_flash.c and fal_partition.c, over the device
-- structures of fal_def.h. A C string is the list of its bytes, and an `int` result is the number
-- that a driver returns, or `none` for a negative one. `log_e` and `log_i` output is left out.
pub mod Bounds
pub mod Table
pub mod Init
use flashdb_ko.Prelude.{
  ℕ, zero, suc, List, [], ◌∷◌, Option, none, some, Bool, true, false, ◌&&◌, ◌||◌, ◌==◌, ltb, leb,
  if◌then◌else◌, length,
}
use flashdb_ko.Prelude.Words.{add32, le_int32}

-- `struct fal_flash_dev`, over the state `M` of the device. A read gets the caller's buffer and
-- returns it filled; a driver's `init` is called at start-up only.
pub record FalFlashDev (M : Type 0) : Type 0 where
  pub name : List ℕ
  pub len : ℕ
  pub blk_size : ℕ
  pub read : M → ℕ → List ℕ → Option ℕ × List ℕ
  pub write : M → ℕ → List ℕ → Option ℕ × M
  pub erase : M → ℕ → ℕ → Option ℕ × M

-- `struct fal_partition`
pub record FalPartition : Type 0 where
  pub magic_word : ℕ
  pub name : List ℕ
  pub flash_name : List ℕ
  pub offset : ℕ
  pub len : ℕ

abbrev pub fal_dev_name_max : ℕ
fal_dev_name_max = 24

-- `!strcmp`
unfoldable pub str_eq : List ℕ → List ℕ → Bool
str_eq [] [] = true
str_eq [] (y ∷ ys) = false
str_eq (x ∷ xs) [] = false
str_eq (x ∷ xs) (y ∷ ys) = x == y && str_eq xs ys

-- `!strncmp`: a list that ends stands for its terminating NUL, at which the comparison stops.
unfoldable pub strn_eq : List ℕ → List ℕ → ℕ → Bool
strn_eq xs ys zero = true
strn_eq [] [] (suc n) = true
strn_eq [] (y ∷ ys) (suc n) = y == 0
strn_eq (x ∷ xs) [] (suc n) = x == 0
strn_eq (x ∷ xs) (y ∷ ys) (suc n) = x == y && (x == 0 || strn_eq xs ys n)

module _ {M : Type 0} where
  -- `fal_flash_device_find`, over `device_table`
  unfoldable pub fal_flash_device_find : List (FalFlashDev M) → List ℕ → Option (FalFlashDev M)
  fal_flash_device_find [] name = none
  fal_flash_device_find (d ∷ table) name =
      if strn_eq name d.name fal_dev_name_max then some d else fal_flash_device_find table name

  -- `check_and_update_part_cache`: the cache entries after the call and whether it returned 0. An
  -- entry whose device is missing keeps what it held; the list starts with the fresh cache.
  unfoldable pub check_and_update_part_cache :
      List (FalFlashDev M)
      → List FalPartition
      → List (Option (FalFlashDev M))
      → Option (List (Option (FalFlashDev M)))
  check_and_update_part_cache devices [] cache = some cache
  check_and_update_part_cache devices (p ∷ table) [] = some []
  check_and_update_part_cache devices (p ∷ table) (old ∷ cache) =
      let rest = check_and_update_part_cache devices table cache in
      elim (fal_flash_device_find devices p.flash_name) [
        | none ↦ elim rest [ none ↦ none | some r ↦ some (old ∷ r) ]
        | some d ↦
            if le_int32 d.len p.offset
            then none
            else elim rest [ none ↦ none | some r ↦ some (some d ∷ r) ]
      ]

-- The loop of `fal_partition_find`: the first entry of that name among the first `len` ones.
unfoldable pub find_partition : ℕ → List FalPartition → List ℕ → Option FalPartition
find_partition zero table name = none
find_partition (suc len) [] name = none
find_partition (suc len) (p ∷ table) name =
    let rest = find_partition len table name in if str_eq name p.name then some p else rest

-- `fal_partition_find`, on `partition_table` and `partition_table_len`. The table has that many
-- entries at least.
unfoldable pub fal_partition_find : List FalPartition × ℕ → List ℕ → Option FalPartition
unfolding find_partition
fal_partition_find (partition_table, partition_table_len) name =
    find_partition partition_table_len partition_table name

module _ {M : Type 0} (dev : Option (FalFlashDev M)) (part : FalPartition) where
  -- `fal_partition_read`; `dev` is what `flash_device_find_by_part` finds in the cache.
  unfoldable pub fal_partition_read : M → ℕ → List ℕ → Option ℕ × List ℕ
  fal_partition_read m addr buf =
      if ltb part.len (add32 addr (length buf))
      then (none, buf)
      else elim dev [ none ↦ (none, buf) | some d ↦ d.read m (add32 part.offset addr) buf ]

  -- `fal_partition_write`
  unfoldable pub fal_partition_write : M → ℕ → List ℕ → Option ℕ × M
  fal_partition_write m addr buf =
      if ltb part.len (add32 addr (length buf))
      then (none, m)
      else elim dev [ none ↦ (none, m) | some d ↦ d.write m (add32 part.offset addr) buf ]

  -- `fal_partition_erase`
  unfoldable pub fal_partition_erase : M → ℕ → ℕ → Option ℕ × M
  fal_partition_erase m addr size =
      if ltb part.len (add32 addr size)
      then (none, m)
      else elim dev [ none ↦ (none, m) | some d ↦ d.erase m (add32 part.offset addr) size ]

  -- `fal_partition_erase_all`
  unfoldable pub fal_partition_erase_all : M → Option ℕ × M
  unfolding fal_partition_erase
  fal_partition_erase_all m = fal_partition_erase m 0 part.len
