-- ===== src/Fal/Table/Load.antt =====
-- `fal_partition_init` of FlashDB/port/fal/src/fal_partition.c behind the search for the table, as it
-- is built with FDB_LKM: the entries are counted, and then read into a table of that size.
use flashdb_ko.Prelude.{
  ℕ, zero, suc, ◌-◌, ◌*◌, List, [], ◌∷◌, ◌++◌, Option, none, some, Bool, true, false, ◌==◌,
  if◌then◌else◌, drop, replicate,
}
use flashdb_ko.Prelude.Words.{u32, sub32, le_int32}
use flashdb_ko.Bytes.{word_at}
use flashdb_ko.Fal.{FalFlashDev, FalPartition, fal_flash_device_find, check_and_update_part_cache}
use flashdb_ko.Fal.Table.{fal_part_magic_word, find_table}

-- sizeof(struct fal_partition), with a `long` and a `size_t` of four bytes.
abbrev pub table_item_size : ℕ
table_item_size = 64

-- The characters up to the first NUL.
unfoldable pub c_string : List ℕ → List ℕ
c_string [] = []
c_string (b ∷ bytes) = let rest = c_string bytes in if b == 0 then [] else b ∷ rest

-- `struct fal_partition` in the 64 bytes of an entry. A name goes on to the first NUL, as `strcmp`
-- reads it.
unfoldable pub partition_of_bytes : List ℕ → FalPartition
unfolding c_string
partition_of_bytes bytes = record {
  magic_word = word_at bytes 0;
  name = c_string (drop 4 bytes);
  flash_name = c_string (drop 28 bytes);
  offset = word_at bytes 52;
  len = word_at bytes 56;
}

-- `memset(new_part, 0x00, n)`; `n` is at most 64 where the block is not overrun.
abbrev pub clear : ℕ → List ℕ → List ℕ
clear n bytes = replicate n 0 ++ drop n bytes

-- `part_table_offset - table_item_size * i`, in 32 bits.
abbrev pub item_offset : ℕ → ℕ → ℕ
item_offset part_table_offset i = sub32 part_table_offset (u32 (table_item_size * i))

module _ {M : Type 0} (flash_dev : FalFlashDev M) (m : M) (part_table_offset : ℕ) where
  -- The loop that counts the entries; `none` means that the fuel ran out.
  unfoldable pub count_entries : ℕ → ℕ → List ℕ → Option ℕ
  count_entries zero table_num new_part = none
  count_entries (suc fuel) table_num new_part =
      let (ret, read_part) =
        flash_dev.read m (item_offset part_table_offset table_num) (clear table_num new_part) in
      elim ret [
        | none ↦ some 0
        | some _ ↦ elim (word_at read_part 0 == fal_part_magic_word) [
          | true ↦ count_entries fuel (suc table_num) read_part
          | false ↦ some table_num
        ]
      ]

  -- The loop that reads `n` entries, from the entry `i` on; `none` where a read fails.
  unfoldable pub load_entries : ℕ → ℕ → Option (List FalPartition)
  unfolding partition_of_bytes
  load_entries zero i = some []
  load_entries (suc n) i =
      let (ret, read_part) =
        flash_dev.read m (item_offset part_table_offset i) (replicate table_item_size 0) in
      let rest = load_entries n (suc i) in
      elim ret [
        | none ↦ none
        | some _ ↦ elim rest [
          | none ↦ none
          | some table ↦ some (partition_of_bytes read_part ∷ table)
        ]
      ]

-- What the allocator and the stack hand out: the bytes of `new_part` and of `read_buf`, whether there
-- is memory for the table, and the fresh cache for a table of some length. `none` is NULL.
pub record Memory (M : Type 0) : Type 0 where
  pub new_part : Option (List ℕ)
  pub read_buf : List ℕ
  pub has_table : Bool
  pub part_flash_cache : ℕ → Option (List (Option (FalFlashDev M)))

-- The static variables of fal_partition.c.
pub record PartState (M : Type 0) : Type 0 where
  pub partition_table : List FalPartition
  pub partition_table_len : ℕ
  pub part_flash_cache : List (Option (FalFlashDev M))
  pub init_ok : Bool

-- FAL_PART_TABLE_FLASH_DEV_NAME, which is "virt", and FAL_PART_TABLE_END_OFFSET.
abbrev pub fal_part_table_flash_dev_name : List ℕ
fal_part_table_flash_dev_name = 0x76 ∷ 0x69 ∷ 0x72 ∷ 0x74 ∷ []

abbrev pub fal_part_table_end_offset : ℕ
fal_part_table_end_offset = 1023

module _ {M : Type 0} (devices : List (FalFlashDev M)) (m : M) (memory : Memory M) where
  -- The call of `check_and_update_part_cache` and what follows. Of its two errors only the wrong
  -- offset sets the length to 0; the entries of the cache that it has then filled are left out.
  unfoldable pub finish_init : PartState M → PartState M
  finish_init st = elim (memory.part_flash_cache st.partition_table_len) [
    | none ↦ record st { part_flash_cache = [] }
    | some fresh ↦ elim (check_and_update_part_cache devices st.partition_table fresh) [
      | none ↦ record st { partition_table_len = 0 }
      | some cache ↦ record st { part_flash_cache = cache; init_ok = true }
    ]
  ]

  -- From where the table was found on.
  unfoldable pub load_table : FalFlashDev M → List ℕ → PartState M → ℕ → Option (PartState M)
  unfolding count_entries load_entries finish_init
  load_table flash_dev new_part st part_table_offset =
      elim (count_entries flash_dev m part_table_offset (suc (suc part_table_offset)) 0 new_part) [
        | none ↦ none
        | some table_num ↦ elim table_num [
          | zero ↦ some st
          | suc n ↦ elim memory.has_table [
            | false ↦ some (record st { partition_table = [] })
            | true ↦ elim (load_entries flash_dev m part_table_offset (suc n) 0) [
              | none ↦ some (record st { partition_table = [] })
              | some table ↦
                  some (
                    finish_init
                      (record st { partition_table = table; partition_table_len = suc n }))
            ]
          ]
        ]
      ]

  -- `fal_partition_init`; it returns `partition_table_len`.
  unfoldable pub fal_partition_init : PartState M → Option (ℕ × PartState M)
  unfolding load_table
  fal_partition_init st =
      let done = some (st.partition_table_len, st) in
      elim st.init_ok [
        | true ↦ done
        | false ↦ elim (fal_flash_device_find devices fal_part_table_flash_dev_name) [
          | none ↦ done
          | some flash_dev ↦ elim (le_int32 flash_dev.len fal_part_table_end_offset) [
            | true ↦ done
            | false ↦ elim memory.new_part [
              | none ↦ done
              | some new_part ↦
                  elim (find_table flash_dev m (suc (fal_part_table_end_offset - 64))
                    (fal_part_table_end_offset - 64) memory.read_buf) [
                      | none ↦ none
                      | some found ↦ elim found [
                        | none ↦ done
                        | some part_table_offset ↦
                            elim (load_table flash_dev new_part st part_table_offset) [
                              | none ↦ none
                              | some st' ↦ some (st'.partition_table_len, st')
                            ]
                      ]
                    ]
            ]
          ]
        ]
      ]
