-- ===== src/Fal/Table.antt =====
-- Where `fal_partition_init` of FlashDB/port/fal/src/fal_partition.c finds the partition table.
pub mod Search
pub mod Load
use flashdb_ko.Prelude.{
  ℕ, zero, suc, ◌+◌, ◌-◌, List, Option, none, some, ◌==◌, leb, if◌then◌else◌, replicate,
}
use flashdb_ko.Bytes.{word_at}
use flashdb_ko.Fal.{FalFlashDev}

-- FAL_PART_MAGIC_WORD
abbrev pub fal_part_magic_word : ℕ
fal_part_magic_word = 0x45503130

-- The loop over `read_buf`: the first position, from `i` on and for `n` positions, of the magic word.
unfoldable pub find_magic : ℕ → ℕ → List ℕ → Option ℕ
find_magic zero i read_buf = none
find_magic (suc n) i read_buf =
    let rest = find_magic n (suc i) read_buf in
    if word_at read_buf i == fal_part_magic_word then some i else rest

-- Where the next read starts, or `none` where the search has failed.
unfoldable pub next_offset : ℕ → Option ℕ
next_offset offset =
    if leb 64 offset then some (offset - 64 + 3) else if offset == 0 then none else some 0

module _ {M : Type 0} (flash_dev : FalFlashDev M) (m : M) where
  -- The loop that looks for the table: its offset, or `none` inside where there is none or where a
  -- read failed; `none` outside means that the fuel ran out.
  unfoldable pub find_table : ℕ → ℕ → List ℕ → Option (Option ℕ)
  unfolding find_magic next_offset
  find_table zero offset read_buf = none
  find_table (suc fuel) offset read_buf =
      let (ret, buf) = flash_dev.read m offset read_buf in
      elim ret [
        | none ↦ some none
        | some n ↦ elim n [
          | zero ↦ some none
          | suc _ ↦ elim (find_magic 61 0 buf) [
            | some i ↦ some (some (offset + i))
            | none ↦ elim (next_offset offset) [
              | none ↦ some none
              | some offset' ↦ find_table fuel offset' buf
            ]
          ]
        ]
      ]
