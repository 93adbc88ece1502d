-- ===== src/Tests/Layer.antt =====
-- Runs and instances for the layers below the databases: fdb_utils.c, fal_partition.c and the
-- memory device.
use flashdb_ko.Prelude.{
  ℕ, ◌+◌, ◌≡◌, refl, inr, List, [], ◌∷◌, ◌++◌, some, false, ◌==◌, if◌then◌else◌, arith,
}
use flashdb_ko.Crc.{fdb_calc_crc32}
use flashdb_ko.Crc.Chunks.{fdb_calc_crc32-append}
use flashdb_ko.Crc.Spec.{reference_crc32, fdb_calc_crc32-reference}
use flashdb_ko.Fal.{FalPartition, fal_partition_write, fal_partition_erase}
use flashdb_ko.Fal.Bounds.{cell_of, fal_partition_isolated}
use flashdb_ko.MemBlk
use flashdb_ko.MemBlk.{mem_blk, read_cells}
use flashdb_ko.Prelude.Words.{wg_align}
use flashdb_ko.Storage.{Flash, no_err, flash_read}
use flashdb_ko.Storage.Laws.{Ready}
use flashdb_ko.Status.{fdb_write_status, fdb_read_status}
use flashdb_ko.Status.Stored.{read_status-write_status}
use flashdb_ko.ErasedTail.{scan_buf, scan_loop, fdb_continue_ff_addr}
use flashdb_ko.ErasedTail.Spec.{TailAt, fdb_continue_ff_addr-TailAt}

-- A partition in the middle of a device, whose bytes are 7 up to offset 70 of the partition and
-- erased from there.
abbrev pub part : FalPartition
part = record { magic_word = 0; name = []; flash_name = []; offset = 512; len = 2048 }

abbrev pub cells : ℕ → ℕ
cells x = if x == 581 then 7 else 255

abbrev pub fl : Flash
fl = record { file_mode = false; part = part; dev_len = 4096; block = some cells; junk = 0 }

pub fl-Ready : Ready fl cells
fl-Ready = record { no_file = refl; block_is = refl; fits = omega arith }

-- The check value of CRC-32, of the digits 1 to 9.
abbrev digits : List ℕ
digits = 49 ∷ 50 ∷ 51 ∷ 52 ∷ 53 ∷ 54 ∷ 55 ∷ 56 ∷ 57 ∷ []

crc_of_digits : fdb_calc_crc32 0 digits ≡ 0xcbf43926
unfolding fdb_calc_crc32
crc_of_digits = refl

fdb_calc_crc32-append_example :
    fdb_calc_crc32 (fdb_calc_crc32 0 (49 ∷ 50 ∷ [])) (51 ∷ [])
    ≡ fdb_calc_crc32 0 ((49 ∷ 50 ∷ []) ++ (51 ∷ []))
fdb_calc_crc32-append_example = fdb_calc_crc32-append 0 (49 ∷ 50 ∷ []) (51 ∷ [])

fdb_calc_crc32-reference_example :
    fdb_calc_crc32 0 (49 ∷ 200 ∷ []) ≡ reference_crc32 0 (49 ∷ 200 ∷ [])
fdb_calc_crc32-reference_example =
    fdb_calc_crc32-reference 0 (49 ∷ 200 ∷ []) (omega arith, (omega arith, tt))

fal_partition_isolated_example :
    (cell_of (fal_partition_write (some (mem_blk 4096)) part (some cells) 2046 (1 ∷ 2 ∷ [])).1 2560
      ≡ some 255)
    × (cell_of (fal_partition_erase (some (mem_blk 4096)) part (some cells) 2046 2).1 2560
        ≡ some 255)
fal_partition_isolated_example =
    fal_partition_isolated 4096 part (omega arith) (some cells) 2046 2 (1 ∷ 2 ∷ []) 2560
      (omega arith) refl (inr (omega arith))

read_status-write_status_example :
    ((fdb_write_status fl 16 6 3).0 ≡ no_err)
    × (fdb_read_status (fdb_write_status fl 16 6 3).1 16 6 ≡ 3)
read_status-write_status_example =
    read_status-write_status 6 3 (omega arith) (omega arith) (omega arith) fl-Ready 16 (omega arith)

fdb_continue_ff_addr-TailAt_example :
    (r : ℕ) × (fdb_continue_ff_addr fl 0 100 ≡ some r) × TailAt (λ x. cells (512 + x)) 0 100 r
fdb_continue_ff_addr-TailAt_example =
    fdb_continue_ff_addr-TailAt fl-Ready 0 100 (omega arith) (omega arith) (omega arith)

erased_tail : fdb_continue_ff_addr fl 0 100 ≡ some 70
unfolding fdb_continue_ff_addr scan_loop scan_buf flash_read MemBlk.read read_cells wg_align
erased_tail = refl
