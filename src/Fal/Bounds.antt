-- ===== src/Fal/Bounds.antt =====
-- What the bound check `addr + size > part->len` of fal_partition.c keeps out, and what it lets by.
use flashdb_ko.Prelude.{ℕ, ◌+◌, ◌≤◌, ◌<◌, ◌≡◌, ◌⊎◌, List, Option, none, some, length, arith}
use flashdb_ko.Fal.{FalPartition, fal_partition_write, fal_partition_erase}
use flashdb_ko.MemBlk
use flashdb_ko.MemBlk.{MemBlk, mem_blk, write_cells}
use flashdb_ko.MemBlk.Cells.{write_cells-outside, fill_cells-outside}

-- The byte of a device at an offset.
abbrev pub cell_of : MemBlk → ℕ → Option ℕ
cell_of none x = none
cell_of (some m) x = some (m x)

-- The offset lies outside the partition.
abbrev pub Outside : FalPartition → ℕ → Type 0
Outside part x = (x < part.offset) ⊎ (part.offset + part.len ≤ x)

module _ (n : ℕ) (part : FalPartition) (fits : part.offset + part.len < 0x1_0000_0000) where
  -- Where `addr + size` does not wrap, neither a write nor an erase changes a byte of the device
  -- outside the partition, whether the call is accepted or refused.
  pub fal_partition_isolated :
      (m : MemBlk) (addr size : ℕ) (buf : List ℕ) (x : ℕ)
      → addr + size < 0x1_0000_0000
      → length buf ≡ size
      → Outside part x
      → (cell_of (fal_partition_write (some (mem_blk n)) part m addr buf).1 x ≡ cell_of m x)
        × (cell_of (fal_partition_erase (some (mem_blk n)) part m addr size).1 x ≡ cell_of m x)
  unfolding fal_partition_write fal_partition_erase mem_blk MemBlk.write MemBlk.erase
  fal_partition_isolated none addr size buf x h e out = (ground arith, ground arith)
  fal_partition_isolated (some m) addr size buf x h e out = (
    ground (arith, write_cells-outside m (part.offset + addr) buf x),
    ground (arith, fill_cells-outside m (part.offset + addr) size 0xff x),
  )
