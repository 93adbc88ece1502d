-- ===== src/MemBlk.antt =====
-- porting/fal_flash_mem_blk.c: the flash device that stands on a block of memory. The mutex around
-- each operation is left out, since an operation is one step here.
pub mod Cells
pub mod Words
use flashdb_ko.Prelude.{
  ℕ, zero, suc, ◌+◌, ◌-◌, ◌*◌, List, [], ◌∷◌, Option, none, some, ◌&&◌, ltb, leb, if◌then◌else◌,
  length, get_or,
}
use flashdb_ko.Fal.{FalFlashDev}

-- `memcpy` out of a memory, into it, and `memset`.
unfoldable pub read_cells : (ℕ → ℕ) → ℕ → ℕ → List ℕ
read_cells m a zero = []
read_cells m a (suc n) = m a ∷ read_cells m (a + 1) n

unfoldable pub write_cells : (ℕ → ℕ) → ℕ → List ℕ → ℕ → ℕ
write_cells m a bs x = if leb a x && ltb x (a + length bs) then get_or bs (x - a) 0 else m x

unfoldable pub fill_cells : (ℕ → ℕ) → ℕ → ℕ → ℕ → ℕ → ℕ
fill_cells m a n v x = if leb a x && ltb x (a + n) then v else m x

-- The memory that `_get_mem_blk_addr` returns, with the bytes of the block; `none` where
-- `flashdb_malloc` (a parameter: the kernel's allocator) returns NULL. The block is allocated at
-- the first use, and its first bytes are those that the allocator hands out.
abbrev pub MemBlk : Type 0
MemBlk = Option (ℕ → ℕ)

-- `int ret = size`: the number that an operation returns is negative from 2 ^ 31 on.
abbrev pub int_result : ℕ → Option ℕ
int_result size = if ltb size 0x8000_0000 then some size else none

-- `_read`: 0 bytes, and the buffer as it was, where there is no block.
unfoldable pub read : MemBlk → ℕ → List ℕ → Option ℕ × List ℕ
read none offset buf = (some 0, buf)
read (some m) offset buf = (int_result (length buf), read_cells m offset (length buf))

-- `_write`
unfoldable pub write : MemBlk → ℕ → List ℕ → Option ℕ × MemBlk
write none offset buf = (some 0, none)
write (some m) offset buf = (int_result (length buf), some (write_cells m offset buf))

-- `_erase`
unfoldable pub erase : MemBlk → ℕ → ℕ → Option ℕ × MemBlk
erase none offset size = (some 0, none)
erase (some m) offset size = (int_result size, some (fill_cells m offset size 0xff))

-- `mem_blk`; its name is MEM_FLASH_DEV_NAME, and `_init` sets its length to `param_part_size`.
unfoldable pub mem_blk : ℕ → FalFlashDev MemBlk
mem_blk param_part_size = record {
  name = 0x4d ∷ 0x45 ∷ 0x4d ∷ [];
  len = param_part_size;
  blk_size = 4096;
  read = read;
  write = write;
  erase = erase;
}
