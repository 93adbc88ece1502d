-- ===== src/Tests/Table.antt =====
-- An instance of the theorem on the search for the partition table.
use flashdb_ko.Prelude.{
  ℕ, ◌+◌, ◌≤◌, ◌≡◌, refl, ap, List, Option, none, some, ◌==◌, if◌then◌else◌, length, replicate,
  arith,
}
use flashdb_ko.MemBlk
use flashdb_ko.MemBlk.{MemBlk, int_result, mem_blk, read_cells}
use flashdb_ko.Bytes.{word_at}
use flashdb_ko.Fal.Table.{find_table}
use flashdb_ko.MemBlk.Words.{word_in}
use flashdb_ko.Fal.Table.Search.{Found, find_table-Found}

-- The magic word stands at the offset 700.
abbrev table_cells : ℕ → ℕ
table_cells x =
    if x == 700
    then 0x30
    else if x == 701
    then 0x31
    else if x == 702
    then 0x50
    else if x == 703
    then 0x45
    else 0xff

table_reads :
    (off : ℕ) (buf : List ℕ)
    → off ≤ 959
    → length buf ≡ 64
    → (mem_blk 1024).read (some table_cells) off buf ≡ (some 64, read_cells table_cells off 64)
unfolding mem_blk MemBlk.read
table_reads off buf h size = ap (λ (n : ℕ). (int_result n, read_cells table_cells off n)) size

find_table-Found_example :
    (r : Option ℕ) × (find_table (mem_blk 1024) (some table_cells) 960 959 (replicate 64 0)
      ≡ some r)
    × Found (word_in table_cells) 0 1020 r
find_table-Found_example =
    find_table-Found (mem_blk 1024) (some table_cells) table_cells 959 table_reads (replicate 64 0)
      (λ e. absurd (omega (arith, e))) (λ e. absurd (omega (arith, e))) refl

-- The search finds it there.
find_table_run :
    find_table (mem_blk 1024) (some table_cells) 960 959 (replicate 64 0) ≡ some (some 700)
unfolding find_table mem_blk MemBlk.read word_at read_cells
find_table_run = refl

-- A search whose first window is at 62 misses a magic word at 61: the next window is at 0.
find_table_gap :
    find_table (mem_blk 1024) (some (λ (x : ℕ). table_cells (x + 639))) 63 62 (replicate 64 0)
    ≡ some none
unfolding find_table mem_blk MemBlk.read word_at read_cells
find_table_gap = refl
