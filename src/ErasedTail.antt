-- ===== src/ErasedTail.antt =====
-- `_fdb_continue_ff_addr` of FlashDB/src/fdb_utils.c: where the erased tail of a range begins.
pub mod Spec
use flashdb_ko.Prelude.{
  ℕ, zero, suc, ◌+◌, ◌-◌, ◌/◌, List, [], ◌∷◌, ◌++◌, Option, none, some, Bool, true, false, ◌&&◌,
  not, ◌==◌, ltb, if◌then◌else◌, take, drop, replicate,
}
use flashdb_ko.Prelude.Words.{add32, sub32, wg_align}
use flashdb_ko.Storage.{Flash, flash_read}

-- The inner loop over `buf[i]`, with `start`, `addr` and `last_data`; it returns the last two.
unfoldable pub scan_buf : List ℕ → ℕ → ℕ → ℕ → ℕ → ℕ × ℕ
scan_buf [] start i addr last_data = (addr, last_data)
scan_buf (b ∷ buf) start i addr last_data =
    scan_buf buf start (i + 1)
      (if not (last_data == 0xff) && b == 0xff then add32 start i else addr) b

-- The outer loop; `none` where the fuel, one unit for each round, is used up.
unfoldable pub scan_loop : Flash → ℕ → ℕ → ℕ → List ℕ → ℕ → ℕ → Option (ℕ × ℕ)
scan_loop fl end zero start buf addr last_data = none
scan_loop fl end (suc fuel) start buf addr last_data = elim (ltb start end) [
  | false ↦ some (addr, last_data)
  | true ↦
      let read_size = if ltb (add32 start 32) end then 32 else sub32 end start in
      let part = (flash_read fl start (take read_size buf)).1 in
      let (addr', last_data') = scan_buf part start 0 addr last_data in
      scan_loop fl end fuel (add32 start 32) (part ++ drop read_size buf) addr' last_data'
]

-- The rounds that a range needs at most.
abbrev pub scan_fuel : ℕ → ℕ → ℕ
scan_fuel start end = suc (suc ((end - start) / 32))

unfoldable pub fdb_continue_ff_addr : Flash → ℕ → ℕ → Option ℕ
fdb_continue_ff_addr fl start end =
    elim (scan_loop fl end (scan_fuel start end) start (replicate 32 fl.junk) start 0x00) [
      | none ↦ none
      | some (addr, last_data) ↦ some (if last_data == 0xff then wg_align addr else end)
    ]
