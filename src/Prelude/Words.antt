-- ===== src/Prelude/Words.antt =====
-- 32-bit words: the target's `uint32_t`, `size_t` and `unsigned long` are 32 bits wide (ARCH := arm
-- in Makefile), and `fdb_time_t` is an `int32_t`, kept as its bit pattern.
use Prim.Native.Nat.{ℕ, ◌+◌, ◌-◌, ◌*◌, ◌/◌, ◌%◌, ◌<◌}
use mathlib.Core.Path.{◌≡◌}
use mathlib.Core.Bool.{Bool}
use native.Mathlib.Omega.{arith}
use flashdb_ko.Prelude.Tests.{ltb, leb}

abbrev pub u32 : ℕ → ℕ
u32 n = n % 0x1_0000_0000

-- Unsigned addition and subtraction, which wrap.
abbrev pub add32 : ℕ → ℕ → ℕ
add32 a b = (a + b) % 0x1_0000_0000

abbrev pub sub32 : ℕ → ℕ → ℕ
sub32 a b = (a + 0x1_0000_0000 - b) % 0x1_0000_0000

-- An order of `int32_t` values is the order of the patterns with the sign bit flipped.
abbrev pub flip_sign : ℕ → ℕ
flip_sign a = (a + 0x8000_0000) % 0x1_0000_0000

abbrev pub lt_int32 : ℕ → ℕ → Bool
lt_int32 a b = ltb (flip_sign a) (flip_sign b)

abbrev pub le_int32 : ℕ → ℕ → Bool
le_int32 a b = leb (flip_sign a) (flip_sign b)

-- `FDB_DATA_UNUSED`, `FDB_FAILED_ADDR` and `FAILED_ADDR`.
abbrev pub failed_addr : ℕ
failed_addr = 0xffff_ffff

-- `FDB_ALIGN`, `FDB_ALIGN_DOWN`, and `FDB_WG_ALIGN`, `FDB_WG_ALIGN_DOWN` at FDB_WRITE_GRAN = 1.
unfoldable pub fdb_align : ℕ → ℕ → ℕ
fdb_align size align = let top = sub32 (add32 size align) 1 in sub32 top (top % align)

unfoldable pub fdb_align_down : ℕ → ℕ → ℕ
fdb_align_down size align = size / align * align

unfoldable pub wg_align : ℕ → ℕ
unfolding fdb_align
wg_align size = fdb_align size ((1 + 7) / 8)

unfoldable pub wg_align_down : ℕ → ℕ
unfolding fdb_align_down
wg_align_down size = fdb_align_down size ((1 + 7) / 8)

pub wg_align-id : (size : ℕ) → size < 0x1_0000_0000 → wg_align size ≡ size
unfolding wg_align
wg_align-id size h = omega arith

pub wg_align_down-id : (size : ℕ) → wg_align_down size ≡ size
unfolding wg_align_down
wg_align_down-id size = omega arith
