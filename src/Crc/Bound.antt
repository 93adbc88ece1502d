-- ===== src/Crc/Bound.antt =====
-- The result of `fdb_calc_crc32` is a word, whatever the buffer holds.
use flashdb_ko.Prelude.{
  ℕ, ◌/◌, ◌^◌, ◌<◌, ◌≡◌, refl, List, [], ◌∷◌, true, bit_and, bit_xor, get_or, all_below,
  all_below_sound, ltb, arith,
}
use flashdb_ko.Prelude.Bits.{bit_xor_below, bit_and_byte}
use flashdb_ko.Crc.{all_ones, crc32_table, crc_byte, crc_bytes, fdb_calc_crc32}

table_checked : all_below 256 (λ i. ltb (get_or crc32_table i 0) 0x1_0000_0000) ≡ true
unfolding all_below
table_checked = refl

table_below : (x : ℕ) → get_or crc32_table (bit_and x 0xff) 0 < 2 ^ 32
table_below x =
    let low : bit_and x 0xff < 256 = omega (arith, bit_and_byte x) in
    ground (
      arith,
      all_below_sound 256 (λ i. ltb (get_or crc32_table i 0) 0x1_0000_0000) (bit_and x 0xff)
          table_checked low,
    )

crc_bytes_below : (crc : ℕ) (buf : List ℕ) → crc < 2 ^ 32 → crc_bytes crc buf < 2 ^ 32
unfolding crc_bytes crc_byte
crc_bytes_below crc [] h = h
crc_bytes_below crc (b ∷ buf) h =
    crc_bytes_below (crc_byte crc b) buf
      (bit_xor_below 32 _ (crc / 2 ^ 8) (table_below (bit_xor crc b)) (omega arith))

pub fdb_calc_crc32_below :
    (crc : ℕ) (buf : List ℕ) → crc < 0x1_0000_0000 → fdb_calc_crc32 crc buf < 0x1_0000_0000
unfolding fdb_calc_crc32
fdb_calc_crc32_below crc buf h =
    bit_xor_below 32 _ all_ones
      (crc_bytes_below (bit_xor crc all_ones) buf (bit_xor_below 32 crc all_ones h (omega arith)))
      (omega arith)
