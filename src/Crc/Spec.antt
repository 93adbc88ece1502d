-- ===== src/Crc/Spec.antt =====
-- The table-driven CRC32 computes the bit-by-bit CRC of the reflected polynomial 0xEDB88320.
use flashdb_ko.Prelude.{
  ℕ, zero, suc, ◌*◌, ◌/◌, ◌%◌, ◌^◌, ◌<◌, ◌≡◌, refl, ◌∙◌, ap, List, [], ◌∷◌, true, ◌==◌, ==_iff,
  if◌then◌else◌, bit_and, bit_xor, get_or, IsBytes, all_below, all_below_sound, arith,
}
use native.Mathlib.Nat.{pow-suc}
use flashdb_ko.Prelude.Bits.{
  bit_xor-half, bit_xor-parity, bit_xor_assoc, bit_xor_comm, bit_xor_common, bit_xor_swap,
  bit_xor_fields, bit_xor_byte-div, bit_and_byte,
}
use flashdb_ko.Crc.{crc32_table, all_ones, crc_byte, crc_bytes, fdb_calc_crc32}

-- One step of the shift register.
pub crc_bit : ℕ → ℕ
crc_bit c = if c % 2 == 1 then bit_xor (c / 2) 0xedb8_8320 else c / 2

pub crc_bits : ℕ → ℕ → ℕ
crc_bits zero c = c
crc_bits (suc k) c = crc_bits k (crc_bit c)

-- The reference CRC32: every byte is shifted in by eight steps of the register.
pub reference_bytes : ℕ → List ℕ → ℕ
reference_bytes c [] = c
reference_bytes c (b ∷ buf) = reference_bytes (crc_bits 8 (bit_xor c b)) buf

pub reference_crc32 : ℕ → List ℕ → ℕ
reference_crc32 crc buf = bit_xor (reference_bytes (bit_xor crc all_ones) buf) all_ones

-- The register is linear.
crc_bit-xor : (a b : ℕ) → crc_bit (bit_xor a b) ≡ bit_xor (crc_bit a) (crc_bit b)
unfolding crc_bit
crc_bit-xor a b = ground (
  arith,
  bit_xor-half a b,
  bit_xor-parity a b,
  bit_xor_common (a / 2) (b / 2) 0xedb8_8320,
  bit_xor_swap (a / 2) (b / 2) 0xedb8_8320,
  bit_xor_assoc (a / 2) (b / 2) 0xedb8_8320,
)

crc_bits-xor : (k a b : ℕ) → crc_bits k (bit_xor a b) ≡ bit_xor (crc_bits k a) (crc_bits k b)
unfolding crc_bits
crc_bits-xor zero a b = refl
crc_bits-xor (suc k) a b = rw (crc_bit-xor a b) (crc_bits-xor k (crc_bit a) (crc_bit b))

-- A word whose low byte is clear is shifted right by eight.
crc_bit_even : (c : ℕ) → c % 2 ≡ 0 → crc_bit c ≡ c / 2
unfolding crc_bit
crc_bit_even c h = ground arith

crc_bits_even : (k q : ℕ) → crc_bits k (q * 2 ^ k) ≡ q
unfolding crc_bits
crc_bits_even zero q = omega arith
crc_bits_even (suc k) q = rw halved (crc_bits_even k q)
  where
    halved : crc_bit (q * 2 ^ suc k) ≡ q * 2 ^ k
    halved = omega (
      arith,
      ap (λ (t : ℕ). q * t) (pow-suc 2 k),
      crc_bit_even (q * 2 ^ suc k) (omega (arith, ap (λ (t : ℕ). q * t) (pow-suc 2 k))),
    )

-- Every entry of the table is its index after eight steps.
crc32_table_checked : all_below 256 (λ i. get_or crc32_table i 0 == crc_bits 8 i) ≡ true
unfolding all_below crc_bits crc_bit
crc32_table_checked = refl

pub crc32_table_entry : (i : ℕ) → i < 256 → get_or crc32_table i 0 ≡ crc_bits 8 i
crc32_table_entry i h = (==_iff _ _).0 (all_below_sound 256 _ i crc32_table_checked h)

crc_byte-eq-crc_bits : (c b : ℕ) → b < 256 → crc_byte c b ≡ crc_bits 8 (bit_xor c b)
unfolding crc_byte
crc_byte-eq-crc_bits c b h =
    let x : ℕ = bit_xor c b in
    let low : bit_and x 255 ≡ x % 256 = bit_and_byte x in
    let high : x / 256 ≡ c / 256 = bit_xor_byte-div c b h in
    let whole : bit_xor (x / 256 * 256) (x % 256) ≡ x =
      bit_xor_fields 8 (x / 256) (x % 256) (omega arith) ∙ omega arith in
    cc (
      low,
      high,
      whole,
      crc32_table_entry (x % 256) (omega arith),
      crc_bits-xor 8 (x / 256 * 256) (x % 256),
      crc_bits_even 8 (x / 256),
      bit_xor_comm (crc_bits 8 (x % 256)) (x / 256),
    )

reference_bytes-eq : (c : ℕ) (buf : List ℕ) → IsBytes buf → crc_bytes c buf ≡ reference_bytes c buf
unfolding crc_bytes reference_bytes
reference_bytes-eq c [] h = refl
reference_bytes-eq c (b ∷ buf) h =
    rw (← crc_byte-eq-crc_bits c b h.0) (reference_bytes-eq (crc_byte c b) buf h.1)

-- For every accumulated value and every buffer of bytes, the table-driven function returns the
-- CRC32 that the reference computes bit by bit.
pub fdb_calc_crc32-reference :
    (crc : ℕ) (buf : List ℕ) → IsBytes buf → fdb_calc_crc32 crc buf ≡ reference_crc32 crc buf
unfolding fdb_calc_crc32 reference_crc32
fdb_calc_crc32-reference crc buf h =
    ap (λ (t : ℕ). bit_xor t all_ones) (reference_bytes-eq (bit_xor crc all_ones) buf h)
