-- ===== src/Crc/Chunks.antt =====
-- The accumulated CRC32: `create_kv_blob` and `read_kv` of fdb_kvdb.c feed a KV piece by piece.
use flashdb_ko.Prelude.{ℕ, ◌≡◌, refl, List, [], ◌∷◌, ◌++◌, bit_xor}
use flashdb_ko.Prelude.Bits.{bit_xor_cancel}
use flashdb_ko.Crc.{all_ones, crc_byte, crc_bytes, fdb_calc_crc32}

pub crc_bytes-append :
    (crc : ℕ) (a b : List ℕ) → crc_bytes crc (a ++ b) ≡ crc_bytes (crc_bytes crc a) b
unfolding crc_bytes
crc_bytes-append crc [] b = refl
crc_bytes-append crc (x ∷ a) b = crc_bytes-append (crc_byte crc x) a b

-- Feeding a buffer in two pieces, the first result passed to the second call, gives the CRC32 of
-- the two pieces joined, whatever the accumulated value is.
pub fdb_calc_crc32-append :
    (crc : ℕ) (a b : List ℕ) → fdb_calc_crc32 (fdb_calc_crc32 crc a) b ≡ fdb_calc_crc32 crc (a ++ b)
unfolding fdb_calc_crc32
fdb_calc_crc32-append crc a b = rw (
  bit_xor_cancel (crc_bytes (bit_xor crc all_ones) a) all_ones,
  crc_bytes-append (bit_xor crc all_ones) a b,
)

pub fdb_calc_crc32-nil : (crc : ℕ) → fdb_calc_crc32 crc [] ≡ crc
unfolding fdb_calc_crc32 crc_bytes
fdb_calc_crc32-nil crc = bit_xor_cancel crc all_ones
