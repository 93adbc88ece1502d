-- ===== src/Kv/Read/CrcLoop.antt =====
-- The CRC loop of `read_kv` in FlashDB/src/fdb_kvdb.c.
use flashdb_ko.Prelude.{
  ℕ, zero, suc, ◌+◌, ◌-◌, ◌<◌, ◌≤◌, ◌≡◌, refl, ap, sym, ◌∙◌, List, [], ◌∷◌, ◌++◌, some, ltb,
  if◌then◌else◌, length, take, drop, length-take, length-drop, length-append, lt→ltb, le→ltb_false,
  arith,
}
use native.Mathlib.Decide.{dec_lt}
use flashdb_ko.Prelude.Words.{add32, sub32, wg_align, wg_align-id}
use flashdb_ko.Crc.{fdb_calc_crc32}
use flashdb_ko.Crc.Chunks.{fdb_calc_crc32-append, fdb_calc_crc32-nil}
use flashdb_ko.MemBlk.{read_cells}
use flashdb_ko.MemBlk.Cells.{length-read_cells, read_cells-append}
use flashdb_ko.Storage.{Flash, flash_read}
use flashdb_ko.Storage.Laws.{Ready, flash_read_lem}
use flashdb_ko.Kv.Read.{crc_loop}

pub take_all : (xs : List ℕ) (n : ℕ) → length xs ≡ n → take n xs ≡ xs
take_all [] zero h = refl
take_all [] (suc n) h = refl
take_all (x ∷ xs) zero h = absurd (omega arith)
take_all (x ∷ xs) (suc n) h = ap (λ (t : List ℕ). x ∷ t) (take_all xs n (omega arith))

module _ {fl : Flash} {m : ℕ → ℕ} (ready : Ready fl m) (addr data_len : ℕ)
    (inside : addr + data_len ≤ fl.part.len) (small : data_len + 32 ≤ 0x1_0000_0000) where
  abbrev range_crc : ℕ → ℕ → ℕ → ℕ
  range_crc crc len n = fdb_calc_crc32 crc (read_cells m (fl.part.offset + addr + len) n)

  -- One read of the loop.
  read_piece :
      (len size : ℕ) (buf : List ℕ)
      → length buf ≡ 32
      → size ≤ 32
      → len + size ≤ data_len
      → (flash_read fl (add32 addr len) (take (wg_align size) buf)).1
        ≡ read_cells m (fl.part.offset + addr + len) size
  read_piece len size buf full small below =
      let whole : wg_align size ≡ size = wg_align-id size (omega (arith, ready.fits)) in
      let at : add32 addr len ≡ addr + len = omega (arith, ready.fits) in
      let taken : length (take size buf) ≡ size = omega (arith, length-take size buf) in
      rw (whole, at, flash_read_lem ready (addr + len) (take size buf) (omega arith), taken)
        (ap (λ (t : ℕ). read_cells m t size) {x = fl.part.offset + (addr + len)}
          {y = fl.part.offset + addr + len} (omega arith))

  abbrev piece_size : ℕ → ℕ
  piece_size len = if ltb (add32 len 32) data_len then 32 else sub32 data_len len

  piece_size-bounds :
      (len : ℕ)
      → len < data_len
      → (0 < piece_size len) × ((piece_size len ≤ 32) × (len + piece_size len ≤ data_len))
  piece_size-bounds len h = ground (arith, ready.fits)

  range_crc-split :
      (crc len size : ℕ)
      → len + size ≤ data_len
      → range_crc (range_crc crc len size) (len + size) (data_len - (len + size))
        ≡ range_crc crc len (data_len - len)
  range_crc-split crc len size below =
      let base = fl.part.offset + addr in
      fdb_calc_crc32-append crc (read_cells m (base + len) size)
        (read_cells m (base + (len + size)) (data_len - (len + size)))
      ∙ ap
          (λ (t : ℕ).
            fdb_calc_crc32 crc
              (read_cells m (base + len) size ++ read_cells m t (data_len - (len + size))))
          {x = base + (len + size)} {y = base + len + size} (omega arith)
      ∙ ap (fdb_calc_crc32 crc)
          (sym (read_cells-append m (base + len) size (data_len - (len + size))))
      ∙ ap (range_crc crc len) {x = size + (data_len - (len + size))} {y = data_len - len}
          (omega arith)

  nothing : (crc a : ℕ) → fdb_calc_crc32 crc (read_cells m a 0) ≡ crc
  unfolding read_cells
  nothing crc a = fdb_calc_crc32-nil crc

  crc_loop-from :
      (fuel len : ℕ) (buf : List ℕ) (crc : ℕ)
      → length buf ≡ 32
      → len ≤ data_len
      → data_len < len + fuel
      → crc_loop fl addr data_len fuel len buf crc ≡ some (range_crc crc len (data_len - len))
  unfolding crc_loop
  crc_loop-from zero len buf crc full below fuel_left = absurd (omega arith)
  crc_loop-from (suc fuel) len buf crc full below fuel_left = elim (dec_lt len data_len) [
    | no done ↦
        let none_left : data_len - len ≡ 0 = omega arith in
        rw (crc_loop, le→ltb_false len data_len (omega arith), none_left)
          (ap some (sym (nothing crc (fl.part.offset + addr + len))))
    | yes more ↦
        let size = piece_size len in
        let bounds = piece_size-bounds len more in
        let part = read_cells m (fl.part.offset + addr + len) size in
        let whole : wg_align size ≡ size = wg_align-id size (omega (arith, bounds)) in
        let next : add32 len size ≡ len + size = omega (arith, ready.fits, bounds) in
        rw
          (
            crc_loop,
            lt→ltb len data_len more,
            read_piece len size buf full bounds.1.0 bounds.1.1,
            take_all part size (length-read_cells m (fl.part.offset + addr + len) size),
            next,
          )
          (crc_loop-from fuel (len + size) (part ++ drop (wg_align size) buf)
              (range_crc crc len size)
              (rw (whole, length-append part (drop size buf), length-drop size buf)
                (omega
                  (arith, full, bounds, length-read_cells m (fl.part.offset + addr + len) size)))
              bounds.1.1 (omega (arith, bounds))
            ∙ ap some (range_crc-split crc len size bounds.1.1))
  ]

  -- For a range of the partition that is shorter than 2 ^ 32 - 32 bytes, the loop of `read_kv` ends,
  -- and its result is the CRC32 of the bytes of the range, whatever the accumulated value is.
  pub crc_loop-range :
      (buf : List ℕ) (crc : ℕ)
      → length buf ≡ 32
      → crc_loop fl addr data_len (suc data_len) 0 buf crc
        ≡ some (fdb_calc_crc32 crc (read_cells m (fl.part.offset + addr) data_len))
  crc_loop-range buf crc full =
      let start : fl.part.offset + addr + 0 ≡ fl.part.offset + addr = omega arith in
      let whole : data_len - 0 ≡ data_len = omega arith in
      rw (start, whole) at (crc_loop-from (suc data_len) 0 buf crc full (omega arith) (omega arith))
