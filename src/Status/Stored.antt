-- ===== src/Status/Stored.antt =====
-- A status on the flash: what `_fdb_write_status` changes, and what `_fdb_read_status` finds.
use flashdb_ko.Prelude.{
  ℕ, ◌+◌, ◌-◌, ◌/◌, ◌%◌, ◌^◌, ◌≤◌, ◌<◌, ◌≡◌, refl, ◌∙◌, [], ◌∷◌, true, false, ◌&&◌, ◌||◌, not, ◌==◌,
  ltb, bit_and, lt→ltb, all_below, arith,
}
use flashdb_ko.Prelude.Words.{add32}
use flashdb_ko.MemBlk.{read_cells, write_cells}
use flashdb_ko.MemBlk.Cells.{read_cells-write_cells}
use flashdb_ko.Storage.{Flash, no_err, flash_fetch}
use flashdb_ko.Storage.Laws.{Ready, with_cells, with_cells-Ready, flash_write_lem, flash_fetch_lem}
use flashdb_ko.Status.{
  fdb_status_table_size, fdb_set_status, fdb_get_status, fdb_write_status, fdb_read_status,
}
use flashdb_ko.Status.RoundTrip.{mask_lem, get_status-set_status}

-- The byte that stands for a status in a table of at most eight.
abbrev pub status_byte : ℕ → ℕ
status_byte status = 0xff / 2 ^ status

-- Advancing a status only clears bits, as NOR flash needs without an erase: the byte of a later
-- status has no bit set that the byte of an earlier one has clear, and differs from it.
advance_checked :
    all_below 8 (λ j. all_below 8 (λ i.
      not (ltb i j)
      || (bit_and (status_byte i) (status_byte j) == status_byte j)
        && not (status_byte i == status_byte j)))
    ≡ true
unfolding all_below
advance_checked = refl

in_word :
    {fl : Flash} {m : ℕ → ℕ} → Ready fl m → (addr : ℕ) → addr < fl.part.len → add32 addr 0 ≡ addr
in_word ready addr h = omega arith

module _ (num idx : ℕ) (pos : 0 < idx) (below : idx < num) (small : num ≤ 8) where
  set_status-one_byte : fdb_set_status num idx ≡ (0, status_byte idx ∷ [])
  unfolding fdb_set_status
  set_status-one_byte =
      let size : fdb_status_table_size num ≡ 1 = omega arith in
      let byte : (idx - 1) / 8 ≡ 0 = omega arith in
      let bits : idx % 8 ≡ idx = omega arith in
      rw (lt→ltb 0 idx pos, size, byte, bits, mask_lem idx (omega arith))

  pub get_status-status_byte : fdb_get_status (status_byte idx ∷ []) num ≡ idx
  get_status-status_byte =
      let bits : (idx % 8 == 0) ≡ false = ground arith in
      rw (set_status-one_byte, bits) at (get_status-set_status num idx below (omega arith))

  -- The write stores one byte at the table's address, and nothing else changes.
  pub write_status_lem :
      {fl : Flash} {m : ℕ → ℕ} (ready : Ready fl m) (addr : ℕ)
      → addr < fl.part.len
      → fdb_write_status fl addr num idx ≡ (
        no_err,
        with_cells fl (write_cells m (fl.part.offset + addr) (status_byte idx ∷ [])),
        status_byte idx ∷ [],
      )
  unfolding fdb_write_status
  write_status_lem {fl} {m} ready addr h =
      let at : add32 addr 0 ≡ addr = in_word ready addr h in
      rw (set_status-one_byte, at, flash_write_lem ready addr (status_byte idx ∷ []) (omega arith))

  -- After a status other than 0, in a table of at most eight, is written at an address of the
  -- partition, the write has succeeded and the status read there is the one written, whatever was
  -- there before.
  pub read_status-write_status :
      {fl : Flash} {m : ℕ → ℕ} (ready : Ready fl m) (addr : ℕ)
      → addr < fl.part.len
      → ((fdb_write_status fl addr num idx).0 ≡ no_err)
        × (fdb_read_status (fdb_write_status fl addr num idx).1 addr num ≡ idx)
  unfolding fdb_read_status read_cells
  read_status-write_status {fl} {m} ready addr h =
      let m' = write_cells m (fl.part.offset + addr) (status_byte idx ∷ []) in
      let size : fdb_status_table_size num ≡ 1 = omega arith in
      let stored : flash_fetch (with_cells fl m') addr 1 ≡ status_byte idx ∷ [] =
        flash_fetch_lem (with_cells-Ready m' ready) addr 1 (omega arith)
        ∙ read_cells-write_cells m (fl.part.offset + addr) (status_byte idx ∷ []) in
      (
        rw (write_status_lem ready addr h),
        rw (write_status_lem ready addr h, size, stored) (get_status-status_byte),
      )
