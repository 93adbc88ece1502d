-- ===== src/Tsdb/State/Touches.antt =====
-- Sequences of writes that succeed and change a range of the partition only.
use flashdb_ko.Prelude.{ℕ, ◌+◌, ◌≤◌, ◌<◌, ◌≡◌, refl, ap, ◌∙◌, ◌⊎◌, List, [], ◌∷◌, length, arith}
use flashdb_ko.MemBlk.{MemBlk, write_cells}
use flashdb_ko.MemBlk.Cells.{write_cells-outside}
use flashdb_ko.Storage.{Flash, no_err, is_ok}
use flashdb_ko.Storage.Laws.{Ready, with_cells, with_cells-Ready, flash_write_lem}
use flashdb_ko.Status.Stored.{status_byte, write_status_lem}
use flashdb_ko.Tsdb.State.{Writes, ◌>>◌, no_write, write_flash, write_status}

-- On every ready flash with a partition of this place, the writes end without an error, and change
-- no byte of the device outside the range.
abbrev pub Touches : ℕ → ℕ → ℕ → ℕ → Writes → Type 0
Touches off len lo hi w =
    (fl : Flash)
    → (m : ℕ → ℕ) → Ready fl m
    → fl.part.offset ≡ off
    → fl.part.len ≡ len
    → (m' : ℕ → ℕ) × (w fl ≡ (no_err, with_cells fl m'))
      × ((x : ℕ) → (x < off + lo) ⊎ (off + hi ≤ x) → m' x ≡ m x)

module _ (off len lo hi : ℕ) where
  pub no_write-Touches : Touches off len lo hi no_write
  no_write-Touches fl m ready at long =
      (m, ap (λ (b : MemBlk). (no_err, record fl { block = b })) ready.block_is, λ x h. refl)

  pub write_flash-Touches :
      (addr : ℕ) (buf : List ℕ)
      → lo ≤ addr
      → addr + length buf ≤ hi
      → hi ≤ len
      → Touches off len lo hi (write_flash addr buf)
  write_flash-Touches addr buf low high inside fl m ready at long = (
    write_cells m (fl.part.offset + addr) buf,
    flash_write_lem ready addr buf (omega arith),
    λ x h. write_cells-outside m (fl.part.offset + addr) buf x (ground arith),
  )

  pub write_status-Touches :
      (addr num idx : ℕ)
      → 0 < idx
      → idx < num
      → num ≤ 8
      → lo ≤ addr
      → addr < hi
      → hi ≤ len
      → Touches off len lo hi (write_status addr num idx)
  write_status-Touches addr num idx pos below small low high inside fl m ready at long = (
    write_cells m (fl.part.offset + addr) (status_byte idx ∷ []),
    rw (write_status_lem num idx pos below small ready addr (omega arith)) refl,
    λ x h. write_cells-outside m (fl.part.offset + addr) (status_byte idx ∷ []) x (ground arith),
  )

  pub >>-Touches :
      (first rest : Writes)
      → Touches off len lo hi first
      → Touches off len lo hi rest
      → Touches off len lo hi (first >> rest)
  unfolding is_ok
  >>-Touches first rest touch touch' fl m ready at long =
      let (m1, done, same) = touch fl m ready at long in
      let (m2, done', same') = touch' (with_cells fl m1) m1 (with_cells-Ready m1 ready) at long in
      (m2, rw (done, done') refl, λ x h. same' x h ∙ same x h)
