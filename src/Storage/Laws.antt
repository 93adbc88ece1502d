-- ===== src/Storage/Laws.antt =====
-- The storage layer on a ready device: the bytes that it reads, writes and erases.
use Prim.Native.Nat.{min}
use flashdb_ko.Prelude.{
  ℕ, ◌+◌, ◌≤◌, ◌<◌, ◌≡◌, refl, sym, ap, ◌∙◌, List, some, false, length, take, length-take,
  replicate, length-replicate, arith,
}
use flashdb_ko.MemBlk
use flashdb_ko.MemBlk.{read_cells, write_cells, fill_cells}
use flashdb_ko.MemBlk.Cells.{take-read_cells}
use flashdb_ko.Storage.{Flash, no_err, flash_read, flash_fetch, flash_write, flash_erase}

-- The block of the device is allocated, with the bytes `m`, and the partition lies where a `long` and
-- an `int` of 32 bits reach.
pub record Ready (fl : Flash) (m : ℕ → ℕ) : Type 0 where
  pub no_file : fl.file_mode ≡ false
  pub block_is : fl.block ≡ some m
  pub fits : fl.part.offset + fl.part.len < 0x8000_0000

-- The flash after its block was changed.
abbrev pub with_cells : Flash → (ℕ → ℕ) → Flash
with_cells fl m = record fl { block = some m }

pub with_cells-Ready :
    {fl : Flash} {m : ℕ → ℕ} (m' : ℕ → ℕ) → Ready fl m → Ready (with_cells fl m') m'
with_cells-Ready m' r = record { no_file = r.no_file; block_is = refl; fits = r.fits }

flash_fetch_read :
    (fl : Flash) (addr n : ℕ) → flash_fetch fl addr n ≡ (flash_read fl addr (replicate n fl.junk)).1
unfolding flash_fetch
flash_fetch_read fl addr n = refl

module _ {fl : Flash} {m : ℕ → ℕ} (ready : Ready fl m) where
  pub flash_read_lem :
      (addr : ℕ) (buf : List ℕ)
      → addr + length buf ≤ fl.part.len
      → flash_read fl addr buf ≡ (no_err, read_cells m (fl.part.offset + addr) (length buf))
  unfolding flash_read MemBlk.read
  flash_read_lem addr buf h = ground arith

  pub flash_fetch_lem :
      (addr n : ℕ)
      → addr + n ≤ fl.part.len
      → flash_fetch fl addr n ≡ read_cells m (fl.part.offset + addr) n
  flash_fetch_lem addr n h =
      rw (flash_fetch_read fl addr n, flash_read_lem addr (replicate n fl.junk) fits_buffer)
        (ap (read_cells m (fl.part.offset + addr)) (length-replicate n fl.junk))
    where
      fits_buffer : addr + length (replicate n fl.junk) ≤ fl.part.len
      fits_buffer = rw (length-replicate n fl.junk) h

  -- A read into the front of a buffer gives the front of the value.
  pub flash_read-front :
      (addr len : ℕ) (buf : List ℕ)
      → addr + len ≤ fl.part.len
      → let n = min len (length buf) in
        flash_read fl addr (take n buf) ≡ (no_err, take n (flash_fetch fl addr len))
  flash_read-front addr len buf inside =
      let n = min len (length buf) in
      let long : length (take n buf) ≡ n = omega (arith, length-take n buf) in
      flash_read_lem addr (take n buf) (rw long (omega arith))
      ∙ ap (λ (k : ℕ). (no_err, read_cells m (fl.part.offset + addr) k)) long
      ∙ ap (λ (v : List ℕ). (no_err, v))
          (sym (
            ap (take n) (flash_fetch_lem addr len inside)
            ∙ take-read_cells m (fl.part.offset + addr) n len (omega arith)))

  pub flash_write_lem :
      (addr : ℕ) (buf : List ℕ)
      → addr + length buf ≤ fl.part.len
      → flash_write fl addr buf
        ≡ (no_err, with_cells fl (write_cells m (fl.part.offset + addr) buf))
  unfolding flash_write MemBlk.write
  flash_write_lem addr buf h = ground arith

  pub flash_erase_lem :
      (addr size : ℕ)
      → addr + size ≤ fl.part.len
      → flash_erase fl addr size
        ≡ (no_err, with_cells fl (fill_cells m (fl.part.offset + addr) size 0xff))
  unfolding flash_erase MemBlk.erase
  flash_erase_lem addr size h = ground arith
