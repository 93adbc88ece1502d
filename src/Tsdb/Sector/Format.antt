-- ===== src/Tsdb/Sector/Format.antt =====
-- `format_sector` of FlashDB/src/fdb_tsdb.c, what it leaves, and the first writes into it.
use flashdb_ko.Prelude.{
  ◌%◌, eq→==, some, ℕ, zero, suc, ◌+◌, ◌≤◌, ◌<◌, ◌≡◌, refl, ◌∙◌, ◌⊎◌, inl, inr, [], ◌∷◌, replicate,
  some, false, arith,
}
use flashdb_ko.Prelude.Words.{add32}
use flashdb_ko.Bytes.{le32}
use flashdb_ko.MemBlk.{read_cells, write_cells, fill_cells}
use flashdb_ko.MemBlk.Cells.{
  read_cells-write_cells, read_cells-cong, write_cells-outside, write_cells-here,
  fill_cells-outside,
}
use flashdb_ko.Storage.{Flash, no_err, is_ok}
use flashdb_ko.Storage.Laws.{Ready, with_cells, with_cells-Ready, flash_write_lem, flash_erase_lem}
use flashdb_ko.Status.{fdb_get_status}
use flashdb_ko.Status.Stored.{status_byte, write_status_lem}
use flashdb_ko.Kv.Types.{store_empty, store_status_num}
use flashdb_ko.Tsdb.Types.{TsdbSecInfo, sector_magic_word}
use flashdb_ko.Tsdb.Sector.{read_sector_info, format_sector}
use flashdb_ko.Tsdb.Sector.Bytes.{HdrAt, info, read_sector_info-HdrAt}
use mathlib.Core.Path.{ap₂}

-- A formatted sector without logs: the flash holds the header of an empty sector, and the rest is
-- erased.
pub record Blank (fl : Flash) (m : ℕ → ℕ) (sec_size addr : ℕ) : Type 0 where
  pub ready : Ready fl m
  pub inside : addr + sec_size ≤ fl.part.len
  pub wide : 40 < sec_size
  pub hdr : HdrAt m (fl.part.offset + addr) store_empty 0xffff_ffff
  pub erased :
      (x : ℕ) → fl.part.offset + addr + 40 ≤ x → x < fl.part.offset + addr + sec_size → m x ≡ 0xff

read_erased :
    (m : ℕ → ℕ) (a n : ℕ)
    → ((x : ℕ) → a ≤ x → x < a + n → m x ≡ 0xff)
    → read_cells m a n ≡ replicate n 0xff
unfolding read_cells
read_erased m a zero h = refl
read_erased m a (suc n) h =
    ap₂ ◌∷◌ (h a (omega arith) (omega arith))
      (read_erased m (a + 1) n (λ x p q. h x (omega arith) (omega arith)))

fill_cells-inside : (m : ℕ → ℕ) (a n v x : ℕ) → a ≤ x → x < a + n → fill_cells m a n v x ≡ v
unfolding fill_cells
fill_cells-inside m a n v x h k = ground arith

-- The memory that a formatting leaves, for a sector at `a`.
abbrev pub formatted : (ℕ → ℕ) → ℕ → ℕ → ℕ → ℕ
formatted m a n =
    write_cells (write_cells (fill_cells m a n 0xff) a (status_byte store_empty ∷ [])) (a + 4)
      (le32 sector_magic_word)

module _ (m : ℕ → ℕ) (a n : ℕ) (wide : 40 < n) where
  abbrev with_status : ℕ → ℕ
  with_status = write_cells (fill_cells m a n 0xff) a (status_byte store_empty ∷ [])

  formatted-blank : (x : ℕ) → a + 8 ≤ x → x < a + n → formatted m a n x ≡ 0xff
  unfolding le32
  formatted-blank x low high =
      write_cells-outside with_status (a + 4) (le32 sector_magic_word) x (inr (omega arith))
      ∙ write_cells-outside (fill_cells m a n 0xff) a (status_byte store_empty ∷ []) x
          (inr (omega arith))
      ∙ fill_cells-inside m a n 0xff x (omega arith) high

  pub formatted-outside : (x : ℕ) → (x < a) ⊎ (a + n ≤ x) → formatted m a n x ≡ m x
  unfolding le32
  formatted-outside x away =
      write_cells-outside with_status (a + 4) (le32 sector_magic_word) x (ground arith)
      ∙ write_cells-outside (fill_cells m a n 0xff) a (status_byte store_empty ∷ []) x
          (ground arith)
      ∙ fill_cells-outside m a n 0xff x away

  formatted-HdrAt : HdrAt (formatted m a n) a store_empty 0xffff_ffff
  unfolding le32
  formatted-HdrAt = record {
    status_is =
        write_cells-outside with_status (a + 4) (le32 sector_magic_word) a (inl (omega arith))
        ∙ write_cells-here (fill_cells m a n 0xff) a (status_byte store_empty);
    magic_is = read_cells-write_cells with_status (a + 4) (le32 sector_magic_word);
    start_is =
        read_erased (formatted m a n) (a + 8) 4
          (λ x p q. formatted-blank x (omega arith) (omega arith));
    rest_is =
        read_erased (formatted m a n) (a + 12) 28
          (λ x p q. formatted-blank x (omega arith) (omega arith));
  }

module _ {fl : Flash} {m : ℕ → ℕ} (ready : Ready fl m) (sec_size addr : ℕ)
    (inside : addr + sec_size ≤ fl.part.len) (wide : 40 < sec_size) where
  abbrev a : ℕ
  a = fl.part.offset + addr

  pub format_sector_lem :
      addr % sec_size ≡ 0
      → format_sector sec_size addr fl ≡ some (no_err, with_cells fl (formatted m a sec_size))
  unfolding format_sector is_ok le32
  format_sector_lem aligned =
      let small = ready.fits in
      let m1 = fill_cells m a sec_size 0xff in
      let m2 = write_cells m1 a (status_byte store_empty ∷ []) in
      let at_magic : add32 addr 4 ≡ addr + 4 = omega arith in
      let place : fl.part.offset + (addr + 4) ≡ a + 4 = omega arith in
      rw
        (
          format_sector,
          eq→== (addr % sec_size) 0 aligned,
          flash_erase_lem ready addr sec_size inside,
          write_status_lem store_status_num store_empty (omega arith) (omega arith) (omega arith)
              (with_cells-Ready m1 ready) addr (omega arith),
          at_magic,
          flash_write_lem (with_cells-Ready m2 ready) (addr + 4) (le32 sector_magic_word)
              (omega arith),
          place,
        )
        refl

  pub formatted-Blank :
      Blank (with_cells fl (formatted m a sec_size)) (formatted m a sec_size) sec_size addr
  formatted-Blank = record {
    ready = with_cells-Ready (formatted m a sec_size) ready;
    inside = inside;
    wide = wide;
    hdr = formatted-HdrAt m a sec_size wide;
    erased = λ x p q. formatted-blank m a sec_size wide x (omega arith) (omega arith);
  }

-- A blank sector stays blank under changes elsewhere.
pub Blank-frame :
    {fl : Flash} {m : ℕ → ℕ} {sec_size addr : ℕ} (blank : Blank fl m sec_size addr) (m' : ℕ → ℕ)
    → ((x : ℕ) → fl.part.offset + addr ≤ x → x < fl.part.offset + addr + sec_size → m' x ≡ m x)
    → Blank (with_cells fl m') m' sec_size addr
Blank-frame {fl} {m} {sec_size} {addr} blank m' same =
    let wide = blank.wide in
    let a = fl.part.offset + addr in
    let range : (i n : ℕ) → i + n ≤ 40 → read_cells m' (a + i) n ≡ read_cells m (a + i) n =
      λ i n h. read_cells-cong m' m (a + i) n (λ x p q. same x (omega arith) (omega arith)) in
    record {
      ready = with_cells-Ready m' blank.ready;
      inside = blank.inside;
      wide = blank.wide;
      hdr = record {
        status_is = same a (omega arith) (omega arith) ∙ blank.hdr.status_is;
        magic_is = range 4 4 (omega arith) ∙ blank.hdr.magic_is;
        start_is = range 8 4 (omega arith) ∙ blank.hdr.start_is;
        rest_is = range 12 28 (omega arith) ∙ blank.hdr.rest_is;
      };
      erased = λ x p q. same x (omega arith) (omega arith) ∙ blank.erased x p q;
    }

empty_known : fdb_get_status (status_byte store_empty ∷ []) store_status_num ≡ store_empty
unfolding fdb_get_status
empty_known = refl

pub read_sector_info-Blank :
    {fl : Flash} {m : ℕ → ℕ} {sec_size addr : ℕ} (blank : Blank fl m sec_size addr) (max_len : ℕ)
    (old : TsdbSecInfo)
    → read_sector_info fl max_len sec_size addr old false
      ≡ some (no_err, info sec_size addr store_empty 0xffff_ffff old)
read_sector_info-Blank {sec_size = sec_size} {addr} blank max_len old =
    read_sector_info-HdrAt blank.ready max_len sec_size addr store_empty 0xffff_ffff old blank.hdr
      empty_known (omega arith) blank.inside blank.wide

-- On an address of the partition that is a multiple of the sector size, of more than 40 bytes, with
-- the sector inside the partition, `format_sector` succeeds. `read_sector_info` then finds an empty
-- sector without logs, with all its room free, and no byte outside the sector is changed.
pub read_sector_info-format_sector :
    {fl : Flash} {m : ℕ → ℕ} (ready : Ready fl m) (max_len sec_size addr : ℕ) (old : TsdbSecInfo)
    → addr + sec_size ≤ fl.part.len
    → 40 < sec_size
    → addr % sec_size ≡ 0
    → (m' : ℕ → ℕ) × (format_sector sec_size addr fl ≡ some (no_err, with_cells fl m'))
      × (read_sector_info (with_cells fl m') max_len sec_size addr old false
          ≡ some (no_err, info sec_size addr store_empty 0xffff_ffff old))
      × ((x : ℕ)
          → (x < fl.part.offset + addr) ⊎ (fl.part.offset + addr + sec_size ≤ x)
          → m' x ≡ m x)
read_sector_info-format_sector {fl} {m} ready max_len sec_size addr old inside wide aligned =
    let a = fl.part.offset + addr in
    (
      formatted m a sec_size,
      format_sector_lem ready sec_size addr inside wide aligned,
      read_sector_info-Blank (formatted-Blank ready sec_size addr inside wide) max_len old,
      formatted-outside m a sec_size wide,
    )
