-- ===== src/Tsdb/Sector/Bytes.antt =====
-- The header of a sector in its bytes, and what `read_sector_info` of FlashDB/src/fdb_tsdb.c makes
-- of one without an end of its logs.
use flashdb_ko.Prelude.{
  ℕ, ◌+◌, ◌-◌, ◌≤◌, ◌<◌, ◌≡◌, refl, ◌∙◌, [], ◌∷◌, ◌++◌, some, true, false, replicate, arith,
}
use flashdb_ko.Prelude.Words.{add32, sub32}
use flashdb_ko.Bytes.{le32, word_at, word_bytes}
use flashdb_ko.MemBlk.{read_cells}
use flashdb_ko.MemBlk.Cells.{read_cells-append, four_cells}
use flashdb_ko.Storage.{Flash, no_err}
use flashdb_ko.Storage.Laws.{Ready, flash_fetch_lem}
use flashdb_ko.Status.{fdb_get_status}
use flashdb_ko.Status.Stored.{status_byte}
use flashdb_ko.Kv.Types.{store_status_num}
use flashdb_ko.Tsdb.Types.{TsdbSecInfo, sector_hdr_of_bytes, sector_magic_word, fdb_tsl_unused}
use flashdb_ko.Tsdb.Sector.{end_of_logs, sector_of_hdr, no_valid_end, read_hdr, read_sector_info}
use flashdb_ko.Tsdb.Sector.Header.{read_sector_info-read_hdr}

-- The memory at `a` holds a header of a status and a start time, whose other fields are erased.
pub record HdrAt (m : ℕ → ℕ) (a status start : ℕ) : Type 0 where
  pub status_is : m a ≡ status_byte status
  pub magic_is : read_cells m (a + 4) 4 ≡ le32 sector_magic_word
  pub start_is : read_cells m (a + 8) 4 ≡ le32 start
  pub rest_is : read_cells m (a + 12) 28 ≡ replicate 28 0xff

-- The information of a sector without logs, in a structure that held `old`.
abbrev pub info : ℕ → ℕ → ℕ → ℕ → TsdbSecInfo → TsdbSecInfo
info sec_size addr status start old = record {
  check_ok = true;
  status = status;
  addr = addr;
  magic = sector_magic_word;
  start_time = start;
  end_time = old.end_time;
  end_idx = old.end_idx;
  end_info_stat0 = fdb_tsl_unused;
  end_info_stat1 = fdb_tsl_unused;
  remain = addr + sec_size - (addr + 40);
  empty_idx = addr + 40;
  empty_data = addr + sec_size;
}

hdr_cells :
    (m : ℕ → ℕ) (a status start : ℕ)
    → HdrAt m a status start
    → read_cells m a 40
      ≡ status_byte status
        ∷ m (a + 1)
        ∷ m (a + 1 + 1)
        ∷ m (a + 1 + 1 + 1)
        ∷ (le32 sector_magic_word ++ (le32 start ++ replicate 28 0xff))
hdr_cells m a status start h =
    let second : a + 4 + 4 ≡ a + 8 = omega arith in
    let third : a + 8 + 4 ≡ a + 12 = omega arith in
    read_cells-append m a 4 36
    ∙ rw
        (
          four_cells m a,
          h.status_is,
          read_cells-append m (a + 4) 4 32,
          h.magic_is,
          second,
          read_cells-append m (a + 8) 4 28,
          h.start_is,
          third,
          h.rest_is,
        )
        refl

-- What `sector_of_hdr` makes of these bytes.
module _ (sec_size addr status start x y z : ℕ) (old : TsdbSecInfo)
    (known : fdb_get_status (status_byte status ∷ []) store_status_num ≡ status)
    (word : start < 0x1_0000_0000) (small : addr + sec_size < 0x1_0000_0000)
    (wide : 40 < sec_size) where
  read_hdr_bytes :
      read_hdr sec_size addr
        (status_byte status
          ∷ x
          ∷ y
          ∷ z
          ∷ (le32 sector_magic_word ++ (le32 start ++ replicate 28 0xff)))
        old
      ≡ some (no_err, info sec_size addr status start old)
  unfolding read_hdr sector_hdr_of_bytes sector_of_hdr end_of_logs no_valid_end fdb_get_status le32
      word_at
  read_hdr_bytes =
      let idx : add32 addr 40 ≡ addr + 40 = omega arith in
      let top : add32 addr sec_size ≡ addr + sec_size = omega arith in
      let rem : sub32 (addr + sec_size) (addr + 40) ≡ addr + sec_size - (addr + 40) = omega arith in
      rw (known, word_bytes start word, idx, top, rem) refl

-- `read_sector_info` without the traversal, where the flash holds such a header.
pub read_sector_info-HdrAt :
    {fl : Flash} {m : ℕ → ℕ} (ready : Ready fl m) (max_len sec_size addr status start : ℕ)
    (old : TsdbSecInfo)
    → HdrAt m (fl.part.offset + addr) status start
    → fdb_get_status (status_byte status ∷ []) store_status_num ≡ status
    → start < 0x1_0000_0000
    → addr + sec_size ≤ fl.part.len
    → 40 < sec_size
    → read_sector_info fl max_len sec_size addr old false
      ≡ some (no_err, info sec_size addr status start old)
read_sector_info-HdrAt {fl} {m} ready max_len sec_size addr status start old hdr known word inside
      wide =
    let small = ready.fits in
    let a = fl.part.offset + addr in
    rw
      (
        read_sector_info-read_hdr fl max_len sec_size addr old,
        flash_fetch_lem ready addr 40 (omega arith),
        hdr_cells m a status start hdr,
      )
      (read_hdr_bytes sec_size addr status start (m (a + 1)) (m (a + 1 + 1)) (m (a + 1 + 1 + 1)) old
        known word (omega arith) wide)
