-- ===== src/Tsdb/Sector/Header.antt =====
-- `read_sector_info` of FlashDB/src/fdb_tsdb.c without the traversal, and the part that the
-- traversal adds.
use flashdb_ko.Prelude.{ℕ, ◌≡◌, refl, ◌∙◌, sym, some, true, false, arith}
use flashdb_ko.Storage.{Flash, no_err, flash_fetch, is_ok}
use flashdb_ko.Tsdb.Types.{TsdbSecInfo}
use flashdb_ko.Tsdb.Sector.{read_hdr, read_sector_info, traverse_sector}

pub read_sector_info-read_hdr :
    (fl : Flash) (max_len sec_size addr : ℕ) (old : TsdbSecInfo)
    → read_sector_info fl max_len sec_size addr old false
      ≡ read_hdr sec_size addr (flash_fetch fl addr 40) old
unfolding read_sector_info traverse_sector is_ok
read_sector_info-read_hdr fl max_len sec_size addr old = ground arith

-- Without the traversal, `read_sector_info` looks at the header only.
pub read_sector_info-cong :
    (fl fl' : Flash) (max_len sec_size addr : ℕ) (old : TsdbSecInfo)
    → flash_fetch fl' addr 40 ≡ flash_fetch fl addr 40
    → read_sector_info fl' max_len sec_size addr old false
      ≡ read_sector_info fl max_len sec_size addr old false
read_sector_info-cong fl fl' max_len sec_size addr old same =
    rw
      (
        read_sector_info-read_hdr fl' max_len sec_size addr old,
        read_sector_info-read_hdr fl max_len sec_size addr old,
        same,
      )
      refl

traverse_header :
    (fl : Flash) (max_len sec_size addr : ℕ) (old sector : TsdbSecInfo)
    → read_hdr sec_size addr (flash_fetch fl addr 40) old ≡ some (no_err, sector)
    → read_sector_info fl max_len sec_size addr old true ≡ traverse_sector fl max_len true sector
unfolding read_sector_info is_ok
traverse_header fl max_len sec_size addr old sector h = rw (read_sector_info, h) refl

-- With the traversal, the sector that the header gives is traversed.
pub read_sector_info-traversal :
    (fl : Flash) (max_len sec_size addr : ℕ) (old sector : TsdbSecInfo)
    → read_sector_info fl max_len sec_size addr old false ≡ some (no_err, sector)
    → read_sector_info fl max_len sec_size addr old true ≡ traverse_sector fl max_len true sector
read_sector_info-traversal fl max_len sec_size addr old sector h =
    traverse_header fl max_len sec_size addr old sector
      (sym (read_sector_info-read_hdr fl max_len sec_size addr old) ∙ h)
