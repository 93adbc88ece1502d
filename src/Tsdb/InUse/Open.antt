-- ===== src/Tsdb/InUse/Open.antt =====
-- An empty sector is put in use: the last part of `update_sec_status` of FlashDB/src/fdb_tsdb.c.
use flashdb_ko.Prelude.{ℕ, ◌+◌, ◌≤◌, ◌<◌, ◌≡◌, refl, ◌∙◌, ◌⊎◌, inl, inr, [], ◌∷◌, ◌==◌, true, arith}
use flashdb_ko.Prelude.Words.{add32}
use flashdb_ko.Bytes.{le32}
use flashdb_ko.MemBlk.{write_cells}
use flashdb_ko.MemBlk.Cells.{
  read_cells-write_cells, read_cells-cong, write_cells-outside, write_cells-here,
}
use flashdb_ko.Storage.{Flash, no_err, is_ok}
use flashdb_ko.Storage.Laws.{with_cells, with_cells-Ready, flash_write_lem}
use flashdb_ko.Status.{fdb_get_status}
use flashdb_ko.Status.Stored.{status_byte, write_status_lem}
use flashdb_ko.Kv.Types.{store_empty, store_using, store_status_num}
use flashdb_ko.Tsdb.Types.{TsdbSecInfo}
use flashdb_ko.Tsdb.State.{FdbTsdb}
use flashdb_ko.Tsdb.Sector.Bytes.{HdrAt, info, read_sector_info-HdrAt}
use flashdb_ko.Tsdb.Sector.Format.{Blank}
use flashdb_ko.Tsdb.Append.{open_sector, start_sector}
use flashdb_ko.Tsdb.Logs.{LogsAt, advance_all, data_len}
use flashdb_ko.Tsdb.InUse.{InUse}

using_known : fdb_get_status (status_byte store_using ∷ []) store_status_num ≡ store_using
unfolding fdb_get_status
using_known = refl

-- The memory with the new status and the start time.
abbrev pub opened_cells : (ℕ → ℕ) → ℕ → ℕ → ℕ → ℕ
opened_cells m a time =
    write_cells (write_cells m a (status_byte store_using ∷ [])) (a + 8) (le32 time)

module _ (m : ℕ → ℕ) (a time : ℕ) where
  abbrev with_status : ℕ → ℕ
  with_status = write_cells m a (status_byte store_using ∷ [])

  pub opened_cells-outside : (x : ℕ) → (x < a) ⊎ (a + 12 ≤ x) → opened_cells m a time x ≡ m x
  unfolding le32
  opened_cells-outside x away =
      write_cells-outside with_status (a + 8) (le32 time) x (ground arith)
      ∙ write_cells-outside m a (status_byte store_using ∷ []) x (ground arith)

  opened-HdrAt :
      HdrAt m a store_empty 0xffff_ffff → HdrAt (opened_cells m a time) a store_using time
  unfolding le32
  opened-HdrAt hdr = record {
    status_is =
        write_cells-outside with_status (a + 8) (le32 time) a (inl (omega arith))
        ∙ write_cells-here m a (status_byte store_using);
    magic_is =
        read_cells-cong (opened_cells m a time) m (a + 4) 4 (λ x p q.
          write_cells-outside with_status (a + 8) (le32 time) x (inl (omega arith))
          ∙ write_cells-outside m a (status_byte store_using ∷ []) x (inr (omega arith)))
        ∙ hdr.magic_is;
    start_is = read_cells-write_cells with_status (a + 8) (le32 time);
    rest_is =
        read_cells-cong (opened_cells m a time) m (a + 12) 28
          (λ x p q. opened_cells-outside x (inr (omega arith)))
        ∙ hdr.rest_is;
  }

module _ {fl : Flash} {m : ℕ → ℕ} {sec_size addr : ℕ} (blank : Blank fl m sec_size addr)
    (time : ℕ) where
  abbrev a : ℕ
  a = fl.part.offset + addr

  pub open_sector_lem : open_sector addr time fl ≡ (no_err, with_cells fl (opened_cells m a time))
  unfolding is_ok le32
  open_sector_lem =
      let small = blank.ready.fits in
      let inside = blank.inside in
      let wide = blank.wide in
      let m1 = write_cells m a (status_byte store_using ∷ []) in
      let at_start : add32 addr 8 ≡ addr + 8 = omega arith in
      let place : fl.part.offset + (addr + 8) ≡ a + 8 = omega arith in
      rw
        (
          write_status_lem store_status_num store_using (omega arith) (omega arith) (omega arith)
              blank.ready addr (omega arith),
          at_start,
          flash_write_lem (with_cells-Ready m1 blank.ready) (addr + 8) (le32 time) (omega arith),
          place,
        )
        refl

  -- The sector is in use, with no log yet.
  pub opened-InUse :
      (max_len : ℕ) (old : TsdbSecInfo)
      → time < 0x1_0000_0000
      → InUse
          (with_cells fl (opened_cells m a time))
          (opened_cells m a time)
          max_len
          sec_size
          (info sec_size addr store_using time old)
          []
  unfolding LogsAt advance_all data_len
  opened-InUse max_len old word =
      let inside = blank.inside in
      let wide = blank.wide in
      let ready = with_cells-Ready (opened_cells m a time) blank.ready in
      record {
        ready = ready;
        using = refl;
        inside = blank.inside;
        wide = blank.wide;
        idx_is = omega arith;
        top_is = omega arith;
        room = omega arith;
        remain_is = refl;
        held = tt;
        erased = λ x p q.
            opened_cells-outside m a time x (inr (omega arith))
            ∙ blank.erased x (omega arith) (omega arith);
        header = λ other.
            read_sector_info-HdrAt ready max_len sec_size addr store_using time other
              (opened-HdrAt m a time blank.hdr) using_known word blank.inside blank.wide;
        tracked = refl;
      }

pub start_sector_lem :
    (db : FdbTsdb) (time : ℕ) (fl : Flash)
    → db.cur_sec.status ≡ store_empty
    → open_sector db.cur_sec.addr time db.flash ≡ (no_err, fl)
    → start_sector db time ≡ (
      no_err,
      record db {
        flash = fl;
        cur_sec = record db.cur_sec { status = store_using; start_time = time };
      },
    )
unfolding start_sector
start_sector_lem db time fl empty written =
    let here : (db.cur_sec.status == store_empty) ≡ true = ground arith in
    rw (start_sector, here, written) refl
