-- ===== src/Tsdb/Series/Change.antt =====
-- The change to the next sector in `update_sec_status` of FlashDB/src/fdb_tsdb.c.
use flashdb_ko.Prelude.{
  ℕ, ◌+◌, ◌%◌, ◌≤◌, ◌<◌, ◌≡◌, ◌≢◌, refl, ap, ◌⊎◌, inl, inr, some, ◌==◌, false, Option, arith,
}
use flashdb_ko.Storage.{FdbErr}
use flashdb_ko.Storage.Laws.{Ready, with_cells, with_cells-Ready}
use flashdb_ko.Kv.Types.{store_empty}
use flashdb_ko.Tsdb.Types.{TsdbSecInfo}
use flashdb_ko.Tsdb.State.{FdbTsdb}
use flashdb_ko.Tsdb.Sector.{read_sector_info}
use flashdb_ko.Tsdb.Sector.Bytes.{info}
use flashdb_ko.Tsdb.Sector.Format.{
  Blank, formatted, format_sector_lem, formatted-Blank, formatted-outside, read_sector_info-Blank,
}
use flashdb_ko.Tsdb.Append.{sector_behind, reuse_sector, enter_sector}

-- The next sector becomes the current one, empty, whether it was blank or is formatted first; no
-- byte outside it is changed.
abbrev pub Entered : FdbTsdb → (ℕ → ℕ) → ℕ → Option FdbTsdb → Type 0
Entered db m addr result =
    (m' : ℕ → ℕ) × (old : TsdbSecInfo) × (oldest : ℕ) × (result
      ≡ some (record db {
        oldest_addr = oldest;
        flash = with_cells db.flash m';
        cur_sec = info db.sec_size addr store_empty 0xffff_ffff old;
      }))
    × Blank (with_cells db.flash m') m' db.sec_size addr
    × ((x : ℕ)
        → (x < db.flash.part.offset + addr) ⊎ (db.flash.part.offset + addr + db.sec_size ≤ x)
        → m' x ≡ m x)

module _ (db : FdbTsdb) {m : ℕ → ℕ} (ready : Ready db.flash m) (addr : ℕ)
    (inside : addr + db.sec_size ≤ db.flash.part.len) (wide : 40 < db.sec_size)
    (aligned : addr % db.sec_size ≡ 0) where
  enter-Blank : Blank db.flash m db.sec_size addr → Entered db m addr (enter_sector db addr)
  unfolding enter_sector
  enter-Blank blank = (
    m,
    db.cur_sec,
    db.oldest_addr,
    rw (enter_sector, read_sector_info-Blank blank db.max_len db.cur_sec)
        (ap
          (λ b. some (record db {
            flash = record db.flash { block = b };
            cur_sec = info db.sec_size addr store_empty 0xffff_ffff db.cur_sec;
          }))
          ready.block_is),
    record {
      ready = with_cells-Ready m ready;
      inside = blank.inside;
      wide = blank.wide;
      hdr = blank.hdr;
      erased = blank.erased;
    },
    λ x away. refl,
  )

  reuse-Entered :
      (sector : TsdbSecInfo)
      → Entered db m addr (reuse_sector (record db { cur_sec = sector }) addr)
  unfolding reuse_sector sector_behind
  reuse-Entered sector =
      let a = db.flash.part.offset + addr in
      (
        formatted m a db.sec_size,
        sector,
        sector_behind db addr,
        rw
            (
              reuse_sector,
              format_sector_lem ready db.sec_size addr inside wide aligned,
              read_sector_info-Blank (formatted-Blank ready db.sec_size addr inside wide) db.max_len
                  sector,
            )
            refl,
        formatted-Blank ready db.sec_size addr inside wide,
        formatted-outside m a db.sec_size wide,
      )

  enter-used :
      (err : FdbErr) (sector : TsdbSecInfo)
      → read_sector_info db.flash db.max_len db.sec_size addr db.cur_sec false ≡ some (err, sector)
      → sector.status ≢ store_empty
      → Entered db m addr (enter_sector db addr)
  unfolding enter_sector
  enter-used err sector read used =
      let other : (sector.status == store_empty) ≡ false = ground arith in
      rw (enter_sector, read, other) (reuse-Entered sector)

-- The sector at an address can be entered: it is blank, or its information can be read and does
-- not call it empty.
abbrev pub CanEnter : FdbTsdb → (ℕ → ℕ) → ℕ → Type 0
CanEnter db m addr =
    Blank db.flash m db.sec_size addr
    ⊎ (err : FdbErr) × (sector : TsdbSecInfo) × (read_sector_info db.flash db.max_len db.sec_size
          addr db.cur_sec false
        ≡ some (err, sector))
      × (sector.status ≢ store_empty)

pub enter_sector-Entered :
    (db : FdbTsdb) {m : ℕ → ℕ} (ready : Ready db.flash m) (addr : ℕ)
    → addr + db.sec_size ≤ db.flash.part.len
    → 40 < db.sec_size
    → addr % db.sec_size ≡ 0
    → CanEnter db m addr
    → Entered db m addr (enter_sector db addr)
enter_sector-Entered db ready addr inside wide aligned (inl blank) =
    enter-Blank db ready addr inside wide aligned blank
enter_sector-Entered db ready addr inside wide aligned (inr (err, sector, read, used)) =
    enter-used db ready addr inside wide aligned err sector read used
