-- ===== src/Kv/Create/WriteKv.antt =====
-- What `create_kv_blob` of FlashDB/src/fdb_kvdb.c puts on the flash.
use flashdb_ko.Prelude.{
  ℕ, ◌+◌, ◌≤◌, ◌≡◌, refl, List, [], ◌∷◌, some, Bool, true, false, not, if◌then◌else◌, length, arith,
}
use flashdb_ko.Prelude.Words.{add32, sub32, wg_align, wg_align-id, wg_align_down, wg_align_down-id}
use flashdb_ko.MemBlk.{write_cells}
use flashdb_ko.Storage.{no_err, is_ok}
use flashdb_ko.Storage.Laws.{Ready, with_cells, with_cells-Ready, flash_write_lem}
use flashdb_ko.Status.{fdb_write_status}
use flashdb_ko.Status.Stored.{status_byte, write_status_lem}
use flashdb_ko.Kv.Types.{
  FdbKvdb, KvHdrData, fdb_kv_name_max, KvdbSecInfo, kv_hdr_tail_bytes, kv_hdr_data_size,
  fdb_kv_status_num, fdb_kv_pre_write, fdb_kv_write,
}
use flashdb_ko.Kv.State.{◌>>=◌}
use flashdb_ko.Kv.Write.{write_kv_hdr, align_write}
use flashdb_ko.Kv.Create.{new_kv_hdr, new_kv_crc, write_new_kv}
use flashdb_ko.Kv.SectorCache.{update_sector_empty_addr_cache}
use flashdb_ko.Kv.KvCache.{name_crc_of, update_kv_cache}
use flashdb_ko.Kv.Read.CrcLoop.{take_all}

-- The database on a memory with other bytes.
abbrev pub on_cells : FdbKvdb → (ℕ → ℕ) → FdbKvdb
on_cells db m = record db { flash = with_cells db.flash m }

module _ (db : FdbKvdb) {m : ℕ → ℕ} (ready : Ready db.flash m) where
  align_write_lem :
      (addr : ℕ) (buf : List ℕ)
      → addr + length buf ≤ db.flash.part.len
      → align_write addr buf db
        ≡ some (no_err, on_cells db (write_cells m (db.flash.part.offset + addr) buf))
  unfolding align_write is_ok
  align_write_lem addr buf h =
      let down : wg_align_down (length buf) ≡ length buf = wg_align_down-id (length buf) in
      let remain : sub32 (length buf) (length buf) ≡ 0 = omega arith in
      rw
        (
          align_write,
          down,
          take_all buf (length buf) refl,
          remain,
          flash_write_lem ready addr buf h,
        )
        refl

  write_kv_hdr_lem :
      (addr : ℕ) (hdr : KvHdrData)
      → addr + kv_hdr_data_size ≤ db.flash.part.len
      → length (kv_hdr_tail_bytes hdr) ≡ 20
      → write_kv_hdr addr hdr db
        ≡ some (
          no_err,
          on_cells db (
              write_cells
                (write_cells m (db.flash.part.offset + addr) (status_byte fdb_kv_pre_write ∷ []))
                (db.flash.part.offset + (addr + 4))
                (kv_hdr_tail_bytes hdr)),
        )
  unfolding write_kv_hdr is_ok
  write_kv_hdr_lem addr hdr h size =
      let at : add32 addr 4 ≡ addr + 4 = omega (arith, ready.fits) in
      let m1 = write_cells m (db.flash.part.offset + addr) (status_byte fdb_kv_pre_write ∷ []) in
      let status_written =
        write_status_lem fdb_kv_status_num fdb_kv_pre_write (omega arith) (omega arith)
          (omega arith) ready addr (omega arith) in
      let tail_written =
        flash_write_lem (with_cells-Ready m1 ready) (addr + 4) (kv_hdr_tail_bytes hdr)
          (omega arith) in
      rw (write_kv_hdr, status_written, at, tail_written) refl

-- The header with its CRC32.
abbrev pub whole_hdr : List ℕ → List ℕ → KvHdrData
whole_hdr key value = record (new_kv_hdr key value) { crc32 = new_kv_crc key value }

-- The memory after a KV was created at `addr` of a partition at the offset `off`: each step writes
-- on the one before.
abbrev pub hdr_cells : (ℕ → ℕ) → ℕ → ℕ → List ℕ → List ℕ → ℕ → ℕ
hdr_cells m off addr key value =
    write_cells (write_cells m (off + addr) (status_byte fdb_kv_pre_write ∷ [])) (off + (addr + 4))
      (kv_hdr_tail_bytes (whole_hdr key value))

abbrev pub name_cells : (ℕ → ℕ) → ℕ → ℕ → List ℕ → List ℕ → ℕ → ℕ
name_cells m off addr key value =
    write_cells (hdr_cells m off addr key value) (off + (addr + 24)) key

abbrev pub value_cells : (ℕ → ℕ) → ℕ → ℕ → List ℕ → List ℕ → ℕ → ℕ
value_cells m off addr key value =
    write_cells (name_cells m off addr key value) (off + (addr + 24 + length key)) value

abbrev pub kv_cells : (ℕ → ℕ) → ℕ → ℕ → List ℕ → List ℕ → ℕ → ℕ
kv_cells m off addr key value =
    write_cells (value_cells m off addr key value) (off + addr) (status_byte fdb_kv_write ∷ [])

pub length-tail_bytes : (key value : List ℕ) → length (kv_hdr_tail_bytes (whole_hdr key value)) ≡ 20
unfolding kv_hdr_tail_bytes new_kv_hdr
length-tail_bytes key value = refl

module _ (db : FdbKvdb) {m : ℕ → ℕ} (ready : Ready db.flash m) (sector : KvdbSecInfo) (addr : ℕ)
    (key value : List ℕ) (key_len : length key ≤ fdb_kv_name_max)
    (inside : addr + (kv_hdr_data_size + length key + length value) ≤ db.flash.part.len) where
  -- The database once the caches know of the KV, on a memory.
  abbrev pub known : Bool → (ℕ → ℕ) → FdbKvdb
  known is_full m' = record db {
    flash = with_cells db.flash m';
    sector_cache_table =
        if not is_full
        then update_sector_empty_addr_cache db.sector_cache_table db.sec_size sector.addr
            (add32 (addr + 24 + length key) (length value))
        else db.sector_cache_table;
    kv_cache_table = update_kv_cache db.kv_cache_table (name_crc_of key) addr;
  }

  name_len_at : (new_kv_hdr key value).name_len ≡ length key
  unfolding new_kv_hdr
  name_len_at = omega arith

  value_len_at : (new_kv_hdr key value).value_len ≡ length value
  unfolding new_kv_hdr
  value_len_at = omega (arith, ready.fits)

  name_align : wg_align (new_kv_hdr key value).name_len ≡ length key
  name_align = rw name_len_at (wg_align-id (length key) (omega arith))

  value_align : wg_align (new_kv_hdr key value).value_len ≡ length value
  value_align = rw value_len_at (wg_align-id (length value) (omega (arith, ready.fits)))

  name_at : add32 addr 24 ≡ addr + 24
  name_at = omega (arith, ready.fits)

  value_at : add32 (addr + 24) (length key) ≡ addr + 24 + length key
  value_at = omega (arith, ready.fits)

  abbrev after_hdr : ℕ → ℕ
  after_hdr = hdr_cells m db.flash.part.offset addr key value

  abbrev after_name : ℕ → ℕ
  after_name = name_cells m db.flash.part.offset addr key value

  abbrev after_value : ℕ → ℕ
  after_value = value_cells m db.flash.part.offset addr key value

  hdr_written : write_kv_hdr addr (whole_hdr key value) db ≡ some (no_err, on_cells db after_hdr)
  hdr_written =
      write_kv_hdr_lem db ready addr (whole_hdr key value) (omega arith)
        (length-tail_bytes key value)

  name_written :
      align_write (addr + 24) key (on_cells db after_hdr) ≡ some (no_err, on_cells db after_name)
  name_written =
      align_write_lem (on_cells db after_hdr) (with_cells-Ready after_hdr ready) (addr + 24) key
        (omega arith)

  value_written :
      (is_full : Bool)
      → align_write (addr + 24 + length key) value (known is_full after_name)
        ≡ some (no_err, known is_full after_value)
  value_written is_full =
      align_write_lem (known is_full after_name) (with_cells-Ready after_name ready)
        (addr + 24 + length key) value (omega arith)

  status_written :
      fdb_write_status (with_cells db.flash after_value) addr fdb_kv_status_num fdb_kv_write ≡ (
        no_err,
        with_cells db.flash
            (write_cells after_value (db.flash.part.offset + addr) (status_byte fdb_kv_write ∷ [])),
        status_byte fdb_kv_write ∷ [],
      )
  status_written =
      write_status_lem fdb_kv_status_num fdb_kv_write (omega arith) (omega arith) (omega arith)
        (with_cells-Ready after_value ready) addr (omega arith)

  -- With room for it in the partition, the creation of a KV succeeds and leaves its bytes there.
  pub write_new_kv_lem :
      (is_full : Bool)
      → write_new_kv sector addr key value is_full db
        ≡ some (no_err, known is_full (kv_cells m db.flash.part.offset addr key value))
  unfolding is_ok write_new_kv
  write_new_kv_lem true =
      rw
        (
          ◌>>=◌,
          hdr_written,
          name_at,
          name_written,
          name_align,
          name_at,
          value_at,
          ◌>>=◌,
          value_written true,
          status_written,
        )
        refl
  write_new_kv_lem false =
      rw
        (
          ◌>>=◌,
          hdr_written,
          name_at,
          name_written,
          name_align,
          name_at,
          value_at,
          value_align,
          ◌>>=◌,
          value_written false,
          status_written,
        )
        refl
