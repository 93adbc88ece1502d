-- ===== src/Kv/Create/Served.antt =====
-- `create_kv_blob` of FlashDB/src/fdb_kvdb.c, and the value that `fdb_kv_get_blob` reads afterwards.
use Prim.Native.Nat.{min}
use flashdb_ko.Prelude.{
  ℕ, ◌+◌, ◌<◌, ◌≤◌, ◌≡◌, refl, sym, ap, ◌∙◌, List, ◌++◌, take, drop, length, some, Bool, true,
  false, ◌==◌, ltb, ne→==_false, subst, arith,
}
use flashdb_ko.Prelude.Words.{failed_addr, sub32}
use flashdb_ko.Fal.{FalPartition}
use flashdb_ko.Kv.Create.ReadBack.{hdr_len}
use flashdb_ko.Storage.{no_err, is_ok}
use flashdb_ko.Storage.Laws.{Ready, with_cells-Ready}
use flashdb_ko.Kv.Types.{
  FdbKvdb, KvdbSecInfo, KvCacheNode, fdb_kv_name_max, kv_hdr_data_size, sector_hdr_data_size,
}
use flashdb_ko.Kv.State.{◌>>=◌}
use flashdb_ko.Kv.KvCache.{name_crc_of, update_kv_cache}
use flashdb_ko.Kv.Find.{fdb_kv_get_blob}
use flashdb_ko.Kv.Find.Cached.{looked_up}
use flashdb_ko.Kv.Find.Written.{ValidCache, get_kv-written, fdb_kv_get_blob-ready}
use flashdb_ko.Kv.Write.{update_sec_status}
use flashdb_ko.Kv.Create.{new_kv_hdr, write_new_kv, place_new_kv, create_kv_blob}
use flashdb_ko.Kv.Create.WriteKv.{kv_cells, known, write_new_kv_lem}
use flashdb_ko.Kv.Create.Placed.{Prepared, update_sec_status-Prepared}

-- A creation that filled the sector asks for a garbage collection.
abbrev pub asked : Bool → FdbKvdb → FdbKvdb
asked true db = record db { gc_request = true }
asked false db = db

place_new_kv_lem :
    (db db1 db2 : FdbKvdb) (sector : KvdbSecInfo) (addr : ℕ) (key value : List ℕ) (is_full : Bool)
    → update_sec_status sector (new_kv_hdr key value).len false db ≡ some ((no_err, is_full), db1)
    → write_new_kv sector addr key value is_full db1 ≡ some (no_err, db2)
    → place_new_kv sector addr key value db ≡ some (no_err, asked is_full db2)
unfolding is_ok place_new_kv
place_new_kv_lem db db1 db2 sector addr key value true updated done =
    rw (place_new_kv, updated, ◌>>=◌, done) refl
place_new_kv_lem db db1 db2 sector addr key value false updated done =
    rw (place_new_kv, updated, ◌>>=◌, done) refl

create_kv_blob-place :
    (db db' : FdbKvdb) (sector : KvdbSecInfo) (key value : List ℕ)
    → ltb fdb_kv_name_max (length key) ≡ false
    → ltb (sub32 db.sec_size sector_hdr_data_size) (new_kv_hdr key value).len ≡ false
    → (sector.empty_kv == failed_addr) ≡ false
    → place_new_kv sector sector.empty_kv key value db ≡ some (no_err, db')
    → create_kv_blob sector key value db ≡ some ((no_err, sector), db')
unfolding create_kv_blob
create_kv_blob-place db db' sector key value short room there done =
    rw (create_kv_blob, short, room, there, there, ◌>>=◌, done) refl

-- `fdb_kv_get_blob` with any buffer gives the smaller one of the buffer's size and the value's
-- length, that many bytes of the value in the buffer with the rest of it unchanged, and the value's
-- length; it changes nothing but the activity of the cache's entries.
unfoldable pub Serves : FdbKvdb → List ℕ → List ℕ → Type 0
Serves db key value =
    (buf : List ℕ) (saved_len : ℕ)
    → fdb_kv_get_blob key buf saved_len db
      ≡ some (
        (
          min (length value) (length buf),
          take (min (length value) (length buf)) value
              ++ drop (min (length value) (length buf)) buf,
          length value,
        ),
        record db { kv_cache_table = looked_up db key },
      )

served :
    (is_full : Bool) (db : FdbKvdb) (m : ℕ → ℕ) (table : List KvCacheNode) (addr : ℕ)
    (key value : List ℕ)
    → Ready db.flash (kv_cells m db.flash.part.offset addr key value)
    → db.kv_cache_table ≡ update_kv_cache table (name_crc_of key) addr
    → ValidCache table
    → db.init_ok ≡ true
    → length key < fdb_kv_name_max
    → length value < 0xffff_ff00
    → addr + (kv_hdr_data_size + length key + length value) ≤ db.flash.part.len
    → kv_hdr_data_size + length key + length value ≤ db.max_size
    → addr + (kv_hdr_data_size + fdb_kv_name_max) ≤ db.flash.part.len
    → Serves (asked is_full db) key value
unfolding Serves
served true db m table addr key value ready cached valid ok key_len value_len inside fits name_in
      buf saved_len =
    fdb_kv_get_blob-ready (asked true db) key buf saved_len ok
    ∙ get_kv-written (asked true db) m table addr key value ready cached valid key_len value_len
        inside fits name_in buf
served false db m table addr key value ready cached valid ok key_len value_len inside fits name_in
      buf saved_len =
    fdb_kv_get_blob-ready db key buf saved_len ok
    ∙ get_kv-written db m table addr key value ready cached valid key_len value_len inside fits
        name_in buf

-- A run of `create_kv_blob`: the update of the sector's status, and the writing of the KV.
pub create_kv_blob-run :
    (db : FdbKvdb) {m : ℕ → ℕ} (ready : Ready db.flash m) (sector : KvdbSecInfo)
    (key value : List ℕ)
    → length key < fdb_kv_name_max
    → sector.addr < db.flash.part.len
    → sector.empty_kv + (kv_hdr_data_size + length key + length value) ≤ db.flash.part.len
    → sector_hdr_data_size + (kv_hdr_data_size + length key + length value) ≤ db.sec_size
    → db.sec_size < 0xffff_ff00
    → let addr = sector.empty_kv in
      (is_full : Bool) × (db1 : FdbKvdb) × (prepared : Prepared m sector.addr db db1)
      × (short : length key ≤ fdb_kv_name_max) × (inside : addr
            + (kv_hdr_data_size + length key + length value)
          ≤ db1.flash.part.len)
      × (create_kv_blob sector key value db
          ≡ some (
            (no_err, sector),
            asked is_full (
                known db1 prepared.ready sector addr key value short inside is_full
                  (kv_cells prepared.cells db1.flash.part.offset addr key value)),
          ))
create_kv_blob-run db {m} ready sector key value key_len hdr_in inside sec_fits small =
    let (is_full, db1, updated, prepared) =
      update_sec_status-Prepared db ready sector (new_kv_hdr key value).len hdr_in in
    let addr = sector.empty_kv in
    let same : db1.flash.part.len ≡ db.flash.part.len =
      ap (λ (p : FalPartition). p.len) prepared.part_is in
    let short : length key ≤ fdb_kv_name_max = omega arith in
    let inside1 : addr + (kv_hdr_data_size + length key + length value) ≤ db1.flash.part.len =
      rw same inside in
    let cells = kv_cells prepared.cells db1.flash.part.offset addr key value in
    let db2 = known db1 prepared.ready sector addr key value short inside1 is_full cells in
    let len : (new_kv_hdr key value).len ≡ kv_hdr_data_size + length key + length value =
      hdr_len key value key_len (omega arith) in
    (
      is_full,
      db1,
      prepared,
      short,
      inside1,
      create_kv_blob-place db (asked is_full db2) sector key value (ground arith)
          (rw len (ground arith))
          (ne→==_false addr failed_addr (λ e. absurd (omega (arith, e, ready.fits))))
          (place_new_kv_lem db db1 db2 sector addr key value is_full updated
            (write_new_kv_lem db1 prepared.ready sector addr key value short inside1 is_full)),
    )

-- `create_kv_blob` at an address of the partition that the sector's structure names, where the KV
-- and FDB_KV_NAME_MAX bytes behind its header lie in the partition and the KV fits a sector, with a
-- name of less than FDB_KV_NAME_MAX characters, in a started database whose KV cache has 1 to 64
-- entries with 16-bit counters: the creation succeeds, and `fdb_kv_get_blob` then
-- finds the KV. With any buffer it gives the smaller one of the buffer's size and the value's
-- length, that many bytes of the value in the buffer with the rest of it unchanged, and the value's
-- length.
pub create_kv_blob-Serves :
    (db : FdbKvdb) {m : ℕ → ℕ} (ready : Ready db.flash m) (sector : KvdbSecInfo)
    (key value : List ℕ)
    → ValidCache db.kv_cache_table
    → db.init_ok ≡ true
    → length key < fdb_kv_name_max
    → sector.addr < db.flash.part.len
    → sector.empty_kv + (kv_hdr_data_size + fdb_kv_name_max) ≤ db.flash.part.len
    → sector.empty_kv + (kv_hdr_data_size + length key + length value) ≤ db.flash.part.len
    → kv_hdr_data_size + length key + length value ≤ db.max_size
    → sector_hdr_data_size + (kv_hdr_data_size + length key + length value) ≤ db.sec_size
    → db.sec_size < 0xffff_ff00
    → (db' : FdbKvdb) × (create_kv_blob sector key value db ≡ some ((no_err, sector), db'))
      × Serves db' key value
create_kv_blob-Serves db {m} ready sector key value valid ok key_len hdr_in name_in inside max_fits
      sec_fits small =
    let (is_full, db1, prepared, short, inside1, run) =
      create_kv_blob-run db ready sector key value key_len hdr_in inside sec_fits small in
    let addr = sector.empty_kv in
    let same : db1.flash.part.len ≡ db.flash.part.len =
      ap (λ (p : FalPartition). p.len) prepared.part_is in
    let cells = kv_cells prepared.cells db1.flash.part.offset addr key value in
    (
      asked is_full (known db1 prepared.ready sector addr key value short inside1 is_full cells),
      run,
      served is_full (known db1 prepared.ready sector addr key value short inside1 is_full cells)
          prepared.cells db1.kv_cache_table addr key value (with_cells-Ready cells prepared.ready)
          refl (subst ValidCache (sym prepared.cache_is) valid) (prepared.ok_is ∙ ok) key_len
          (omega arith) inside1 (rw prepared.max_is max_fits) (rw same name_in),
    )
