-- ===== src/Kv/Find/Written.antt =====
-- `create_kv_blob` and then `fdb_kv_get_blob` of FlashDB/src/fdb_kvdb.c: the value that was stored
-- is found through the caches and read back.
use Prim.Native.Nat.{min}
use flashdb_ko.Prelude.{
  ℕ, ◌+◌, ◌-◌, ◌<◌, ◌≤◌, ◌≡◌, refl, sym, ap, subst, ◌∙◌, List, ◌++◌, All, take, drop, replicate,
  length, some, true, arith,
}
use flashdb_ko.Prelude.Words.{add32}
use flashdb_ko.MemBlk.{read_cells}
use flashdb_ko.MemBlk.Cells.{read_cells-append}
use flashdb_ko.Fal.{strn_eq}
use flashdb_ko.Storage.{FdbErr, flash_read, flash_fetch}
use flashdb_ko.Storage.Laws.{Ready, flash_read_lem, flash_fetch_lem}
use flashdb_ko.Kv.Types.{
  FdbKvdb, KvCacheNode, blank_kv, fdb_kv_write, fdb_kv_name_max, fdb_kv_cache_table_size,
  kv_hdr_data_size,
}
use flashdb_ko.Kv.KvCache.{saved_name, name_crc_of, update_kv_cache, get_kv_from_cache}
use flashdb_ko.Kv.KvCache.Laws.{get_kv-update_kv}
use flashdb_ko.Kv.Find.{get_kv, fdb_kv_get_blob}
use flashdb_ko.Kv.Find.Cached.{strn_eq-append, looked_up, get_kv-cached}
use flashdb_ko.Kv.Create.WriteKv.{kv_cells}
use flashdb_ko.Kv.Create.RoundTrip.{name_read, value_read, kv_cells-ItemAt}
use flashdb_ko.Kv.Create.ReadBack.{read_kv-item}
use flashdb_ko.Kv.Create.Stored.{stored_kv}

-- The cache has entries, not more than FDB_KV_CACHE_TABLE_SIZE, with 16-bit counters.
pub record ValidCache (table : List KvCacheNode) : Type 0 where
  pub counters : All (λ (n : KvCacheNode). n.active < 0x1_0000) table
  pub some_entry : 0 < length table
  pub size : length table ≤ fdb_kv_cache_table_size

pub fdb_kv_get_blob-ready :
    (db : FdbKvdb) (key buf : List ℕ) (saved_len : ℕ)
    → db.init_ok ≡ true
    → fdb_kv_get_blob key buf saved_len db ≡ get_kv key buf db
unfolding fdb_kv_get_blob
fdb_kv_get_blob-ready db key buf saved_len ok = rw ok refl

-- A database whose flash holds a KV as `create_kv_blob` writes it, and whose cache knows of it.
module _ (db : FdbKvdb) (m : ℕ → ℕ) (table : List KvCacheNode) (addr : ℕ) (key value : List ℕ)
    (ready : Ready db.flash (kv_cells m db.flash.part.offset addr key value))
    (cached : db.kv_cache_table ≡ update_kv_cache table (name_crc_of key) addr)
    (valid : ValidCache table) (key_len : length key < fdb_kv_name_max)
    (value_len : length value < 0xffff_ff00)
    (inside : addr + (kv_hdr_data_size + length key + length value) ≤ db.flash.part.len)
    (fits : kv_hdr_data_size + length key + length value ≤ db.max_size)
    (name_inside : addr + (kv_hdr_data_size + fdb_kv_name_max) ≤ db.flash.part.len) where
  -- The name that the cache reads behind the header starts with the key.
  name_matches : strn_eq key (saved_name db.flash addr) (length key) ≡ true
  name_matches =
      let off = db.flash.part.offset in
      let cells = kv_cells m off addr key value in
      let at : add32 addr 24 ≡ addr + 24 = omega (arith, ready.fits) in
      let split : length key + (64 - length key) ≡ 64 = omega arith in
      let behind = read_cells cells (off + (addr + 24) + length key) (64 - length key) in
      let fetched : saved_name db.flash addr ≡ key ++ behind =
        ap (λ (a : ℕ). (flash_read db.flash a (replicate 64 0)).1) at
        ∙ ap (λ (r : FdbErr × List ℕ). r.1)
            (flash_read_lem ready (addr + 24) (replicate 64 0) (omega arith))
        ∙ ap (read_cells cells (off + (addr + 24))) (sym split)
        ∙ read_cells-append cells (off + (addr + 24)) (length key) (64 - length key)
        ∙ ap (λ (n : List ℕ). n ++ behind) (name_read m off addr key value) in
      subst (λ (n : List ℕ). strn_eq key n (length key) ≡ true) (sym fetched)
        (strn_eq-append key behind)

  hit : (get_kv_from_cache db.flash key (name_crc_of key) db.kv_cache_table).0 ≡ some addr
  hit = rw cached (
      get_kv-update_kv (name_crc_of key) addr table valid.counters valid.some_entry valid.size
        (λ e. absurd (omega (arith, e, ready.fits))) db.flash key name_matches)

  value_there : flash_fetch db.flash (addr + 24 + length key) (length value) ≡ value
  value_there =
      flash_fetch_lem ready (addr + 24 + length key) (length value) (omega arith)
      ∙ value_read m db.flash.part.offset addr key value

  -- `get_kv` finds it and reads its value into the buffer.
  pub get_kv-written :
      (buf : List ℕ)
      → let n = min (length value) (length buf) in
        get_kv key buf db
        ≡ some (
          (n, take n value ++ drop n buf, length value),
          record db { kv_cache_table = looked_up db key },
        )
  get_kv-written buf =
      let found = stored_kv addr key value blank_kv in
      let read =
        read_kv-item key value key_len value_len fdb_kv_write (omega arith) (omega arith)
          (record db { kv_cache_table = looked_up db key }) addr ready
          (kv_cells-ItemAt m db.flash.part.offset addr key value) inside fits
          (record blank_kv { start = addr }) refl in
      rw value_there at (get_kv-cached db key addr hit ready found buf read (omega arith))
