-- ===== src/Kv/Create/Stored.antt =====
-- `create_kv_blob` and `read_kv` of FlashDB/src/fdb_kvdb.c, one after the other.
use flashdb_ko.Prelude.{
  ℕ, ◌+◌, ◌<◌, ◌≤◌, ◌≡◌, ◌∙◌, List, [], ◌∷◌, ◌++◌, some, Bool, true, length, arith,
}
use flashdb_ko.Storage.{no_err, flash_fetch}
use flashdb_ko.Storage.Laws.{Ready, with_cells-Ready, flash_fetch_lem}
use flashdb_ko.Kv.Types.{
  FdbKv, FdbKvdb, KvdbSecInfo, fdb_kv_name_max, kv_hdr_data_size, fdb_kv_write,
}
use flashdb_ko.Kv.Read.{read_kv}
use flashdb_ko.Kv.Create.{write_new_kv}
use flashdb_ko.Kv.Create.WriteKv.{kv_cells, known, write_new_kv_lem}
use flashdb_ko.Kv.Create.RoundTrip.{value_read, kv_cells-ItemAt}
use flashdb_ko.Kv.Create.ReadBack.{read_kv-item}

-- The KV structure of a KV at an address.
abbrev pub stored_kv : ℕ → List ℕ → List ℕ → FdbKv → FdbKv
stored_kv addr key value kv = record kv {
  status = fdb_kv_write;
  crc_is_ok = true;
  name_len = length key;
  len = kv_hdr_data_size + length key + length value;
  value_len = length value;
  name = key ++ (0 ∷ []);
  start = addr;
  value = addr + 24 + length key;
}

-- With room in the partition and a name of less than FDB_KV_NAME_MAX characters, whatever the flash
-- held at the address: the writing of a new KV ends without an error, and afterwards `read_kv` there
-- ends without an error or a change of the database, with status FDB_KV_WRITE, a right CRC32, and
-- the lengths, the name and the value's address that were written; the value's bytes are there.
pub read_kv-create :
    (db : FdbKvdb) {m : ℕ → ℕ} (ready : Ready db.flash m) (sector : KvdbSecInfo) (addr : ℕ)
    (key value : List ℕ) (is_full : Bool)
    → length key < fdb_kv_name_max
    → length value < 0xffff_ff00
    → addr + (kv_hdr_data_size + length key + length value) ≤ db.flash.part.len
    → kv_hdr_data_size + length key + length value ≤ db.max_size
    → (db' : FdbKvdb) × (write_new_kv sector addr key value is_full db ≡ some (no_err, db'))
      × ((kv : FdbKv)
          → kv.start ≡ addr
          → read_kv kv db' ≡ some ((no_err, stored_kv addr key value kv), db'))
      × (flash_fetch db'.flash (addr + 24 + length key) (length value) ≡ value)
read_kv-create db {m} ready sector addr key value is_full key_len value_len inside fits =
    let cells = kv_cells m db.flash.part.offset addr key value in
    let db' = known db ready sector addr key value (omega arith) inside is_full cells in
    (
      db',
      write_new_kv_lem db ready sector addr key value (omega arith) inside is_full,
      read_kv-item key value key_len value_len fdb_kv_write (omega arith) (omega arith) db' addr
          (with_cells-Ready cells ready) (kv_cells-ItemAt m db.flash.part.offset addr key value)
          inside fits,
      flash_fetch_lem (with_cells-Ready cells ready) (addr + 24 + length key) (length value)
            (omega arith)
          ∙ value_read m db.flash.part.offset addr key value,
    )
