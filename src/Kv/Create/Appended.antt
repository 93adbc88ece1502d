-- ===== src/Kv/Create/Appended.antt =====
-- `create_kv_blob` of FlashDB/src/fdb_kvdb.c on a sector that holds KVs: it appends to them.
use flashdb_ko.Prelude.{
  ℕ, ◌+◌, ◌<◌, ◌≤◌, ◌≡◌, ◌≢◌, ◌⊎◌, inl, inr, sym, ap, ◌∙◌, subst, List, [], ◌∷◌, ◌++◌, length, some,
  Bool, true, false, arith,
}
use flashdb_ko.Fal.{FalPartition}
use flashdb_ko.Storage.{no_err}
use flashdb_ko.Storage.Laws.{Ready, with_cells-Ready}
use flashdb_ko.Kv.Types.{
  FdbKvdb, KvdbSecInfo, fdb_kv_name_max, fdb_kv_write, kv_hdr_data_size, sector_hdr_data_size,
}
use flashdb_ko.Kv.Create.{create_kv_blob}
use flashdb_ko.Kv.Create.WriteKv.{kv_cells}
use flashdb_ko.Kv.Create.RoundTrip.{kv_cells-ItemAt, kv_cells-before, kv_cells-behind}
use flashdb_ko.Kv.Create.Served.{asked, create_kv_blob-run}
use flashdb_ko.Kv.Items.{Item, item_len, ValidItem}
use flashdb_ko.Kv.Items.Sector.{ItemsAt, items_len}
use flashdb_ko.Kv.Items.Append.{ItemsAt-Agree, ItemsAt-append}

-- The KV that is created.
abbrev pub new_item : List ℕ → List ℕ → Item
new_item key value = record { key = key; value = value; status = fdb_kv_write }

asked-Ready :
    (is_full : Bool) (db : FdbKvdb) {m : ℕ → ℕ}
    → Ready db.flash m
    → Ready (asked is_full db).flash m
asked-Ready true db ready = ready
asked-Ready false db ready = ready

-- What a creation leaves of the memory: the KVs from `addr` on with the new one behind them, and
-- every byte outside the sector's header and the new KV.
pub record Appended (m m' : ℕ → ℕ) (off addr : ℕ) (items : List Item) (e : Item) : Type 0 where
  pub items_at : ItemsAt m' off (addr + sector_hdr_data_size) (items ++ e ∷ [])
  pub kept :
      (x : ℕ)
      → x ≢ off + addr
      → (x < off + (addr + sector_hdr_data_size + items_len items))
        ⊎ (off + (addr + sector_hdr_data_size + items_len items + item_len e) ≤ x)
      → m' x ≡ m x

module _ (m m1 : ℕ → ℕ) (off addr : ℕ) (key value : List ℕ) (items : List Item)
    (status_only : (x : ℕ) → x ≢ off + addr → m1 x ≡ m x) where
  abbrev start : ℕ
  start = addr + sector_hdr_data_size + items_len items

  abbrev cells : ℕ → ℕ
  cells = kv_cells m1 off start key value

  cells-kept :
      (x : ℕ)
      → x ≢ off + addr
      → (x < off + start) ⊎ (off + (start + item_len (new_item key value)) ≤ x)
      → cells x ≡ m x
  cells-kept x away (inl before) =
      kv_cells-before m1 off start key value x before ∙ status_only x away
  cells-kept x away (inr behind) =
      kv_cells-behind m1 off start key value x (omega arith) ∙ status_only x away

  pub cells-Appended :
      ValidItem (new_item key value)
      → ItemsAt m off (addr + sector_hdr_data_size) items
      → Appended m cells off addr items (new_item key value)
  cells-Appended valid held = record {
    items_at =
        ItemsAt-append cells off items (addr + sector_hdr_data_size) (new_item key value)
          (ItemsAt-Agree m cells off items (addr + sector_hdr_data_size)
            (λ x p q. cells-kept x (λ e. absurd (omega (arith, e))) (inl (omega arith))) held)
          (kv_cells-ItemAt m1 off start key value) valid;
    kept = cells-kept;
  }

-- A sector of less than 2 ^ 32 - 256 bytes, with its header in the partition, holds KVs, and its
-- structure names the address behind them, where a further KV lies in the partition; the KV fits an
-- empty sector, and its name has less than FDB_KV_NAME_MAX characters. Creating it succeeds. The
-- sector then holds the KVs that it had, in their order and with their contents, and the new one
-- behind them, and no byte outside the status of the sector and the new KV is changed.
pub create_kv_blob-Appended :
    (db : FdbKvdb) {m : ℕ → ℕ} (ready : Ready db.flash m) (sector : KvdbSecInfo)
    (key value : List ℕ) (items : List Item)
    → length key < fdb_kv_name_max
    → sector.addr < db.flash.part.len
    → sector.empty_kv + (kv_hdr_data_size + length key + length value) ≤ db.flash.part.len
    → sector_hdr_data_size + (kv_hdr_data_size + length key + length value) ≤ db.sec_size
    → db.sec_size < 0xffff_ff00
    → sector.empty_kv ≡ sector.addr + sector_hdr_data_size + items_len items
    → ItemsAt m db.flash.part.offset (sector.addr + sector_hdr_data_size) items
    → (db' : FdbKvdb) × (m' : ℕ → ℕ) × (create_kv_blob sector key value db
        ≡ some ((no_err, sector), db'))
      × Ready db'.flash m'
      × Appended m m' db.flash.part.offset sector.addr items (new_item key value)
create_kv_blob-Appended db {m} ready sector key value items key_len hdr_in inside sec_fits small
      at_end held =
    let (is_full, db1, prepared, short, inside1, run) =
      create_kv_blob-run db ready sector key value key_len hdr_in inside sec_fits small in
    let same : db1.flash.part.offset ≡ db.flash.part.offset =
      ap (λ (p : FalPartition). p.offset) prepared.part_is in
    let cells_at : ℕ → ℕ → ℕ → ℕ = λ off addr. kv_cells prepared.cells off addr key value in
    let valid : ValidItem (new_item key value) = record {
      key_len = key_len;
      value_len = omega arith;
      has_status = omega arith;
      status_below = omega arith;
    } in
    let appended =
      cells-Appended m prepared.cells db.flash.part.offset sector.addr key value items prepared.kept
        valid held in
    (
      _,
      cells_at db1.flash.part.offset sector.empty_kv,
      run,
      asked-Ready is_full _
          (with_cells-Ready (cells_at db1.flash.part.offset sector.empty_kv) prepared.ready),
      subst
          (λ (c : ℕ → ℕ). Appended m c db.flash.part.offset sector.addr items (new_item key value))
          (ap (cells_at db.flash.part.offset) (sym at_end)
            ∙ ap (λ (off : ℕ). cells_at off sector.empty_kv) (sym same))
          appended,
    )
