-- ===== src/Tests/Lookup.antt =====
-- Instances of the theorems on the lookup of names, on a database of two sectors with one KV.
use mathlib.Core.Option.{none-ne-some}
use flashdb_ko.Prelude.{
  ℕ, ◌/◌, ◌*◌, ◌≤◌, ◌<◌, ◌≡◌, ◌≢◌, refl, sym, ◌∙◌, List, [], ◌∷◌, none, some, true, false, ◌==◌,
  inl, inr, replicate, arith,
}
use flashdb_ko.Prelude.Words.{failed_addr, fdb_align_down}
use flashdb_ko.Fal.{FalPartition}
use flashdb_ko.Storage.{Flash, no_err}
use flashdb_ko.Storage.Laws.{Ready}
use flashdb_ko.Kv.Types.{
  FdbKvdb, KvdbSecInfo, KvCacheNode, blank_kv, blank_sector, store_using, store_empty,
  sector_not_combined,
}
use flashdb_ko.Kv.SectorCache.{get_sector_from_cache}
use flashdb_ko.Kv.KvCache.{name_crc_of, get_kv_from_cache}
use flashdb_ko.Kv.Walk.{starts_empty, get_next_sector_addr}
use flashdb_ko.Kv.Iterate.{has_kvs}
use flashdb_ko.Kv.Find.{find_kv_no_cache, fdb_kv_get_blob}
use flashdb_ko.Kv.Create.WriteKv.{kv_cells}
use flashdb_ko.Kv.Create.{create_kv_blob}
use flashdb_ko.Kv.Create.Appended.{new_item, Appended, create_kv_blob-Appended}
use flashdb_ko.Kv.Create.RoundTrip.{kv_cells-ItemAt, kv_cells-behind}
use flashdb_ko.Kv.Items.{kv_of, Item}
use flashdb_ko.Kv.Alloc.{del_kv_at}
use flashdb_ko.Kv.Items.Restatus.{with_status}
use flashdb_ko.Kv.Items.Deleted.{deleted_status, del_kv_at-ItemsAt}
use flashdb_ko.Kv.Items.Sector.{ItemsAt, items_len, Filled}
use flashdb_ko.Kv.Items.Search.{NoNul}
use flashdb_ko.Kv.Items.Blocks.{Block, Blocks, find_block, Finds}
use flashdb_ko.Kv.Items.Lookup.{find_kv_no_cache-Finds}
use flashdb_ko.Kv.Items.Values.{get_value, all_items}
use flashdb_ko.Kv.Items.Get.{answer, fdb_kv_get_blob-get_value}

abbrev name : List ℕ
name = 65 ∷ 66 ∷ []

abbrev item : Item
item = record { key = name; value = 1 ∷ 2 ∷ 3 ∷ []; status = 2 }

abbrev memory : ℕ → ℕ
memory = kv_cells (λ x. 255) 0 16 name (1 ∷ 2 ∷ 3 ∷ [])

abbrev part : FalPartition
part = record { magic_word = 0; name = []; flash_name = []; offset = 0; len = 1024 }

abbrev flash : Flash
flash = record { file_mode = false; part = part; dev_len = 1024; block = some memory; junk = 0 }

abbrev first_sector : KvdbSecInfo
first_sector = record blank_sector {
  check_ok = true;
  store = store_using;
  addr = 0;
  combined = sector_not_combined;
  empty_kv = 45;
}

abbrev last_sector : KvdbSecInfo
last_sector = record blank_sector {
  check_ok = true;
  store = store_empty;
  addr = 512;
  combined = sector_not_combined;
  empty_kv = 528;
}

abbrev db : FdbKvdb
db = record {
  flash = flash;
  sec_size = 512;
  max_size = 1024;
  oldest_addr = 0;
  init_ok = true;
  not_formatable = false;
  default_kvs = [];
  gc_request = false;
  in_recovery_check = false;
  cur_kv = blank_kv;
  cur_sector = blank_sector;
  last_is_complete_del = false;
  kv_cache_table = replicate 64 (record { name_crc = 0; active = 0; addr = failed_addr });
  sector_cache_table = first_sector ∷ last_sector ∷ [];
}

flash-Ready : Ready flash memory
flash-Ready = record { no_file = refl; block_is = refl; fits = omega arith }

-- Behind the KV all bytes are 255.
memory_behind : (x : ℕ) → 45 ≤ x → memory x ≡ 255
memory_behind x behind = kv_cells-behind (λ x. 255) 0 16 name (1 ∷ 2 ∷ 3 ∷ []) x behind

knows_end : (x : ℕ) → x < 512 → starts_empty db x ≡ true → x ≡ 45
unfolding starts_empty get_sector_from_cache fdb_align_down
knows_end x low empty =
    let down : x / 512 * 512 ≡ 0 = omega arith in
    let open_at : starts_empty db x ≡ (x == 45) = rw (starts_empty, down) refl in
    ground (arith, sym open_at ∙ empty)

filled : Filled db memory first_sector (item ∷ [])
unfolding items_len ItemsAt
filled = record {
  ready = flash-Ready;
  inside = omega arith;
  small = omega arith;
  sized = omega arith;
  used = refl;
  items_at = (
    kv_cells-ItemAt (λ x. 255) 0 16 name (1 ∷ 2 ∷ 3 ∷ []),
    record {
      key_len = omega arith;
      value_len = omega arith;
      has_status = omega arith;
      status_below = omega arith;
    },
    tt,
  );
  room = omega arith;
  erased = λ x above below. memory_behind x (omega (arith, above));
  knows = λ x above below empty. knows_end x (omega (arith, below)) empty;
}

abbrev first_block : Block
first_block = record { info = first_sector; items = item ∷ [] }

abbrev last_block : Block
last_block = record { info = last_sector; items = [] }

held : Blocks db memory 0 0 first_block (last_block ∷ [])
unfolding Blocks get_sector_from_cache get_next_sector_addr has_kvs
held = (
  record { aligned = refl; cached = refl; content = inl (item, [], refl, refl, filled) },
  (λ e. absurd (omega (arith, e))),
  (record { aligned = refl; cached = refl; content = inr (refl, refl) }, refl),
)

unknown : (get_kv_from_cache flash name (name_crc_of name) db.kv_cache_table).0 ≡ none
unfolding get_kv_from_cache
unknown = refl

name-NoNul : NoNul name
name-NoNul = (omega arith, (omega arith, tt))

find_kv_no_cache-Finds_example :
    Finds db (find_block name (first_block ∷ last_block ∷ [])) (find_kv_no_cache name blank_kv db)
find_kv_no_cache-Finds_example =
    find_kv_no_cache-Finds name name-NoNul db memory first_block (last_block ∷ []) blank_kv
      (omega arith) held

fdb_kv_get_blob-get_value_example :
    (table : List KvCacheNode) × (fdb_kv_get_blob name (0 ∷ 0 ∷ []) 0 db
      ≡ some (
        answer (0 ∷ 0 ∷ []) (get_value name (all_items (first_block ∷ last_block ∷ []))),
        record db { kv_cache_table = table },
      ))
unfolding get_kv_from_cache
fdb_kv_get_blob-get_value_example =
    fdb_kv_get_blob-get_value db memory name (0 ∷ 0 ∷ []) flash-Ready first_block (last_block ∷ [])
      0 name-NoNul refl (omega arith) held (λ a hit. absurd (none-ne-some a (unknown ∙ hit)))

create_kv_blob-Appended_example :
    (db' : FdbKvdb) × (m' : ℕ → ℕ) × (create_kv_blob first_sector (67 ∷ 68 ∷ []) (9 ∷ []) db
      ≡ some ((no_err, first_sector), db'))
    × Ready db'.flash m'
    × Appended memory m' 0 0 (item ∷ []) (new_item (67 ∷ 68 ∷ []) (9 ∷ []))
unfolding items_len
create_kv_blob-Appended_example =
    create_kv_blob-Appended db flash-Ready first_sector (67 ∷ 68 ∷ []) (9 ∷ []) (item ∷ [])
      (omega arith) (omega arith) (omega arith) (omega arith) (omega arith) refl filled.items_at

del_kv_at-ItemsAt_example :
    (db' : FdbKvdb) × (m' : ℕ → ℕ) × (del_kv_at name (kv_of 16 item) true db ≡ some (no_err, db'))
    × Ready db'.flash m'
    × ItemsAt m' 0 16 (with_status item (deleted_status true) ∷ [])
    × ((x : ℕ) → x ≢ 16 → x ≢ 1 → m' x ≡ memory x)
unfolding items_len fdb_align_down
del_kv_at-ItemsAt_example =
    del_kv_at-ItemsAt db flash-Ready name (kv_of 16 item) true [] item [] (omega arith) refl
      filled.items_at
