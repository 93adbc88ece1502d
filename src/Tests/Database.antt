-- ===== src/Tests/Database.antt =====
-- Instances of the theorems of the key-value database, on an erased device.
use flashdb_ko.Prelude.{
  ℕ, zero, suc, ◌≡◌, refl, List, [], ◌∷◌, none, some, true, false, ◌==◌, ◌&&◌, if◌then◌else◌,
  replicate, arith,
}
use flashdb_ko.Prelude.Words.{failed_addr}
use flashdb_ko.Crc.{fdb_calc_crc32}
use flashdb_ko.Fal.{FalPartition, strn_eq}
use flashdb_ko.MemBlk
use flashdb_ko.MemBlk.{read_cells}
use flashdb_ko.Storage.{Flash, no_err, flash_fetch, flash_read}
use flashdb_ko.Storage.Laws.{Ready}
use flashdb_ko.Kv.Types.{FdbKv, FdbKvdb, KvdbSecInfo, KvCacheNode, blank_kv, blank_sector}
use flashdb_ko.Kv.SectorCache.{get_sector_from_cache, update_sector_cache}
use flashdb_ko.Kv.SectorCache.Laws.{
  Distinct, has_place, get_sector-update_sector, update_sector-Distinct,
}
use flashdb_ko.Kv.KvCache.{saved_name, update_kv_cache, get_kv_from_cache}
use flashdb_ko.Kv.KvCache.Laws.{get_kv-update_kv}
use flashdb_ko.Kv.Read.{read_kv, crc_loop}
use flashdb_ko.Kv.Read.CrcLoop.{crc_loop-range}
use flashdb_ko.Kv.Find.Written.{ValidCache}
use flashdb_ko.Kv.Create.{write_new_kv, create_kv_blob}
use flashdb_ko.Kv.Create.Served.{Serves, create_kv_blob-Serves}
use flashdb_ko.Kv.Create.Stored.{stored_kv, read_kv-create}

abbrev part : FalPartition
part = record { magic_word = 0; name = []; flash_name = []; offset = 0; len = 2048 }

-- All bytes are 255.
abbrev erased : Flash
erased = record {
  file_mode = false;
  part = part;
  dev_len = 2048;
  block = some (λ x. 255);
  junk = 0;
}

erased-Ready : Ready erased (λ x. 255)
erased-Ready = record { no_file = refl; block_is = refl; fits = omega arith }

-- A cache as `fdb_kvdb_init` leaves it, but for one sector.
abbrev unused_sector : KvdbSecInfo
unused_sector = record blank_sector { addr = failed_addr }

abbrev second_sector : KvdbSecInfo
second_sector = record blank_sector { check_ok = true; addr = 512 }

abbrev third_sector : KvdbSecInfo
third_sector = record blank_sector { check_ok = true; addr = 1024 }

abbrev sectors : List KvdbSecInfo
sectors = second_sector ∷ replicate 7 unused_sector

unused-Distinct : (n : ℕ) → Distinct (replicate n unused_sector)
unused-Distinct zero = tt
unused-Distinct (suc n) = (λ used. absurd (used refl), unused-Distinct n)

sectors-Distinct : Distinct sectors
unfolding get_sector_from_cache
sectors-Distinct = (λ used. refl, unused-Distinct 7)

abbrev node : KvCacheNode
node = record { name_crc = 5; active = 64; addr = 528 }

-- A database of four sectors.
abbrev fresh : FdbKvdb
fresh = record {
  flash = erased;
  sec_size = 512;
  max_size = 2048;
  oldest_addr = 0;
  init_ok = true;
  not_formatable = false;
  default_kvs = [];
  gc_request = false;
  in_recovery_check = false;
  cur_kv = blank_kv;
  cur_sector = blank_sector;
  last_is_complete_del = false;
  kv_cache_table = replicate 64 (record { name_crc = 0; active = 0; addr = failed_addr });
  sector_cache_table = sectors;
}

get_sector-update_sector_example :
    get_sector_from_cache (update_sector_cache sectors third_sector) 1024 ≡ (
      if 1024 == 1024
      then (if true && has_place sectors 1024 then some third_sector else none)
      else get_sector_from_cache sectors 1024)
get_sector-update_sector_example =
    get_sector-update_sector sectors third_sector sectors-Distinct refl
      (λ e. absurd (omega (arith, e))) 1024 (λ e. absurd (omega (arith, e)))

update_sector-Distinct_example : Distinct (update_sector_cache sectors third_sector)
update_sector-Distinct_example =
    update_sector-Distinct sectors third_sector sectors-Distinct refl
      (λ e. absurd (omega (arith, e)))

-- The name behind the header at the address 1024 is two bytes of 255.
erased_name : strn_eq (255 ∷ 255 ∷ []) (saved_name erased 1024) 2 ≡ true
unfolding strn_eq flash_read MemBlk.read read_cells
erased_name = refl

get_kv-update_kv_example :
    (get_kv_from_cache erased (255 ∷ 255 ∷ []) 7 (update_kv_cache (node ∷ []) 7 1024)).0 ≡ some 1024
get_kv-update_kv_example =
    get_kv-update_kv 7 1024 (node ∷ []) (omega arith, tt) (omega arith) (omega arith)
      (λ e. absurd (omega (arith, e))) erased (255 ∷ 255 ∷ []) erased_name

crc_loop-range_example :
    crc_loop erased 24 100 101 0 (replicate 32 0) 0
    ≡ some (fdb_calc_crc32 0 (read_cells (λ x. 255) 24 100))
crc_loop-range_example =
    crc_loop-range erased-Ready 24 100 (omega arith) (omega arith) (replicate 32 0) 0 refl

read_kv-create_example :
    (db' : FdbKvdb) × (write_new_kv second_sector 528 (65 ∷ 66 ∷ []) (1 ∷ 2 ∷ 3 ∷ []) false fresh
      ≡ some (no_err, db'))
    × ((kv : FdbKv)
        → kv.start ≡ 528
        → read_kv kv db' ≡ some ((no_err, stored_kv 528 (65 ∷ 66 ∷ []) (1 ∷ 2 ∷ 3 ∷ []) kv), db'))
    × (flash_fetch db'.flash 554 3 ≡ 1 ∷ 2 ∷ 3 ∷ [])
read_kv-create_example =
    read_kv-create fresh erased-Ready second_sector 528 (65 ∷ 66 ∷ []) (1 ∷ 2 ∷ 3 ∷ []) false
      (omega arith) (omega arith) (omega arith) (omega arith)

fresh-ValidCache : ValidCache fresh.kv_cache_table
fresh-ValidCache = record { counters = omega arith; some_entry = omega arith; size = omega arith }

create_kv_blob-Serves_example :
    let sector = record second_sector { empty_kv = 528 } in
    (db' : FdbKvdb) × (create_kv_blob sector (65 ∷ 66 ∷ []) (1 ∷ 2 ∷ 3 ∷ []) fresh
      ≡ some ((no_err, sector), db'))
    × Serves db' (65 ∷ 66 ∷ []) (1 ∷ 2 ∷ 3 ∷ [])
create_kv_blob-Serves_example =
    create_kv_blob-Serves fresh erased-Ready (record second_sector { empty_kv = 528 })
      (65 ∷ 66 ∷ []) (1 ∷ 2 ∷ 3 ∷ []) fresh-ValidCache refl (omega arith) (omega arith)
      (omega arith) (omega arith) (omega arith) (omega arith) (omega arith)
