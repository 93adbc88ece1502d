-- ===== src/Kv/SectorCache.antt =====
-- The sector cache of FlashDB/src/fdb_kvdb.c, on the cache table.
pub mod Laws
use flashdb_ko.Prelude.{
  ℕ, ◌+◌, List, [], ◌∷◌, Option, none, some, ◌&&◌, ◌==◌, ltb, if◌then◌else◌, set,
}
use flashdb_ko.Prelude.Words.{failed_addr, sub32}
use flashdb_ko.Kv.Types.{KvdbSecInfo, fdb_sector_cache_table_size}

-- `get_sector_from_cache`: the entry that the returned pointer leads to.
unfoldable pub get_sector_from_cache : List KvdbSecInfo → ℕ → Option KvdbSecInfo
get_sector_from_cache [] sec_addr = none
get_sector_from_cache (c ∷ table) sec_addr =
    if c.addr == sec_addr then some c else get_sector_from_cache table sec_addr

-- A change of the entry through that pointer.
unfoldable pub change_cached : List KvdbSecInfo → ℕ → (KvdbSecInfo → KvdbSecInfo) → List KvdbSecInfo
change_cached [] sec_addr f = []
change_cached (c ∷ table) sec_addr f =
    if c.addr == sec_addr then f c ∷ table else c ∷ change_cached table sec_addr f

-- The loop of `update_sector_cache`: the index of the entry of that address, if the loop returns
-- there, and `empty_index` as it stands then.
unfoldable pub scan_sectors : ℕ → List KvdbSecInfo → ℕ → ℕ → Option ℕ × ℕ
scan_sectors sec_addr [] i empty_index = (none, empty_index)
scan_sectors sec_addr (c ∷ table) i empty_index =
    let rest =
      scan_sectors sec_addr table (i + 1) (if c.addr == failed_addr then i else empty_index) in
    if c.addr == sec_addr then (some i, empty_index) else rest

-- `update_sector_cache`
unfoldable pub update_sector_cache : List KvdbSecInfo → KvdbSecInfo → List KvdbSecInfo
update_sector_cache table sector =
    let (hit, empty_index) = scan_sectors sector.addr table 0 fdb_sector_cache_table_size in
    elim hit [
      | some i ↦
          if sector.check_ok
          then set table i sector
          else change_cached table sector.addr (λ c. record c { addr = failed_addr })
      | none ↦
          if sector.check_ok && ltb empty_index fdb_sector_cache_table_size
          then set table empty_index sector
          else table
    ]

-- `update_sector_empty_addr_cache`
unfoldable pub update_sector_empty_addr_cache : List KvdbSecInfo → ℕ → ℕ → ℕ → List KvdbSecInfo
unfolding change_cached
update_sector_empty_addr_cache table sec_size sec_addr empty_addr =
    change_cached table sec_addr
      (λ c. record c { empty_kv = empty_addr; remain = sub32 sec_size (sub32 empty_addr c.addr) })

-- `update_sector_status_store_cache`
unfoldable pub update_sector_status_store_cache : List KvdbSecInfo → ℕ → ℕ → List KvdbSecInfo
unfolding change_cached
update_sector_status_store_cache table sec_addr status =
    change_cached table sec_addr (λ c. record c { store = status })
