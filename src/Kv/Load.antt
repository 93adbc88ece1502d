-- ===== src/Kv/Load.antt =====
-- Start-up, recovery and control of the key-value database: FlashDB/src/fdb_kvdb.c.
use flashdb_ko.Prelude.{
  ℕ, zero, suc, ◌+◌, ◌/◌, List, [], ◌∷◌, Bool, true, false, not, ◌&&◌, ◌||◌, ◌==◌, ltb,
  if◌then◌else◌, replicate, take, map,
}
use flashdb_ko.Prelude.Words.{failed_addr}
use flashdb_ko.Storage.{FdbErr, no_err, read_err, is_ok}
use flashdb_ko.Kv.Types.{
  FdbKv, KvdbSecInfo, FdbDefaultKvNode, KvCacheNode, blank_kv, blank_sector, store_unused,
  store_empty, store_using, store_full, dirty_gc, fdb_kv_status_num, fdb_kv_pre_write, fdb_kv_write,
  fdb_kv_pre_delete, fdb_kv_err_hdr, fdb_sector_cache_table_size, sector_not_combined,
}
use flashdb_ko.Kv.State.{M, ◌>>=◌, ◌>>◌, pure, get_db, update_db, out_of_fuel, write_status}
use flashdb_ko.Kv.Iterate.{kv_iterator, sector_iterator}
use flashdb_ko.Kv.Find.{note_kv}
use flashdb_ko.Kv.Write.{format_sector}
use flashdb_ko.Kv.Gc.{c_string, move_kv, gc_collect}
use flashdb_ko.Kv.Create.{create_kv_blob}

-- The sectors of the database, by their addresses from `addr` on, are formatted until one fails;
-- `left` is the number of sectors still to come.
unfoldable pub format_all : ℕ → ℕ → M FdbErr
format_all zero addr = pure no_err
format_all (suc left) addr = format_sector addr sector_not_combined >>= λ result.
    elim (is_ok result) [
      | false ↦ pure result
      | true ↦ get_db >>= λ db. format_all left (addr + db.sec_size)
    ]

-- The default KVs are created in order; the results are not looked at.
unfoldable pub create_defaults : List FdbDefaultKvNode → KvdbSecInfo → M (Unit {0})
create_defaults [] sector = pure tt
create_defaults (n ∷ kvs) sector =
    let value = if n.value_len == 0 then c_string n.value else take n.value_len n.value in
    create_kv_blob (record sector { empty_kv = failed_addr }) n.key value >>= λ r.
    create_defaults kvs r.1

-- `fdb_kv_set_default`
unfoldable pub fdb_kv_set_default : M FdbErr
unfolding format_all create_defaults
fdb_kv_set_default = do
  update_db (λ d. record d {
    kv_cache_table = map (λ (n : KvCacheNode). record n { addr = failed_addr }) d.kv_cache_table;
  })
  db ← get_db
  result ← format_all (db.max_size / db.sec_size) 0
  (if is_ok result then create_defaults db.default_kvs blank_sector else pure tt)
  update_db (λ d. record d { oldest_addr = 0 })
  pure result

-- `check_oldest_addr_cb`, with the oldest address and the store status of the sector before.
unfoldable pub check_oldest_addr_cb : KvdbSecInfo → ℕ × ℕ → M (Bool × (ℕ × ℕ))
check_oldest_addr_cb sector (oldest_addr, last_status) = pure (
  false,
  (
    if last_status == store_empty && (sector.store == store_full || sector.store == store_using)
        then sector.addr
        else oldest_addr,
    sector.store,
  ),
)

-- `check_sec_hdr_cb`, with the count of failed headers
unfoldable pub check_sec_hdr_cb : KvdbSecInfo → ℕ → M (Bool × ℕ)
check_sec_hdr_cb sector failed_count = do
  db ← get_db
  if sector.check_ok
      then pure (false, failed_count)
      else if db.not_formatable
      then pure (true, failed_count + 1)
      else (format_sector sector.addr sector_not_combined >> pure (false, failed_count + 1))

-- `check_and_recovery_gc_cb`
unfoldable pub check_and_recovery_gc_cb : KvdbSecInfo → Unit {0} → M (Bool × Unit {0})
check_and_recovery_gc_cb sector arg =
    if sector.check_ok && sector.dirty == dirty_gc
    then (update_db (λ d. record d { gc_request = true }) >> gc_collect >> pure (false, tt))
    else pure (false, tt)

-- `check_and_recovery_kv_cb`
unfoldable pub check_and_recovery_kv_cb : FdbKv → Unit {0} → M (Bool × Unit {0})
check_and_recovery_kv_cb kv arg =
    if kv.crc_is_ok && kv.status == fdb_kv_pre_delete
    then (move_kv kv >>= λ result. pure (not (is_ok result), tt))
    else if kv.status == fdb_kv_pre_write
    then (write_status kv.start fdb_kv_status_num fdb_kv_err_hdr >> pure (true, tt))
    else if kv.crc_is_ok && kv.status == fdb_kv_write
    then (note_kv (take kv.name_len kv.name) kv.start >> pure (false, tt))
    else pure (false, tt)

-- The loop from `__retry` on; `none` where the fuel, one unit for each retry, is used up.
unfoldable pub recover_kvs : ℕ → M (Unit {0})
recover_kvs zero = out_of_fuel
recover_kvs (suc fuel) = kv_iterator check_and_recovery_kv_cb blank_kv tt >>= λ _. get_db >>= λ db.
    elim db.gc_request [ false ↦ pure tt | true ↦ gc_collect >>= λ _. recover_kvs fuel ]

-- `_fdb_kv_load`, with the fuel of its retry loop.
unfoldable pub fdb_kv_load : ℕ → M FdbErr
unfolding check_sec_hdr_cb check_and_recovery_gc_cb check_and_recovery_kv_cb recover_kvs
fdb_kv_load fuel = do
  update_db (λ d. record d { in_recovery_check = true })
  (failed_count, sector) ← sector_iterator blank_sector store_unused 0 check_sec_hdr_cb false
  db ← get_db
  if db.not_formatable && ltb 0 failed_count then pure read_err else (do
    (if failed_count == db.max_size / db.sec_size then (fdb_kv_set_default >> pure tt) else pure tt)
    sector_iterator sector store_unused tt check_and_recovery_gc_cb false
    recover_kvs fuel
    update_db (λ d. record d { in_recovery_check = false })
    pure no_err)

-- The caches as `fdb_kvdb_init` leaves them.
abbrev pub empty_sector_cache : List KvdbSecInfo
empty_sector_cache =
    replicate fdb_sector_cache_table_size
      (record blank_sector { empty_kv = failed_addr; addr = failed_addr })

-- `fdb_kvdb_init` behind `_fdb_init_ex`, whose error is `result`; the callers' lock is no state.
unfoldable pub fdb_kvdb_init : ℕ → FdbErr → List FdbDefaultKvNode → M FdbErr
unfolding check_oldest_addr_cb fdb_kv_load
fdb_kvdb_init fuel result default_kv =
    if is_ok result
    then (do
      update_db (λ d. record d {
        gc_request = false;
        in_recovery_check = false;
        default_kvs = default_kv;
        oldest_addr = 0;
      })
      (oldest, sector) ←
          sector_iterator blank_sector store_unused (0, store_unused) check_oldest_addr_cb false
      update_db (λ d. record d {
        oldest_addr = oldest.0;
        sector_cache_table = empty_sector_cache;
        kv_cache_table =
            map (λ (n : KvCacheNode). record n { addr = failed_addr }) d.kv_cache_table;
      })
      loaded ← fdb_kv_load fuel
      (if is_ok loaded then update_db (λ d. record d { init_ok = true }) else pure tt)
      pure loaded)
    else pure result

-- `fdb_kvdb_deinit`
unfoldable pub fdb_kvdb_deinit : M FdbErr
fdb_kvdb_deinit = update_db (λ d. record d { init_ok = false }) >> pure no_err
