-- ===== src/Kv/Alloc.antt =====
-- Room for a new KV, and deleting one: FlashDB/src/fdb_kvdb.c.
use flashdb_ko.Prelude.{
  ℕ, ◌+◌, List, Option, none, some, Bool, true, false, not, ◌&&◌, ◌||◌, ◌==◌, ltb, if◌then◌else◌,
  take,
}
use flashdb_ko.Prelude.Words.{add32, failed_addr, fdb_align_down}
use flashdb_ko.Storage.{FdbErr, no_err, kv_name_err, is_ok}
use flashdb_ko.Kv.Types.{
  FdbKv, KvdbSecInfo, blank_kv, store_unused, store_empty, store_using, dirty_false, dirty_true,
  dirty_status_num, sector_dirty_offset, fdb_sec_remain_threshold, fdb_gc_empty_sec_threshold,
  fdb_kv_status_num, fdb_kv_pre_delete, fdb_kv_deleted,
}
use flashdb_ko.Kv.State.{M, ◌>>=◌, ◌>>◌, pure, get_db, update_db, write_status, read_status}
use flashdb_ko.Kv.SectorCache.{change_cached}
use flashdb_ko.Kv.Iterate.{sector_iterator}
use flashdb_ko.Kv.Find.{find_kv, note_kv}

-- `sector_statistics_cb`, with the numbers of empty sectors and of those in use.
unfoldable pub sector_statistics_cb : KvdbSecInfo → ℕ × ℕ → M (Bool × (ℕ × ℕ))
sector_statistics_cb sector (empty_sector, using_sector) = pure (
  false,
  (if sector.check_ok && sector.store == store_empty
      then (empty_sector + 1, using_sector)
      else if sector.check_ok && sector.store == store_using
      then (empty_sector, using_sector + 1)
      else (empty_sector, using_sector)),
)

-- The sector takes a KV of that size.
unfoldable pub has_room : Bool → ℕ → KvdbSecInfo → Bool
has_room gc_request kv_size sector =
    sector.check_ok
    && (ltb (add32 kv_size fdb_sec_remain_threshold) sector.remain
        && (sector.dirty == dirty_false || sector.dirty == dirty_true && not gc_request))

-- `alloc_kv_cb`, with the address that the caller has
unfoldable pub alloc_kv_cb : ℕ → KvdbSecInfo → ℕ → M (Bool × ℕ)
unfolding has_room
alloc_kv_cb kv_size sector empty_kv = do
  db ← get_db
  if has_room db.gc_request kv_size sector
      then pure (true, sector.empty_kv)
      else pure (false, empty_kv)

-- `alloc_kv`: the address or FAILED_ADDR, and the caller's sector structure after the call.
unfoldable pub alloc_kv : KvdbSecInfo → ℕ → M (ℕ × KvdbSecInfo)
unfolding sector_iterator sector_statistics_cb alloc_kv_cb
alloc_kv sector kv_size = do
  (counts, sector1) ← sector_iterator sector store_unused (0, 0) sector_statistics_cb false
  (addr, sector2) ←
      (if ltb 0 counts.1
        then sector_iterator sector1 store_using failed_addr (alloc_kv_cb kv_size) true
        else pure (failed_addr, sector1))
  db ← get_db
  if ltb 0 counts.0 && addr == failed_addr
      then (if ltb fdb_gc_empty_sec_threshold counts.0 || db.gc_request
          then sector_iterator sector2 store_empty addr (alloc_kv_cb kv_size) true
          else (update_db (λ d. record d { gc_request = true }) >> pure (addr, sector2)))
      else pure (addr, sector2)

-- The end of `del_kv`: the sector of the KV is marked dirty.
unfoldable pub mark_dirty : ℕ → M FdbErr
mark_dirty kv_start = do
  db ← get_db
  let sec_addr = fdb_align_down kv_start db.sec_size
  dirty ← read_status (add32 sec_addr sector_dirty_offset) dirty_status_num
  if dirty == dirty_false
      then (do
        result ← write_status (add32 sec_addr sector_dirty_offset) dirty_status_num dirty_true
        update_db (λ d. record d {
          sector_cache_table =
              change_cached d.sector_cache_table sec_addr (λ c. record c { dirty = dirty_true });
        })
        pure result)
      else pure no_err

-- `del_kv` with the KV at hand; the key is the one for the cache.
unfoldable pub del_kv_at : List ℕ → FdbKv → Bool → M FdbErr
unfolding mark_dirty
del_kv_at key old_kv complete_del = do
  result ←
      write_status old_kv.start fdb_kv_status_num
        (if complete_del then fdb_kv_deleted else fdb_kv_pre_delete)
  db ← get_db
  (if complete_del && (not db.last_is_complete_del && is_ok result)
      then note_kv key failed_addr
      else pure tt)
  update_db (λ d. record d { last_is_complete_del = not complete_del })
  if is_ok result then mark_dirty old_kv.start else pure result

-- `del_kv`: `none` for a missing key or a missing KV. A call has one of them at least, and where
-- the key is missing the KV's name serves for the cache.
unfoldable pub del_kv : Option (List ℕ) → Option FdbKv → Bool → M FdbErr
unfolding del_kv_at
del_kv (some key) none complete_del = do
  (found, kv) ← find_kv key blank_kv
  if found then del_kv_at key kv complete_del else pure kv_name_err
del_kv (some key) (some old_kv) complete_del = del_kv_at key old_kv complete_del
del_kv none (some old_kv) complete_del =
    del_kv_at (take old_kv.name_len old_kv.name) old_kv complete_del
del_kv none none complete_del = pure kv_name_err
