-- ===== src/Kv/Gc.antt =====
-- Moving a KV and collecting sectors: FlashDB/src/fdb_kvdb.c.
use flashdb_ko.Prelude.{
  ℕ, zero, suc, ◌+◌, List, [], ◌∷◌, ◌++◌, none, some, Bool, true, false, ◌&&◌, ◌||◌, ◌==◌, ltb, leb,
  if◌then◌else◌, take, drop, replicate,
}
use flashdb_ko.Prelude.Words.{add32, sub32, failed_addr, fdb_align_down, wg_align}
use flashdb_ko.Storage.{FdbErr, no_err, saved_full, flash_read}
use flashdb_ko.Kv.Types.{
  FdbKv, KvdbSecInfo, blank_kv, blank_sector, store_unused, store_empty, dirty_true, dirty_gc,
  dirty_status_num, sector_dirty_offset, fdb_gc_empty_sec_threshold, fdb_kv_status_num,
  fdb_kv_pre_write, fdb_kv_write, fdb_kv_pre_delete, kv_magic_offset, kv_hdr_data_size,
  sector_hdr_data_size, sector_not_combined,
}
use flashdb_ko.Kv.State.{
  M, ◌>>=◌, ◌>>◌, pure, get_db, update_db, out_of_fuel, lift, write_flash, write_status,
}
use flashdb_ko.Kv.SectorCache.{update_sector_empty_addr_cache}
use flashdb_ko.Kv.Walk.{get_next_kv_addr, get_next_sector_addr}
use flashdb_ko.Kv.Read.{read_kv}
use flashdb_ko.Kv.Iterate.{sector_iterator}
use flashdb_ko.Kv.Find.{find_kv_no_cache, note_kv}
use flashdb_ko.Kv.Write.{format_sector, update_sec_status}
use flashdb_ko.Kv.Alloc.{alloc_kv, del_kv}

-- The copy loop of `move_kv` at `len`: 32 bytes a round through `buf`; it returns the error of the
-- last write.
unfoldable pub copy_loop : ℕ → ℕ → ℕ → ℕ → ℕ → List ℕ → FdbErr → M FdbErr
copy_loop from to kv_len zero len buf result = out_of_fuel
copy_loop from to kv_len (suc fuel) len buf result = elim (ltb len kv_len) [
  | false ↦ pure result
  | true ↦
      let size = if ltb (add32 len 32) kv_len then 32 else sub32 kv_len len in
      get_db >>= λ db.
      let part = (flash_read db.flash (add32 from len) (take (wg_align size) buf)).1 in
      write_flash (add32 to len) (take size part) >>= λ err.
      copy_loop from to kv_len fuel (add32 len size) (part ++ drop (wg_align size) buf) err
]

-- A C string: the bytes in front of the first NUL.
unfoldable pub c_string : List ℕ → List ℕ
c_string [] = []
c_string (b ∷ bs) = if b == 0 then [] else b ∷ c_string bs

-- `move_kv` behind the allocation at `kv_addr`: the copy.
unfoldable pub copy_kv : FdbKv → ℕ → KvdbSecInfo → M FdbErr
unfolding copy_loop
copy_kv kv kv_addr sector = do
  update_sec_status sector kv.len false
  write_status kv_addr fdb_kv_status_num fdb_kv_pre_write
  db ← get_db
  let kv_len = sub32 kv.len kv_magic_offset
  result ←
      copy_loop (add32 kv.start kv_magic_offset) (add32 kv_addr kv_magic_offset) kv_len (suc kv_len)
        0 (replicate 32 db.flash.junk) no_err
  write_status kv_addr fdb_kv_status_num fdb_kv_write
  let behind =
      add32 (add32 (add32 kv_addr kv_hdr_data_size) (wg_align kv.name_len)) (wg_align kv.value_len)
  update_db (λ d. record d {
    sector_cache_table =
        update_sector_empty_addr_cache d.sector_cache_table d.sec_size
          (fdb_align_down kv_addr d.sec_size) behind;
  })
  note_kv (take kv.name_len kv.name) kv_addr
  pure result

-- `move_kv`
unfoldable pub move_kv : FdbKv → M FdbErr
unfolding copy_kv c_string
move_kv kv = do
  (if kv.status == fdb_kv_write then del_kv none (some kv) false else pure no_err)
  (kv_addr, sector) ← alloc_kv blank_sector kv.len
  db ← get_db
  if kv_addr == failed_addr then pure saved_full else (do
    there ←
        (if db.in_recovery_check && kv.status == fdb_kv_pre_delete
          then (find_kv_no_cache (c_string (take kv.name_len kv.name)) blank_kv >>= λ r. pure r.0)
          else pure false)
    result ← (if there then pure no_err else copy_kv kv kv_addr sector)
    del_kv none (some kv) true
    pure result)

-- `gc_check_cb`
unfoldable pub gc_check_cb : KvdbSecInfo → ℕ → M (Bool × ℕ)
gc_check_cb sector empty_sec = pure (false, if sector.check_ok then empty_sec + 1 else empty_sec)

-- The loop of `do_gc` over the KVs of the sector.
unfoldable pub move_kvs : ℕ → KvdbSecInfo → FdbKv → M (Unit {0})
move_kvs zero sector kv = out_of_fuel
move_kvs (suc fuel) sector kv = read_kv kv >>= λ r.
    (if r.1.crc_is_ok && (r.1.status == fdb_kv_write || r.1.status == fdb_kv_pre_delete)
      then move_kv r.1
      else pure no_err)
    >>= λ _. get_db >>= λ db. lift (get_next_kv_addr db sector r.1) >>= λ next.
        elim (next == failed_addr) [
          | true ↦ pure tt
          | false ↦ move_kvs fuel sector (record r.1 { start = next })
        ]

-- `do_gc`, with `cur_free_size`
unfoldable pub do_gc : ℕ → KvdbSecInfo → ℕ → M (Bool × ℕ)
unfolding move_kvs
do_gc setting_free_size sector cur_free_size =
    if sector.check_ok && (sector.dirty == dirty_true || sector.dirty == dirty_gc)
    then (do
      write_status (add32 sector.addr sector_dirty_offset) dirty_status_num dirty_gc
      db ← get_db
      move_kvs (suc db.sec_size) sector
          (record blank_kv { start = add32 sector.addr sector_hdr_data_size })
      format_sector sector.addr sector_not_combined
      let free = add32 cur_free_size (sub32 db.sec_size sector_hdr_data_size)
      update_db
          (λ d. record d { oldest_addr = get_next_sector_addr d.sec_size d.max_size sector 0 })
      pure (leb setting_free_size free, free))
    else pure (false, cur_free_size)

-- `gc_collect_by_free_size`
unfoldable pub gc_collect_by_free_size : ℕ → M (Unit {0})
unfolding gc_check_cb do_gc
gc_collect_by_free_size free_size = do
  (empty_sec, sector) ← sector_iterator blank_sector store_empty 0 gc_check_cb false
  (if leb empty_sec fdb_gc_empty_sec_threshold
      then (sector_iterator sector store_unused 0 (do_gc free_size) false >> pure tt)
      else pure tt)
  update_db (λ d. record d { gc_request = false })

-- `gc_collect`
unfoldable pub gc_collect : M (Unit {0})
unfolding gc_collect_by_free_size
gc_collect = do db ← get_db; gc_collect_by_free_size db.max_size
