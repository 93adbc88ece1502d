-- ===== src/Kv/Write.antt =====
-- Writing headers, data and sectors: FlashDB/src/fdb_kvdb.c.
use flashdb_ko.Prelude.{
  ℕ, List, ◌++◌, Bool, true, false, ◌&&◌, ◌||◌, ◌==◌, ltb, if◌then◌else◌, length, take, drop,
  replicate,
}
use flashdb_ko.Prelude.Words.{add32, sub32, failed_addr, wg_align_down}
use flashdb_ko.Bytes.{le32}
use flashdb_ko.Storage.{FdbErr, no_err, is_ok}
use flashdb_ko.Status.{fdb_set_status}
use flashdb_ko.Kv.Types.{
  KvdbSecInfo, KvHdrData, kv_hdr_tail_bytes, blank_sector, fdb_kv_pre_write, fdb_kv_status_num,
  kv_magic_offset, store_empty, store_using, store_full, store_status_num, dirty_false,
  dirty_status_num, sector_magic_word, fdb_sec_remain_threshold,
}
use flashdb_ko.Kv.State.{
  M, ◌>>=◌, ◌>>◌, pure, get_db, update_db, assert_aligned, write_flash, erase_flash, write_status,
}
use flashdb_ko.Kv.SectorCache.{update_sector_cache, update_sector_status_store_cache}

-- `write_kv_hdr`
unfoldable pub write_kv_hdr : ℕ → KvHdrData → M FdbErr
write_kv_hdr addr hdr = do
  result ← write_status addr fdb_kv_status_num fdb_kv_pre_write
  if is_ok result
      then write_flash (add32 addr kv_magic_offset) (kv_hdr_tail_bytes hdr)
      else pure result

-- `align_write`: the data, and what is left over behind the last whole unit, filled up with 0xFF.
unfoldable pub align_write : ℕ → List ℕ → M FdbErr
align_write addr buf = do
  let size = length buf
  let down = wg_align_down size
  let align_remain = sub32 size down
  result ← write_flash addr (take down buf)
  if is_ok result && ltb 0 align_remain
      then write_flash (add32 addr down) (take 1 (drop down buf ++ replicate 1 0xff))
      else pure result

-- The header that `format_sector` writes.
unfoldable pub fresh_sector_hdr : ℕ → List ℕ
unfolding fdb_set_status le32
fresh_sector_hdr combined_value =
    (fdb_set_status store_status_num store_empty).1
    ++ ((fdb_set_status dirty_status_num dirty_false).1
        ++ (replicate 2 0xff
            ++ (le32 sector_magic_word ++ (le32 combined_value ++ le32 failed_addr))))

-- `format_sector`
unfoldable pub format_sector : ℕ → ℕ → M FdbErr
unfolding fresh_sector_hdr
format_sector addr combined_value = assert_aligned addr (do
  db ← get_db
  result ← erase_flash addr db.sec_size
  if is_ok result
      then (do
        result' ← write_flash addr (fresh_sector_hdr combined_value)
        let gone = record blank_sector { addr = addr; empty_kv = failed_addr }
        update_db
            (λ d. record d { sector_cache_table = update_sector_cache d.sector_cache_table gone })
        pure result')
      else pure result)

-- `update_sec_status`: the error, and whether the sector is full, as the caller's flag has it.
unfoldable pub update_sec_status : KvdbSecInfo → ℕ → Bool → M (FdbErr × Bool)
update_sec_status sector new_kv_len is_full =
    if sector.store == store_empty
    then (do
      result ← write_status sector.addr store_status_num store_using
      update_db (λ d. record d {
        sector_cache_table =
            update_sector_status_store_cache d.sector_cache_table sector.addr store_using;
      })
      pure (result, is_full))
    else if sector.store == store_using
    then (if ltb sector.remain fdb_sec_remain_threshold
          || ltb (sub32 sector.remain new_kv_len) fdb_sec_remain_threshold
        then (do
          result ← write_status sector.addr store_status_num store_full
          update_db (λ d. record d {
            sector_cache_table =
                update_sector_status_store_cache d.sector_cache_table sector.addr store_full;
          })
          pure (result, true))
        else pure (no_err, false))
    else pure (no_err, is_full)
