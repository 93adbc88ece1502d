-- ===== src/Kv/Create.antt =====
-- Creating, setting and deleting a KV: FlashDB/src/fdb_kvdb.c.
pub mod WriteKv
pub mod RoundTrip
pub mod ReadBack
pub mod Stored
pub mod Placed
pub mod Served
pub mod Appended
use flashdb_ko.Prelude.{
  ℕ, ◌%◌, List, [], ◌∷◌, Option, none, some, Bool, true, false, not, ◌&&◌, ◌==◌, ltb, if◌then◌else◌,
  length, replicate,
}
use flashdb_ko.Prelude.Words.{u32, add32, sub32, failed_addr, wg_align}
use flashdb_ko.Crc.{fdb_calc_crc32}
use flashdb_ko.Storage.{FdbErr, no_err, kv_name_err, saved_full, init_failed, is_ok}
use flashdb_ko.Kv.Types.{
  KvdbSecInfo, KvHdrData, name_len_bytes, value_len_bytes, fdb_kv_status_num, fdb_kv_write,
  fdb_kv_name_max, kv_magic_word, kv_hdr_data_size, sector_hdr_data_size,
}
use flashdb_ko.Kv.State.{M, ◌>>=◌, ◌>>◌, pure, get_db, update_db, write_status}
use flashdb_ko.Kv.SectorCache.{update_sector_empty_addr_cache}
use flashdb_ko.Kv.Find.{find_kv, note_kv}
use flashdb_ko.Kv.Write.{write_kv_hdr, align_write, update_sec_status}
use flashdb_ko.Kv.Alloc.{alloc_kv, del_kv}
use flashdb_ko.Kv.Gc.{gc_collect_by_free_size}

-- `new_kv`: the address or FAILED_ADDR, and the caller's sector structure. The jump back to
-- `__retry` is made once at most, since `already_gc` is set on the way.
unfoldable pub new_kv : KvdbSecInfo → ℕ → M (ℕ × KvdbSecInfo)
new_kv sector kv_size = do
  (empty_kv, sector1) ← alloc_kv sector kv_size
  db ← get_db
  if empty_kv == failed_addr && db.gc_request
      then (do
        gc_collect_by_free_size kv_size
        (empty_kv2, sector2) ← alloc_kv sector1 kv_size
        (if empty_kv2 == failed_addr
            then update_db (λ d. record d { gc_request = false })
            else pure tt)
        pure (empty_kv2, sector2))
      else pure (empty_kv, sector1)

-- `new_kv_ex`
unfoldable pub new_kv_ex : KvdbSecInfo → ℕ → ℕ → M (ℕ × KvdbSecInfo)
unfolding new_kv
new_kv_ex sector key_len buf_len =
    new_kv sector (add32 (add32 kv_hdr_data_size (wg_align key_len)) (wg_align buf_len))

-- The padding that the CRC covers behind `size` bytes: as many 0xFF as alignment adds.
abbrev pub align_pad : ℕ → List ℕ
align_pad size = replicate (sub32 (wg_align size) size) 0xff

-- The header of a new KV without its CRC; the structure was filled with 0xFF before.
unfoldable pub new_kv_hdr : List ℕ → List ℕ → KvHdrData
new_kv_hdr key value = record {
  status_table = 0xff ∷ [];
  magic = kv_magic_word;
  len =
      add32 (add32 kv_hdr_data_size (wg_align (length key % 256))) (wg_align (u32 (length value)));
  crc32 = 0xffff_ffff;
  name_len = length key % 256;
  name_pad = replicate 3 0xff;
  value_len = u32 (length value);
}

-- The CRC32 that `create_kv_blob` calculates, piece by piece.
unfoldable pub new_kv_crc : List ℕ → List ℕ → ℕ
unfolding new_kv_hdr
new_kv_crc key value =
    let hdr = new_kv_hdr key value in
    let crc1 = fdb_calc_crc32 0 (name_len_bytes hdr) in
    let crc2 = fdb_calc_crc32 crc1 (value_len_bytes hdr) in
    let crc3 = fdb_calc_crc32 crc2 key in
    let crc4 = fdb_calc_crc32 crc3 (align_pad hdr.name_len) in
    let crc5 = fdb_calc_crc32 crc4 value in fdb_calc_crc32 crc5 (align_pad hdr.value_len)

-- `create_kv_blob` at the address of the KV: header, name, value and the final status, each after
-- the one before has succeeded.
unfoldable pub write_new_kv : KvdbSecInfo → ℕ → List ℕ → List ℕ → Bool → M FdbErr
write_new_kv sector kv_addr key value is_full = do
  let hdr = record (new_kv_hdr key value) { crc32 = new_kv_crc key value }
  let name_addr = add32 kv_addr kv_hdr_data_size
  let value_addr = add32 name_addr (wg_align hdr.name_len)
  let behind = add32 value_addr (wg_align hdr.value_len)
  result1 ← write_kv_hdr kv_addr hdr
  result2 ←
      (if is_ok result1
        then (do
          r ← align_write name_addr key
          (if not is_full
              then update_db (λ d. record d {
                sector_cache_table =
                    update_sector_empty_addr_cache d.sector_cache_table d.sec_size sector.addr
                      behind;
              })
              else pure tt)
          note_kv key kv_addr
          pure r)
        else pure result1)
  result3 ← (if is_ok result2 then align_write value_addr value else pure result2)
  if is_ok result3 then write_status kv_addr fdb_kv_status_num fdb_kv_write else pure result3

-- `create_kv_blob` from the update of the sector's status on.
unfoldable pub place_new_kv : KvdbSecInfo → ℕ → List ℕ → List ℕ → M FdbErr
unfolding write_new_kv
place_new_kv sector kv_addr key value = do
  (result, is_full) ← update_sec_status sector (new_kv_hdr key value).len false
  result' ← (if is_ok result then write_new_kv sector kv_addr key value is_full else pure result)
  (if is_ok result' && is_full then update_db (λ d. record d { gc_request = true }) else pure tt)
  pure result'

-- `create_kv_blob`: the error, and the caller's sector structure after the call.
unfoldable pub create_kv_blob : KvdbSecInfo → List ℕ → List ℕ → M (FdbErr × KvdbSecInfo)
unfolding place_new_kv new_kv
create_kv_blob sector key value = do
  db ← get_db
  let hdr_len = (new_kv_hdr key value).len
  if ltb fdb_kv_name_max (length key)
      then pure (kv_name_err, sector)
      else if ltb (sub32 db.sec_size sector_hdr_data_size) hdr_len
      then pure (saved_full, sector)
      else (do
        (kv_addr, sector') ←
            (if sector.empty_kv == failed_addr
              then new_kv sector hdr_len
              else pure (sector.empty_kv, sector))
        if kv_addr == failed_addr
            then pure (saved_full, sector')
            else (place_new_kv sector' kv_addr key value >>= λ r. pure (r, sector')))

-- `set_kv`; `none` for the value is NULL.
unfoldable pub set_kv : List ℕ → Option (List ℕ) → M FdbErr
unfolding create_kv_blob new_kv_ex
set_kv key none = del_kv (some key) none true
set_kv key (some value) = do
  db ← get_db
  (room, sector) ← new_kv_ex db.cur_sector (length key) (length value)
  update_db (λ d. record d { cur_sector = sector })
  if room == failed_addr then pure saved_full else (do
    db1 ← get_db
    (kv_is_found, kv) ← find_kv key db1.cur_kv
    update_db (λ d. record d { cur_kv = kv })
    result1 ← (if kv_is_found then del_kv (some key) (some kv) false else pure no_err)
    db2 ← get_db
    (result2, sector2) ←
        (if is_ok result1
          then create_kv_blob db2.cur_sector key value
          else pure (result1, db2.cur_sector))
    update_db (λ d. record d { cur_sector = sector2 })
    result3 ←
        (if kv_is_found && is_ok result2 then del_kv (some key) (some kv) true else pure result2)
    db3 ← get_db
    (if db3.gc_request
        then gc_collect_by_free_size
            (add32 (add32 kv_hdr_data_size (wg_align (length key))) (wg_align (length value)))
        else pure tt)
    pure result3)

-- `fdb_kv_set_blob`
unfoldable pub fdb_kv_set_blob : List ℕ → Option (List ℕ) → M FdbErr
unfolding set_kv
fdb_kv_set_blob key buf = do db ← get_db; if db.init_ok then set_kv key buf else pure init_failed

-- `fdb_kv_del`
unfoldable pub fdb_kv_del : List ℕ → M FdbErr
fdb_kv_del key = do
  db ← get_db
  if db.init_ok then del_kv (some key) none true else pure init_failed

-- `fdb_kv_set`
unfoldable pub fdb_kv_set : List ℕ → Option (List ℕ) → M FdbErr
unfolding fdb_kv_set_blob fdb_kv_del
fdb_kv_set key none = fdb_kv_del key
fdb_kv_set key (some value) = fdb_kv_set_blob key (some value)
