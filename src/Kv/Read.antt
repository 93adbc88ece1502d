-- ===== src/Kv/Read.antt =====
-- `read_kv` and `read_sector_info` of FlashDB/src/fdb_kvdb.c.
pub mod CrcLoop
pub mod Total
use flashdb_ko.Prelude.{
  ℕ, zero, suc, ◌-◌, List, ◌∷◌, ◌++◌, Option, none, some, Bool, true, false, not, ◌&&◌, ◌||◌, ◌==◌,
  ltb, if◌then◌else◌, take, drop, replicate,
}
use flashdb_ko.Prelude.Words.{add32, sub32, failed_addr, wg_align}
use flashdb_ko.Bytes.{word_at}
use flashdb_ko.Crc.{fdb_calc_crc32}
use flashdb_ko.Storage.{Flash, FdbErr, no_err, read_err, init_failed, flash_read}
use flashdb_ko.Status.{fdb_get_status}
use flashdb_ko.ErasedTail.{fdb_continue_ff_addr}
use flashdb_ko.Kv.Types.{
  FdbKv, KvdbSecInfo, KvHdrData, kv_hdr_of_bytes, name_len_bytes, value_len_bytes, blank_kv,
  fdb_kv_pre_write, fdb_kv_err_hdr, fdb_kv_status_num, fdb_kv_name_max, kv_hdr_data_size,
  sector_hdr_data_size, sector_magic_word, sector_not_combined, sector_combined, store_unused,
  store_empty, store_using, store_status_num, dirty_unused, dirty_status_num,
}
use flashdb_ko.Kv.State.{
  M, ◌>>=◌, ◌>>◌, pure, get_db, update_db, out_of_fuel, assert_aligned, lift, fetch, write_status,
}
use flashdb_ko.Kv.SectorCache.{get_sector_from_cache, update_sector_cache}
use flashdb_ko.Kv.Walk.{get_next_kv_addr}

-- The CRC loop of `read_kv`: the `data_len` bytes from `addr` on, 32 bytes a round into `buf`;
-- `none` where the fuel, one unit for each round, is used up.
unfoldable pub crc_loop : Flash → ℕ → ℕ → ℕ → ℕ → List ℕ → ℕ → Option ℕ
crc_loop fl addr data_len zero len buf crc = none
crc_loop fl addr data_len (suc fuel) len buf crc = elim (ltb len data_len) [
  | false ↦ some crc
  | true ↦
      let size = if ltb (add32 len 32) data_len then 32 else sub32 data_len len in
      let part = (flash_read fl (add32 addr len) (take (wg_align size) buf)).1 in
      crc_loop fl addr data_len fuel (add32 len size) (part ++ drop (wg_align size) buf)
        (fdb_calc_crc32 crc (take size part))
]

-- `kv->name[k] = '\0'` on the bytes read into the array.
unfoldable pub terminate : ℕ → List ℕ → List ℕ
terminate k name = take k name ++ (0 ∷ drop (suc k) name)

-- The length in the header is one that no KV has.
unfoldable pub len_is_bad : ℕ → ℕ → Bool
len_is_bad max_size len = len == 0xffff_ffff || (ltb max_size len || ltb len kv_hdr_data_size)

-- The CRC32 of the header's two lengths, from which the loop goes on.
unfoldable pub hdr_crc : KvHdrData → ℕ
hdr_crc hdr = fdb_calc_crc32 (fdb_calc_crc32 0 (name_len_bytes hdr)) (value_len_bytes hdr)

-- `read_kv` behind the check of the length.
unfoldable pub read_kv_body : KvHdrData → FdbKv → M (FdbErr × FdbKv)
read_kv_body hdr kv = do
  db ← get_db
  let crc_data_len = sub32 hdr.len kv_hdr_data_size
  let body = add32 kv.start kv_hdr_data_size
  calc_crc32 ← lift (
      crc_loop db.flash body crc_data_len (suc crc_data_len) 0 (replicate 32 db.flash.junk)
        (hdr_crc hdr))
  let clipped = if ltb fdb_kv_name_max hdr.name_len then fdb_kv_name_max else hdr.name_len
  let ok = calc_crc32 == hdr.crc32
  name ← fetch body (wg_align (if ok then hdr.name_len else clipped))
  pure (
      if ok
      then (
        no_err,
        record kv {
          crc_is_ok = true;
          value = add32 body (wg_align hdr.name_len);
          value_len = hdr.value_len;
          name_len = hdr.name_len;
          name =
              terminate
                (if ltb hdr.name_len fdb_kv_name_max then hdr.name_len else fdb_kv_name_max - 1)
                name;
        },
      )
      else (read_err, record kv { crc_is_ok = false; name = name }))

-- `read_kv` on a KV whose `addr.start` is set: the error and the KV after the call.
unfoldable pub read_kv : FdbKv → M (FdbErr × FdbKv)
read_kv kv = do
  db ← get_db
  raw ← fetch kv.start kv_hdr_data_size
  let hdr = kv_hdr_of_bytes raw
  let status = fdb_get_status hdr.status_table fdb_kv_status_num
  let bad = record kv { status = fdb_kv_err_hdr; len = kv_hdr_data_size; crc_is_ok = false }
  if len_is_bad db.max_size hdr.len
      then (if status == fdb_kv_err_hdr
          then pure (read_err, bad)
          else (write_status kv.start fdb_kv_status_num fdb_kv_err_hdr >>= λ _.
              pure (read_err, bad)))
      else read_kv_body hdr (record kv { status = status; len = hdr.len })

-- The traversal in `read_sector_info` of a sector in use. The error tells that a KV broke it off.
unfoldable pub traverse_kvs : ℕ → FdbKv → KvdbSecInfo → M (FdbErr × KvdbSecInfo)
traverse_kvs zero kv_obj sector = out_of_fuel
traverse_kvs (suc fuel) kv_obj sector = read_kv kv_obj >>= λ r.
    let kv = r.1 in
    let sector' = record sector {
      empty_kv = add32 sector.empty_kv kv.len;
      remain = sub32 sector.remain kv.len;
    } in
    let stop =
      not kv.crc_is_ok
      && (not (kv.status == fdb_kv_pre_write) && not (kv.status == fdb_kv_err_hdr)) in
    elim stop [
      | true ↦ pure (read_err, record sector { remain = 0 })
      | false ↦ get_db >>= λ db. lift (get_next_kv_addr db sector kv) >>= λ next.
          elim (next == failed_addr) [
            | true ↦ pure (no_err, sector')
            | false ↦ traverse_kvs fuel (record kv { start = next }) sector'
          ]
    ]

-- `read_sector_info` behind the header check, with `traversal`.
unfoldable pub traverse_sector : KvdbSecInfo → M (FdbErr × KvdbSecInfo)
unfolding traverse_kvs
traverse_sector sector = do
  db ← get_db
  let room = sub32 db.sec_size sector_hdr_data_size
  let first = add32 sector.addr sector_hdr_data_size
  let fresh = record sector {
    remain = if sector.store == store_empty || sector.store == store_using then room else 0;
    empty_kv = first;
  }
  (result, found) ←
      (if sector.store == store_using
        then traverse_kvs (suc db.sec_size) (record blank_kv { start = first }) fresh
        else pure (no_err, fresh))
  db' ← get_db
  ff_addr ← lift (
      if sector.store == store_using
      then fdb_continue_ff_addr db'.flash found.empty_kv (add32 sector.addr db.sec_size)
      else some found.empty_kv)
  let clean = record found {
    empty_kv = ff_addr;
    remain = sub32 db.sec_size (sub32 ff_addr sector.addr);
  }
  let done = if found.empty_kv == ff_addr then found else clean
  update_db (λ d. record d { sector_cache_table = update_sector_cache d.sector_cache_table done })
  pure (result, done)

-- `read_sector_info` behind the header check, without `traversal`.
unfoldable pub note_sector : KvdbSecInfo → M (FdbErr × KvdbSecInfo)
note_sector sector = do
  db ← get_db
  let fresh = record sector { empty_kv = failed_addr; remain = 0 }
  elim (get_sector_from_cache db.sector_cache_table sector.addr) [
    | some c ↦ pure (no_err, sector)
    | none ↦
        update_db
          (λ d. record d { sector_cache_table = update_sector_cache d.sector_cache_table fresh })
        >> pure (no_err, fresh)
  ]

-- `read_sector_info` on the flash; `old` is what the caller's structure holds before the call.
unfoldable pub load_sector : ℕ → KvdbSecInfo → Bool → M (FdbErr × KvdbSecInfo)
unfolding traverse_sector note_sector
load_sector addr old traversal = do
  raw ← fetch addr sector_hdr_data_size
  let magic = word_at raw 4
  let combined = word_at raw 8
  let unknown = record old {
    store = store_unused;
    dirty = dirty_unused;
    addr = addr;
    magic = magic;
  }
  let sector = record unknown {
    check_ok = true;
    combined = combined;
    store = fdb_get_status (take 1 raw) store_status_num;
    dirty = fdb_get_status (take 1 (drop 1 raw)) dirty_status_num;
  }
  if not (magic == sector_magic_word)
        || not (combined == sector_not_combined) && not (combined == sector_combined)
      then pure (init_failed, record unknown { check_ok = false; combined = sector_not_combined })
      else if traversal
      then traverse_sector sector
      else note_sector sector

-- `read_sector_info`
unfoldable pub read_sector_info : ℕ → KvdbSecInfo → Bool → M (FdbErr × KvdbSecInfo)
unfolding load_sector
read_sector_info addr old traversal = assert_aligned addr (do
  db ← get_db
  elim (get_sector_from_cache db.sector_cache_table addr) [
    | none ↦ load_sector addr old traversal
    | some c ↦
        if not traversal || not (c.empty_kv == failed_addr)
        then pure (no_err, c)
        else load_sector addr old traversal
  ])
