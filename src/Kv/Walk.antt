-- ===== src/Kv/Walk.antt =====
-- Addresses in FlashDB/src/fdb_kvdb.c: the next KV in a sector, and the next sector.
use flashdb_ko.Prelude.{
  ℕ, zero, suc, ◌+◌, ◌*◌, List, Option, none, some, Bool, true, false, ◌&&◌, ◌||◌, ◌==◌, ltb, leb,
  if◌then◌else◌,
}
use flashdb_ko.Prelude.Words.{add32, sub32, u32, failed_addr, fdb_align_down, wg_align}
use flashdb_ko.Bytes.{word_at}
use flashdb_ko.Storage.{Flash, is_ok, flash_read}
use flashdb_ko.Kv.Types.{
  FdbKv, KvdbSecInfo, FdbKvdb, kv_magic_word, kv_magic_offset, sector_hdr_data_size, store_empty,
  sector_not_combined,
}
use flashdb_ko.Kv.SectorCache.{get_sector_from_cache}
use flashdb_ko.Prelude.{replicate}

-- The inner loop of `find_next_kv_addr` at index `i`, with `left` values of `i` to come: the
-- address that it returns, if it does.
unfoldable pub scan_window : List ℕ → ℕ → ℕ → ℕ → ℕ → ℕ → Option ℕ
scan_window buf start end start_bak zero i = none
scan_window buf start end start_bak (suc left) i =
    let rest = scan_window buf start end start_bak left (i + 1) in
    let kv_addr = sub32 (add32 start i) kv_magic_offset in
    if ltb (add32 start i) end
    then if word_at buf i == kv_magic_word && leb start_bak kv_addr then some kv_addr else rest
    else none

-- Its outer loop; `none` where the fuel, one unit for each round, is used up. `buf` is the local
-- buffer, which each round reads anew as a whole.
unfoldable pub scan_windows : Flash → ℕ → ℕ → List ℕ → ℕ → ℕ → Option ℕ
scan_windows fl end start_bak junk zero start = none
scan_windows fl end start_bak junk (suc fuel) start =
    elim (ltb start end && ltb (add32 start 32) end) [
      | false ↦ some failed_addr
      | true ↦
          let (err, buf) = flash_read fl start junk in
          elim (is_ok err) [
            | false ↦ some failed_addr
            | true ↦ elim (scan_window buf start end start_bak 28 0) [
              | some a ↦ some a
              | none ↦ scan_windows fl end start_bak buf fuel (add32 start 28)
            ]
          ]
    ]

-- The start is the first free address of a sector in the cache.
unfoldable pub starts_empty : FdbKvdb → ℕ → Bool
starts_empty db start =
    elim (get_sector_from_cache db.sector_cache_table (fdb_align_down start db.sec_size)) [
      | none ↦ false
      | some sector ↦ start == sector.empty_kv
    ]

-- `find_next_kv_addr`
unfoldable pub find_next_kv_addr : FdbKvdb → ℕ → ℕ → Option ℕ
find_next_kv_addr db start end =
    if starts_empty db start
    then some failed_addr
    else scan_windows db.flash end start (replicate 32 db.flash.junk) (suc end) start

-- `get_next_kv_addr`
unfoldable pub get_next_kv_addr : FdbKvdb → KvdbSecInfo → FdbKv → Option ℕ
get_next_kv_addr db sector pre_kv =
    let sector_end = add32 sector.addr db.sec_size in
    let after = add32 pre_kv.start (if pre_kv.crc_is_ok then pre_kv.len else wg_align 1) in
    let found = find_next_kv_addr db after (sub32 sector_end sector_hdr_data_size) in
    if sector.store == store_empty
    then some failed_addr
    else if pre_kv.start == failed_addr
    then some (add32 sector.addr sector_hdr_data_size)
    else if leb pre_kv.start sector_end
    then (elim found [
      | none ↦ none
      | some addr ↦ some (
          if addr == failed_addr || (ltb sector_end addr || pre_kv.len == 0)
          then failed_addr
          else addr)
    ])
    else some failed_addr

-- `get_next_sector_addr`, over the sizes of the database.
unfoldable pub get_next_sector_addr : ℕ → ℕ → KvdbSecInfo → ℕ → ℕ
get_next_sector_addr sec_size max_size pre_sec traversed_len =
    let cur_block_size =
      if pre_sec.combined == sector_not_combined
      then sec_size
      else u32 (pre_sec.combined * sec_size) in
    if leb (add32 traversed_len cur_block_size) max_size
    then (if ltb (add32 pre_sec.addr cur_block_size) max_size
        then add32 pre_sec.addr cur_block_size
        else 0)
    else failed_addr
