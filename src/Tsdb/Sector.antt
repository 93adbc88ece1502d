-- ===== src/Tsdb/Sector.antt =====
-- `read_sector_info` and `format_sector` of FlashDB/src/fdb_tsdb.c. `none` means that the function
-- does not return: an assertion failed, or the fuel of the traversal is used up.
pub mod Header
pub mod Bytes
pub mod Format
use flashdb_ko.Prelude.{
  ℕ, zero, suc, ◌/◌, ◌%◌, List, Option, none, some, Bool, true, false, ◌&&◌, ◌||◌, ◌==◌, ltb,
  if◌then◌else◌, take, drop,
}
use flashdb_ko.Prelude.Words.{add32, sub32, wg_align}
use flashdb_ko.Bytes.{le32, word_at}
use flashdb_ko.Storage.{
  FdbErr, no_err, read_err, init_failed, is_ok, Flash, flash_fetch, flash_erase,
}
use flashdb_ko.Status.{fdb_get_status}
use flashdb_ko.Kv.Types.{store_empty, store_using, store_status_num}
use flashdb_ko.Tsdb.Types.{
  TsdbSecInfo, SectorHdrData, sector_hdr_of_bytes, sector_magic_word, fdb_tsl_unused,
  fdb_tsl_pre_write, fdb_tsl_write, fdb_tsl_status_num, sector_hdr_data_size, log_idx_data_size,
}
use flashdb_ko.Tsdb.Walk.{read_tsl}
use flashdb_ko.Tsdb.State.{Writes, ◌>>◌, write_status, write_flash}

-- The room that a log of this length takes.
unfoldable pub log_room : ℕ → ℕ
log_room size = add32 log_idx_data_size (wg_align size)

-- The loop over the logs, from the one whose index is at `index` on.
unfoldable pub traverse_logs : Flash → ℕ → ℕ → ℕ → TsdbSecInfo → Option (FdbErr × TsdbSecInfo)
traverse_logs fl max_len zero index sector = none
traverse_logs fl max_len (suc fuel) index sector =
    let tsl = read_tsl fl max_len index in
    elim (tsl.status == fdb_tsl_unused || tsl.status == fdb_tsl_pre_write) [
      | true ↦ some (no_err, sector)
      | false ↦
          let sector' = record sector {
            end_time = tsl.time;
            end_idx = index;
            empty_idx = add32 sector.empty_idx log_idx_data_size;
            empty_data = sub32 sector.empty_data (wg_align tsl.log_len);
          } in
          elim (ltb (log_room tsl.log_len) sector.remain) [
            | true ↦
                traverse_logs fl max_len fuel (add32 index log_idx_data_size)
                  (record sector' { remain = sub32 sector.remain (log_room tsl.log_len) })
            | false ↦ some (read_err, record sector' { remain = 0 })
          ]
    ]

-- The end of the logs from the `end_info` entry that is complete, the first one first.
unfoldable pub end_of_logs : SectorHdrData → ℕ → ℕ → TsdbSecInfo → TsdbSecInfo
end_of_logs hdr stat0 stat1 sector =
    if stat0 == fdb_tsl_write
    then record sector { end_time = hdr.end_time0; end_idx = hdr.end_idx0 }
    else if stat1 == fdb_tsl_write
    then record sector { end_time = hdr.end_time1; end_idx = hdr.end_idx1 }
    else sector

-- The fields that a header with the right magic word determines, in the caller's structure.
unfoldable pub sector_of_hdr : ℕ → ℕ → SectorHdrData → TsdbSecInfo → TsdbSecInfo
unfolding end_of_logs
sector_of_hdr sec_size addr hdr sector =
    let stat0 = fdb_get_status hdr.end_status0 fdb_tsl_status_num in
    let stat1 = fdb_get_status hdr.end_status1 fdb_tsl_status_num in
    let empty_idx = add32 addr sector_hdr_data_size in
    let empty_data = add32 addr sec_size in
    record (end_of_logs hdr stat0 stat1 sector) {
      check_ok = true;
      addr = addr;
      magic = hdr.magic;
      status = fdb_get_status hdr.status store_status_num;
      start_time = hdr.start_time;
      end_info_stat0 = stat0;
      end_info_stat1 = stat1;
      empty_idx = empty_idx;
      empty_data = empty_data;
      remain = sub32 empty_data empty_idx;
    }

-- Both `end_info` entries are unfinished, which the code asserts not to happen.
unfoldable pub no_valid_end : TsdbSecInfo → Bool
no_valid_end sector =
    sector.end_info_stat0 == fdb_tsl_pre_write && sector.end_info_stat1 == fdb_tsl_pre_write

-- The traversal of a sector in use, at the end of `read_sector_info`: a log takes 16 bytes of the
-- remaining room at least, unless its length is so near 2 ^ 32 that the sum wraps.
unfoldable pub traverse_sector : Flash → ℕ → Bool → TsdbSecInfo → Option (FdbErr × TsdbSecInfo)
traverse_sector fl max_len traversal sector = elim (sector.status == store_using && traversal) [
  | true ↦ traverse_logs fl max_len (suc (sector.remain / 16)) sector.empty_idx sector
  | false ↦ some (no_err, sector)
]

-- What `read_sector_info` makes of the bytes of the header, in the caller's structure `sector`.
unfoldable pub read_hdr : ℕ → ℕ → List ℕ → TsdbSecInfo → Option (FdbErr × TsdbSecInfo)
unfolding sector_hdr_of_bytes
read_hdr sec_size addr buf sector =
    let hdr = sector_hdr_of_bytes buf in
    let read = sector_of_hdr sec_size addr hdr sector in
    elim (hdr.magic == sector_magic_word) [
      | false ↦
          some (init_failed, record sector { addr = addr; magic = hdr.magic; check_ok = false })
      | true ↦ elim (no_valid_end read) [ true ↦ none | false ↦ some (no_err, read) ]
    ]

-- `read_sector_info`
unfoldable pub read_sector_info :
    Flash → ℕ → ℕ → ℕ → TsdbSecInfo → Bool → Option (FdbErr × TsdbSecInfo)
unfolding read_hdr
read_sector_info fl max_len sec_size addr sector traversal =
    elim (read_hdr sec_size addr (flash_fetch fl addr sector_hdr_data_size) sector) [
      | none ↦ none
      | some (err, read) ↦ elim (is_ok err) [
        | false ↦ some (err, read)
        | true ↦ traverse_sector fl max_len traversal read
      ]
    ]

-- The header that `format_sector` writes.
abbrev pub write_sector_hdr : ℕ → Writes
write_sector_hdr addr =
    write_status addr store_status_num store_empty
    >> write_flash (add32 addr 4) (le32 sector_magic_word)

-- `format_sector`, with the assertion on the alignment of the address.
unfoldable pub format_sector : ℕ → ℕ → Flash → Option (FdbErr × Flash)
format_sector sec_size addr fl =
    let (err, fl') = flash_erase fl addr sec_size in
    elim (addr % sec_size == 0) [
      | false ↦ none
      | true ↦ some (if is_ok err then write_sector_hdr addr fl' else (err, fl'))
    ]
