-- ===== src/Tsdb/Types.antt =====
-- The structures of the time series database: FlashDB/inc/fdb_def.h and the head of
-- FlashDB/src/fdb_tsdb.c, at FDB_WRITE_GRAN = 1. A time is the bit pattern of an `int32_t`.
use flashdb_ko.Prelude.{ℕ, List, Bool, take, drop}
use flashdb_ko.Bytes.{word_at}

-- `enum fdb_tsl_status`
abbrev pub fdb_tsl_unused : ℕ
fdb_tsl_unused = 0

abbrev pub fdb_tsl_pre_write : ℕ
fdb_tsl_pre_write = 1

abbrev pub fdb_tsl_write : ℕ
fdb_tsl_write = 2

abbrev pub fdb_tsl_status_num : ℕ
fdb_tsl_status_num = 6

-- Sizes of `struct sector_hdr_data` and `struct log_idx_data`.
abbrev pub sector_hdr_data_size : ℕ
sector_hdr_data_size = 40

abbrev pub log_idx_data_size : ℕ
log_idx_data_size = 16

-- `struct fdb_tsl`
pub record FdbTsl : Type 0 where
  pub status : ℕ
  pub time : ℕ
  pub log_len : ℕ
  pub index : ℕ
  pub log : ℕ

-- `struct tsdb_sec_info`
pub record TsdbSecInfo : Type 0 where
  pub check_ok : Bool
  pub status : ℕ
  pub addr : ℕ
  pub magic : ℕ
  pub start_time : ℕ
  pub end_time : ℕ
  pub end_idx : ℕ
  pub end_info_stat0 : ℕ
  pub end_info_stat1 : ℕ
  pub remain : ℕ
  pub empty_idx : ℕ
  pub empty_data : ℕ

-- `struct log_idx_data`
pub record LogIdxData : Type 0 where
  pub status_table : List ℕ
  pub time : ℕ
  pub log_len : ℕ
  pub log_addr : ℕ

-- The structure that lies in a buffer.
unfoldable pub log_idx_of_bytes : List ℕ → LogIdxData
log_idx_of_bytes buf = record {
  status_table = take 1 buf;
  time = word_at buf 4;
  log_len = word_at buf 8;
  log_addr = word_at buf 12;
}

-- `SECTOR_MAGIC_WORD`
abbrev pub sector_magic_word : ℕ
sector_magic_word = 0x304c_5354

-- `struct sector_hdr_data`, without its reserved word.
pub record SectorHdrData : Type 0 where
  pub status : List ℕ
  pub magic : ℕ
  pub start_time : ℕ
  pub end_time0 : ℕ
  pub end_idx0 : ℕ
  pub end_status0 : List ℕ
  pub end_time1 : ℕ
  pub end_idx1 : ℕ
  pub end_status1 : List ℕ

-- The structure that lies in a buffer.
unfoldable pub sector_hdr_of_bytes : List ℕ → SectorHdrData
sector_hdr_of_bytes buf = record {
  status = take 1 buf;
  magic = word_at buf 4;
  start_time = word_at buf 8;
  end_time0 = word_at buf 12;
  end_idx0 = word_at buf 16;
  end_status0 = take 1 (drop 20 buf);
  end_time1 = word_at buf 24;
  end_idx1 = word_at buf 28;
  end_status1 = take 1 (drop 32 buf);
}
