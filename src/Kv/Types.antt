-- ===== src/Kv/Types.antt =====
-- The structures and constants of the key-value database: FlashDB/inc/fdb_def.h and the head of
-- FlashDB/src/fdb_kvdb.c, at FDB_WRITE_GRAN = 1. A status is the number of its enumerator, since
-- the code casts the result of `_fdb_get_status`.
use flashdb_ko.Prelude.{ℕ, ◌+◌, List, [], ◌∷◌, ◌++◌, Bool, false, take, drop, get_or}
use flashdb_ko.Storage.{Flash}
use flashdb_ko.Bytes.{le32, word_at}

-- `enum fdb_kv_status`
abbrev pub fdb_kv_unused : ℕ
fdb_kv_unused = 0

abbrev pub fdb_kv_pre_write : ℕ
fdb_kv_pre_write = 1

abbrev pub fdb_kv_write : ℕ
fdb_kv_write = 2

abbrev pub fdb_kv_pre_delete : ℕ
fdb_kv_pre_delete = 3

abbrev pub fdb_kv_deleted : ℕ
fdb_kv_deleted = 4

abbrev pub fdb_kv_err_hdr : ℕ
fdb_kv_err_hdr = 5

abbrev pub fdb_kv_status_num : ℕ
fdb_kv_status_num = 6

-- `enum fdb_sector_store_status`
abbrev pub store_unused : ℕ
store_unused = 0

abbrev pub store_empty : ℕ
store_empty = 1

abbrev pub store_using : ℕ
store_using = 2

abbrev pub store_full : ℕ
store_full = 3

abbrev pub store_status_num : ℕ
store_status_num = 4

-- `enum fdb_sector_dirty_status`
abbrev pub dirty_unused : ℕ
dirty_unused = 0

abbrev pub dirty_false : ℕ
dirty_false = 1

abbrev pub dirty_true : ℕ
dirty_true = 2

abbrev pub dirty_gc : ℕ
dirty_gc = 3

abbrev pub dirty_status_num : ℕ
dirty_status_num = 4

abbrev pub fdb_kv_name_max : ℕ
fdb_kv_name_max = 64

abbrev pub fdb_kv_cache_table_size : ℕ
fdb_kv_cache_table_size = 64

abbrev pub fdb_sector_cache_table_size : ℕ
fdb_sector_cache_table_size = 8

abbrev pub sector_magic_word : ℕ
sector_magic_word = 0x30424446

abbrev pub kv_magic_word : ℕ
kv_magic_word = 0x3030564b

abbrev pub sector_not_combined : ℕ
sector_not_combined = 0xffff_ffff

abbrev pub sector_combined : ℕ
sector_combined = 0

-- Sizes and offsets of `struct sector_hdr_data` and `struct kv_hdr_data`.
abbrev pub sector_hdr_data_size : ℕ
sector_hdr_data_size = 16

abbrev pub sector_dirty_offset : ℕ
sector_dirty_offset = 1

abbrev pub kv_hdr_data_size : ℕ
kv_hdr_data_size = 24

abbrev pub kv_magic_offset : ℕ
kv_magic_offset = 4

abbrev pub fdb_sec_remain_threshold : ℕ
fdb_sec_remain_threshold = kv_hdr_data_size + fdb_kv_name_max

abbrev pub fdb_gc_empty_sec_threshold : ℕ
fdb_gc_empty_sec_threshold = 1

abbrev pub fdb_str_kv_value_max_size : ℕ
fdb_str_kv_value_max_size = 128

-- `struct fdb_kv`; `name` holds the bytes of the array as far as they were set.
pub record FdbKv : Type 0 where
  pub status : ℕ
  pub crc_is_ok : Bool
  pub name_len : ℕ
  pub len : ℕ
  pub value_len : ℕ
  pub name : List ℕ
  pub start : ℕ
  pub value : ℕ

-- An uninitialised `struct fdb_kv`. Each field is set before it is read.
abbrev pub blank_kv : FdbKv
blank_kv = record {
  status = 0;
  crc_is_ok = false;
  name_len = 0;
  len = 0;
  value_len = 0;
  name = [];
  start = 0;
  value = 0;
}

-- `struct kvdb_sec_info`
pub record KvdbSecInfo : Type 0 where
  pub check_ok : Bool
  pub store : ℕ
  pub dirty : ℕ
  pub addr : ℕ
  pub magic : ℕ
  pub combined : ℕ
  pub remain : ℕ
  pub empty_kv : ℕ

abbrev pub blank_sector : KvdbSecInfo
blank_sector = record {
  check_ok = false;
  store = 0;
  dirty = 0;
  addr = 0;
  magic = 0;
  combined = 0;
  remain = 0;
  empty_kv = 0;
}

-- `struct kv_cache_node`
pub record KvCacheNode : Type 0 where
  pub name_crc : ℕ
  pub active : ℕ
  pub addr : ℕ

-- `struct fdb_default_kv_node`; the value is the memory that its pointer leads to.
pub record FdbDefaultKvNode : Type 0 where
  pub key : List ℕ
  pub value : List ℕ
  pub value_len : ℕ

-- `struct fdb_kvdb` with its parent `struct fdb_db`. `lock` and `unlock` change no field of it.
pub record FdbKvdb : Type 0 where
  pub flash : Flash
  pub sec_size : ℕ
  pub max_size : ℕ
  pub oldest_addr : ℕ
  pub init_ok : Bool
  pub not_formatable : Bool
  pub default_kvs : List FdbDefaultKvNode
  pub gc_request : Bool
  pub in_recovery_check : Bool
  pub cur_kv : FdbKv
  pub cur_sector : KvdbSecInfo
  pub last_is_complete_del : Bool
  pub kv_cache_table : List KvCacheNode
  pub sector_cache_table : List KvdbSecInfo

-- `struct kv_hdr_data`; `name_pad` is the padding behind `name_len`, which the CRC covers.
pub record KvHdrData : Type 0 where
  pub status_table : List ℕ
  pub magic : ℕ
  pub len : ℕ
  pub crc32 : ℕ
  pub name_len : ℕ
  pub name_pad : List ℕ
  pub value_len : ℕ

-- The structure that lies in a buffer.
unfoldable pub kv_hdr_of_bytes : List ℕ → KvHdrData
unfolding word_at
kv_hdr_of_bytes buf = record {
  status_table = take 1 buf;
  magic = word_at buf 4;
  len = word_at buf 8;
  crc32 = word_at buf 12;
  name_len = get_or buf 16 0;
  name_pad = take 3 (drop 17 buf);
  value_len = word_at buf 20;
}

-- The four bytes at `&kv_hdr.name_len`, and those at `&kv_hdr.value_len`.
abbrev pub name_len_bytes : KvHdrData → List ℕ
name_len_bytes hdr = hdr.name_len ∷ hdr.name_pad

abbrev pub value_len_bytes : KvHdrData → List ℕ
value_len_bytes hdr = le32 hdr.value_len

-- The bytes of the structure from `&kv_hdr->magic` on.
unfoldable pub kv_hdr_tail_bytes : KvHdrData → List ℕ
unfolding le32
kv_hdr_tail_bytes hdr =
    le32 hdr.magic
    ++ (le32 hdr.len ++ (le32 hdr.crc32 ++ (name_len_bytes hdr ++ value_len_bytes hdr)))
