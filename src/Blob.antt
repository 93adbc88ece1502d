-- ===== src/Blob.antt =====
-- The blob objects of FlashDB: `fdb_blob_make` and `fdb_blob_read` of FlashDB/src/fdb_utils.c, and
-- the conversions `fdb_kv_to_blob` of fdb_kvdb.c and `fdb_tsl_to_blob` of fdb_tsdb.c.
pub mod Logs
use flashdb_ko.Prelude.{ℕ, List, ◌++◌, take, drop, ltb, if◌then◌else◌, length}
use flashdb_ko.Storage.{Flash, is_ok, flash_read}
use flashdb_ko.Kv.Types.{FdbKv}
use flashdb_ko.Tsdb.Types.{FdbTsl}

-- `struct fdb_blob`; `buf` stands for the `size` bytes at the pointer, and the fields of `saved`
-- carry its name.
pub record FdbBlob : Type 0 where
  pub buf : List ℕ
  pub saved_meta_addr : ℕ
  pub saved_addr : ℕ
  pub saved_len : ℕ

-- `fdb_blob_make`, on the caller's object
unfoldable pub fdb_blob_make : FdbBlob → List ℕ → FdbBlob
fdb_blob_make blob value_buf = record blob { buf = value_buf }

-- `fdb_blob_read`: the length that it returns, and the blob with its buffer after the call.
unfoldable pub fdb_blob_read : Flash → FdbBlob → ℕ × FdbBlob
fdb_blob_read fl blob =
    let read_len =
      if ltb blob.saved_len (length blob.buf) then blob.saved_len else length blob.buf in
    let (err, head) = flash_read fl blob.saved_addr (take read_len blob.buf) in
    (if is_ok err then read_len else 0, record blob { buf = head ++ drop read_len blob.buf })

-- `fdb_kv_to_blob`
unfoldable pub fdb_kv_to_blob : FdbKv → FdbBlob → FdbBlob
fdb_kv_to_blob kv blob = record blob {
  saved_meta_addr = kv.start;
  saved_addr = kv.value;
  saved_len = kv.value_len;
}

-- `fdb_tsl_to_blob`
unfoldable pub fdb_tsl_to_blob : FdbTsl → FdbBlob → FdbBlob
fdb_tsl_to_blob tsl blob = record blob {
  saved_addr = tsl.log;
  saved_meta_addr = tsl.index;
  saved_len = tsl.log_len;
}
