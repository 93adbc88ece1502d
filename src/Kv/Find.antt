-- ===== src/Kv/Find.antt =====
-- Looking a KV up by its name, and reading its value: FlashDB/src/fdb_kvdb.c.
pub mod Cached
pub mod Written
use flashdb_ko.Prelude.{
  ℕ, List, [], ◌∷◌, ◌++◌, take, drop, Option, none, some, Bool, true, false, ◌&&◌, ◌==◌, ltb,
  if◌then◌else◌, length,
}
use flashdb_ko.Prelude.Words.{sub32}
use flashdb_ko.Fal.{strn_eq}
use flashdb_ko.Storage.{flash_read}
use flashdb_ko.Kv.Types.{FdbKv, blank_kv, fdb_kv_write}
use flashdb_ko.Kv.State.{M, ◌>>=◌, ◌>>◌, pure, get_db, update_db}
use flashdb_ko.Kv.KvCache.{name_crc_of, update_kv_cache, get_kv_from_cache}
use flashdb_ko.Kv.Read.{read_kv}
use flashdb_ko.Kv.Iterate.{kv_iterator}

-- The test of `find_kv_cb`.
unfoldable pub is_the_kv : List ℕ → FdbKv → Bool
is_the_kv key kv =
    length key == kv.name_len
    && (kv.crc_is_ok && (kv.status == fdb_kv_write && strn_eq kv.name key (length key)))

unfoldable pub find_kv_cb : List ℕ → FdbKv → Bool → M (Bool × Bool)
unfolding is_the_kv
find_kv_cb key kv find_ok = if is_the_kv key kv then pure (true, true) else pure (false, find_ok)

-- `find_kv_no_cache`: whether the KV was found, and the caller's object after the call.
unfoldable pub find_kv_no_cache : List ℕ → FdbKv → M (Bool × FdbKv)
unfolding kv_iterator find_kv_cb
find_kv_no_cache key kv = kv_iterator (find_kv_cb key) kv false

-- `update_kv_cache` on the database.
abbrev pub note_kv : List ℕ → ℕ → M (Unit {0})
note_kv name addr =
    update_db
      (λ d. record d { kv_cache_table = update_kv_cache d.kv_cache_table (name_crc_of name) addr })

unfoldable pub find_kv : List ℕ → FdbKv → M (Bool × FdbKv)
unfolding find_kv_no_cache
find_kv key kv = do
  db ← get_db
  let (hit, table) = get_kv_from_cache db.flash key (name_crc_of key) db.kv_cache_table
  update_db (λ d. record d { kv_cache_table = table })
  elim hit [
    | some addr ↦ read_kv (record kv { start = addr }) >>= λ r. pure (true, r.1)
    | none ↦
        find_kv_no_cache key kv >>= λ r. (if r.0 then note_kv key r.1.start else pure tt) >> pure r
  ]

-- `get_kv` into a buffer: the length that was read, the buffer, and the length of the value.
unfoldable pub get_kv : List ℕ → List ℕ → M (ℕ × List ℕ × ℕ)
unfolding find_kv
get_kv key value_buf = do
  (found, kv) ← find_kv key blank_kv
  db ← get_db
  let read_len = if ltb kv.value_len (length value_buf) then kv.value_len else length value_buf
  let head = (flash_read db.flash kv.value (take read_len value_buf)).1
  pure (
      if found
      then (read_len, head ++ drop read_len value_buf, kv.value_len)
      else (0, value_buf, 0))

-- `fdb_kv_get_obj`: the object, if it is found; `kv` is the caller's.
unfoldable pub fdb_kv_get_obj : List ℕ → FdbKv → M (Option FdbKv)
unfolding find_kv
fdb_kv_get_obj key kv = do
  db ← get_db
  if db.init_ok then (find_kv key kv >>= λ r. pure (if r.0 then some r.1 else none)) else pure none

-- `fdb_kv_get_blob`: the length that was read, the blob's buffer, and `blob->saved.len`.
unfoldable pub fdb_kv_get_blob : List ℕ → List ℕ → ℕ → M (ℕ × List ℕ × ℕ)
unfolding get_kv
fdb_kv_get_blob key buf saved_len = do
  db ← get_db
  if db.init_ok then get_kv key buf else pure (0, buf, saved_len)

-- `fdb_is_str`: every byte `ch` has `(unsigned int)(ch - ' ') < 127u - ' '`.
unfoldable pub fdb_is_str : List ℕ → Bool
fdb_is_str [] = true
fdb_is_str (b ∷ value) = ltb (sub32 b 32) 95 && fdb_is_str value
