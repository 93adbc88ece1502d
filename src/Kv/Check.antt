-- ===== src/Kv/Check.antt =====
-- The iterator, the integrity check, the options and the string reader of the key-value database:
-- `fdb_kv_iterate`, `fdb_kvdb_check`, `fdb_kvdb_control` and `fdb_kv_get` of
-- FlashDB/src/fdb_kvdb.c.
use flashdb_ko.Prelude.{
  ℕ, zero, suc, List, ◌∷◌, ◌++◌, Option, none, some, Bool, true, false, ◌&&◌, ◌==◌, ltb, take, drop,
  if◌then◌else◌,
}
use flashdb_ko.Prelude.Words.{add32, failed_addr}
use flashdb_ko.Storage.{FdbErr, no_err, init_failed, is_ok}
use flashdb_ko.Kv.Types.{
  fdb_str_kv_value_max_size, FdbKv, KvdbSecInfo, FdbKvdb, fdb_kv_write, blank_kv, blank_sector,
  sector_hdr_data_size,
}
use flashdb_ko.Kv.State.{M, ◌>>=◌, pure, get_db, out_of_fuel, lift}
use flashdb_ko.Kv.Walk.{get_next_kv_addr}
use flashdb_ko.Kv.Read.{read_kv, read_sector_info}
use flashdb_ko.Kv.Iterate.{has_kvs, next_sector}
use flashdb_ko.Kv.Find.{fdb_kv_get_blob, fdb_is_str}

-- `struct fdb_kv_iterator`
pub record FdbKvIterator : Type 0 where
  pub curr_kv : FdbKv
  pub iterated_cnt : ℕ
  pub iterated_obj_bytes : ℕ
  pub iterated_value_bytes : ℕ
  pub sector_addr : ℕ
  pub traversed_len : ℕ

-- `fdb_kv_iterator_init`
unfoldable pub fdb_kv_iterator_init : FdbKvdb → FdbKvIterator → FdbKvIterator
fdb_kv_iterator_init db itr = record {
  curr_kv = record itr.curr_kv { start = 0 };
  iterated_cnt = 0;
  iterated_obj_bytes = 0;
  iterated_value_bytes = 0;
  sector_addr = db.oldest_addr;
  traversed_len = 0;
}

-- The inner loop of `fdb_kv_iterate`: whether the sector has another valid KV, and the KV object
-- after the loop.
unfoldable pub next_valid_kv : ℕ → KvdbSecInfo → FdbKv → M (Bool × FdbKv)
next_valid_kv zero sector kv = out_of_fuel
next_valid_kv (suc fuel) sector kv = read_kv kv >>= λ r.
    elim (r.1.status == fdb_kv_write && r.1.crc_is_ok) [
      | true ↦ pure (true, r.1)
      | false ↦ get_db >>= λ db. lift (get_next_kv_addr db sector r.1) >>= λ next.
          elim (next == failed_addr) [
            | true ↦ pure (false, record r.1 { start = next })
            | false ↦ next_valid_kv fuel sector (record r.1 { start = next })
          ]
    ]

-- Where the search goes on in a sector that holds KVs: at its first KV, or behind the current one.
unfoldable pub resume_at : KvdbSecInfo → FdbKv → M ℕ
resume_at sector kv =
    if kv.start == 0
    then pure (add32 sector.addr sector_hdr_data_size)
    else (get_db >>= λ db. lift (get_next_kv_addr db sector kv))

-- The search of one round of `fdb_kv_iterate` in a sector.
unfoldable pub iterate_in : KvdbSecInfo → FdbKv → M (Bool × FdbKv)
unfolding resume_at next_valid_kv
iterate_in sector kv = resume_at sector kv >>= λ first.
    if first == failed_addr
    then pure (false, record kv { start = first })
    else (get_db >>= λ db. next_valid_kv (suc db.sec_size) sector (record kv { start = first }))

-- The counters behind a valid KV; a `size_t` has 32 bits here.
unfoldable pub count_kv : FdbKvIterator → FdbKv → FdbKvIterator
count_kv itr kv = record itr {
  curr_kv = kv;
  iterated_cnt = add32 itr.iterated_cnt 1;
  iterated_obj_bytes = add32 itr.iterated_obj_bytes kv.len;
  iterated_value_bytes = add32 itr.iterated_value_bytes kv.value_len;
}

-- The loop of `fdb_kv_iterate` over the sectors.
unfoldable pub iterate_from : ℕ → KvdbSecInfo → FdbKvIterator → M (Bool × FdbKvIterator)
iterate_from zero old itr = out_of_fuel
iterate_from (suc fuel) old itr = get_db >>= λ db.
    read_sector_info itr.sector_addr old false >>= λ s.
    (if is_ok s.0
      then (if has_kvs s.1 then iterate_in s.1 itr.curr_kv else pure (false, itr.curr_kv))
      else pure (false, itr.curr_kv))
    >>= λ r. elim r.0 [
      | true ↦ pure (true, count_kv itr r.1)
      | false ↦
          let traversed = add32 itr.traversed_len db.sec_size in
          next_sector s.1 traversed >>= λ next.
          let itr' = record itr {
            curr_kv = record r.1 { start = 0 };
            traversed_len = traversed;
            sector_addr = next;
          } in
          elim (next == failed_addr) [
            | true ↦ pure (false, itr')
            | false ↦ iterate_from fuel s.1 itr'
          ]
    ]

-- `fdb_kv_iterate`: whether there is another KV, and the iterator with it.
unfoldable pub fdb_kv_iterate : FdbKvIterator → M (Bool × FdbKvIterator)
unfolding iterate_from
fdb_kv_iterate itr = do db ← get_db; iterate_from (suc db.max_size) blank_sector itr

-- The loop of `fdb_kvdb_check` over the KVs of a sector: its result and the KV object.
unfoldable pub check_kvs : ℕ → KvdbSecInfo → FdbKv → M (FdbErr × FdbKv)
check_kvs zero sector kv = out_of_fuel
check_kvs (suc fuel) sector kv = read_kv kv >>= λ r. get_db >>= λ db.
    lift (get_next_kv_addr db sector r.1) >>= λ next.
    let kv' = record r.1 { start = next } in
    elim (next == failed_addr) [
      | true ↦ pure (r.0, kv')
      | false ↦ elim (is_ok r.0) [ false ↦ pure (r.0, kv') | true ↦ check_kvs fuel sector kv' ]
    ]

-- The loop of `fdb_kvdb_check` over the sectors.
unfoldable pub check_sectors : ℕ → ℕ → ℕ → KvdbSecInfo → FdbKv → M FdbErr
check_sectors zero sec_addr traversed_len old kv = out_of_fuel
check_sectors (suc fuel) sec_addr traversed_len old kv = get_db >>= λ db.
    let traversed = add32 traversed_len db.sec_size in
    read_sector_info sec_addr old false >>= λ s.
    let first = record kv { start = add32 s.1.addr sector_hdr_data_size } in
    (if is_ok s.0
      then (if has_kvs s.1 then check_kvs (suc db.sec_size) s.1 first else pure (no_err, kv))
      else pure (s.0, kv))
    >>= λ r. next_sector s.1 traversed >>= λ next. elim (next == failed_addr) [
      | true ↦ pure r.0
      | false ↦ elim (is_ok r.0) [
        | false ↦ pure r.0
        | true ↦ check_sectors fuel next traversed s.1 r.1
      ]
    ]

-- `fdb_kvdb_check`
unfoldable pub fdb_kvdb_check : M FdbErr
unfolding check_sectors
fdb_kvdb_check = do
  db ← get_db
  if db.init_ok
      then check_sectors (suc db.max_size) db.oldest_addr 0 blank_sector blank_kv
      else pure init_failed

-- The commands of `fdb_kvdb_control` that have a number or a flag as their argument; those that
-- set the locks or belong to file mode change nothing here.
pub data KvdbCtrl : Type 0 where
  set_sec_size : ℕ → KvdbCtrl
  get_sec_size : KvdbCtrl
  set_not_format : Bool → KvdbCtrl

-- `fdb_kvdb_control`: what it stores through `arg`, if it does, and the database; `none` where the
-- code asserts that the database is not initialised.
unfoldable pub fdb_kvdb_control : FdbKvdb → KvdbCtrl → Option (Option ℕ × FdbKvdb)
fdb_kvdb_control db (set_sec_size size) =
    if db.init_ok then none else some (none, record db { sec_size = size })
fdb_kvdb_control db get_sec_size = some (some db.sec_size, db)
fdb_kvdb_control db (set_not_format f) =
    if db.init_ok then none else some (none, record db { not_formatable = f })

-- FDB_STR_KV_VALUE_MAX_SIZE

-- `fdb_kv_get`, with its static buffer `value`: the string, or `none` for a null pointer, and the
-- buffer after the call. `saved_len` is what the uninitialised blob holds.
unfoldable pub fdb_kv_get : List ℕ → List ℕ → ℕ → M (Option (List ℕ) × List ℕ)
fdb_kv_get key value saved_len = do
  (get_size, buf, len) ← fdb_kv_get_blob key (take fdb_str_kv_value_max_size value) saved_len
  let read = buf ++ drop fdb_str_kv_value_max_size value
  pure (
      if ltb 0 get_size && fdb_is_str (take get_size read)
      then (some (take get_size read), take get_size read ++ 0 ∷ drop (suc get_size) read)
      else (none, read))
