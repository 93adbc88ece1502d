-- ===== src/Kv/Iterate.antt =====
-- The iterators of FlashDB/src/fdb_kvdb.c over all KVs and over all sectors. What a callback keeps
-- through its arguments is the value `A` that the iterator hands on; `true` breaks it off.
use flashdb_ko.Prelude.{ℕ, zero, suc, Bool, true, false, ◌||◌, ◌==◌, if◌then◌else◌}
use flashdb_ko.Prelude.Words.{add32, failed_addr}
use flashdb_ko.Storage.{is_ok}
use flashdb_ko.Kv.Types.{
  FdbKv, KvdbSecInfo, blank_sector, sector_hdr_data_size, store_unused, store_using, store_full,
}
use flashdb_ko.Kv.State.{M, ◌>>=◌, pure, get_db, out_of_fuel, lift}
use flashdb_ko.Kv.Walk.{get_next_kv_addr, get_next_sector_addr}
use flashdb_ko.Kv.Read.{read_kv, read_sector_info}

-- The sector holds KVs.
unfoldable pub has_kvs : KvdbSecInfo → Bool
has_kvs sector = sector.store == store_using || sector.store == store_full

-- What follows a sector: its successor, by the database as it stands then.
unfoldable pub next_sector : KvdbSecInfo → ℕ → M ℕ
unfolding get_next_sector_addr
next_sector sector traversed_len = do
  db ← get_db
  pure (get_next_sector_addr db.sec_size db.max_size sector traversed_len)

module _ {A : Type 0} where
  -- The loop of `kv_iterator` over the KVs of one sector; the Boolean tells whether the callback
  -- broke it off.
  unfoldable pub iterate_kvs :
      (FdbKv → A → M (Bool × A)) → ℕ → KvdbSecInfo → FdbKv → A → M (Bool × A × FdbKv)
  iterate_kvs callback zero sector kv arg = out_of_fuel
  iterate_kvs callback (suc fuel) sector kv arg = read_kv kv >>= λ r. callback r.1 arg >>= λ c.
      elim c.0 [
        | true ↦ pure (true, c.1, r.1)
        | false ↦ get_db >>= λ db. lift (get_next_kv_addr db sector r.1) >>= λ next.
            elim (next == failed_addr) [
              | true ↦ pure (false, c.1, record r.1 { start = next })
              | false ↦ iterate_kvs callback fuel sector (record r.1 { start = next }) c.1
            ]
      ]

  -- The loop of `kv_iterator` over the sectors.
  unfoldable pub iterate_sector_kvs :
      (FdbKv → A → M (Bool × A)) → ℕ → ℕ → ℕ → KvdbSecInfo → FdbKv → A → M (A × FdbKv)
  iterate_sector_kvs callback zero sec_addr traversed_len old kv arg = out_of_fuel
  iterate_sector_kvs callback (suc fuel) sec_addr traversed_len old kv arg = get_db >>= λ db.
      let traversed = add32 traversed_len db.sec_size in
      read_sector_info sec_addr old false >>= λ s.
      let first = record kv { start = add32 s.1.addr sector_hdr_data_size } in
      (if is_ok s.0
        then (if has_kvs s.1
            then iterate_kvs callback (suc db.sec_size) s.1 first arg
            else pure (false, arg, kv))
        else pure (false, arg, kv))
      >>= λ r. elim r.0 [
        | true ↦ pure (r.1, r.2)
        | false ↦ next_sector s.1 traversed >>= λ next. elim (next == failed_addr) [
          | true ↦ pure (r.1, r.2)
          | false ↦ iterate_sector_kvs callback fuel next traversed s.1 r.2 r.1
        ]
      ]

  -- `kv_iterator` with a callback; the KV is the caller's object.
  unfoldable pub kv_iterator : (FdbKv → A → M (Bool × A)) → FdbKv → A → M (A × FdbKv)
  unfolding iterate_kvs iterate_sector_kvs
  kv_iterator callback kv arg = do
    db ← get_db
    iterate_sector_kvs callback (suc db.max_size) db.oldest_addr 0 blank_sector kv arg

  -- One round of `sector_iterator`, up to the callback.
  unfoldable pub visit_sector :
      ℕ → (KvdbSecInfo → A → M (Bool × A)) → Bool → ℕ → KvdbSecInfo → A → M (Bool × A × KvdbSecInfo)
  visit_sector status callback traversal_kv sec_addr sector arg = do
    s ← read_sector_info sec_addr sector false
    if status == store_unused || status == s.1.store
        then (do
          t ← (if traversal_kv then read_sector_info sec_addr s.1 true else pure s)
          c ← callback t.1 arg
          pure (c.0, c.1, t.1))
        else pure (false, arg, s.1)

  -- The loop of `sector_iterator`.
  unfoldable pub iterate_sectors :
      ℕ
      → (KvdbSecInfo → A → M (Bool × A))
      → Bool
      → ℕ
      → ℕ
      → ℕ
      → KvdbSecInfo
      → A
      → M (A × KvdbSecInfo)
  iterate_sectors status callback traversal_kv zero sec_addr traversed_len sector arg = out_of_fuel
  iterate_sectors status callback traversal_kv (suc fuel) sec_addr traversed_len sector arg =
      get_db >>= λ db.
      let traversed = add32 traversed_len db.sec_size in
      visit_sector status callback traversal_kv sec_addr sector arg >>= λ r. elim r.0 [
        | true ↦ pure (r.1, r.2)
        | false ↦ next_sector r.2 traversed >>= λ next. elim (next == failed_addr) [
          | true ↦ pure (r.1, r.2)
          | false ↦ iterate_sectors status callback traversal_kv fuel next traversed r.2 r.1
        ]
      ]

  -- `sector_iterator` with a callback; the sector is the caller's structure.
  unfoldable pub sector_iterator :
      KvdbSecInfo → ℕ → A → (KvdbSecInfo → A → M (Bool × A)) → Bool → M (A × KvdbSecInfo)
  unfolding iterate_sectors visit_sector
  sector_iterator sector status arg callback traversal_kv = do
    db ← get_db
    iterate_sectors status callback traversal_kv (suc db.max_size) db.oldest_addr 0 sector arg
