-- ===== src/Kv/Items/Blocks.antt =====
-- The sectors of a key-value database, and `find_kv_no_cache` of FlashDB/src/fdb_kvdb.c over them.
use flashdb_ko.Prelude.{
  ℕ, suc, ◌+◌, ◌*◌, ◌%◌, ==_iff, ◌≤◌, ◌≡◌, ◌≢◌, refl, ap, List, [], ◌∷◌, length, Option, none, some,
  Bool, true, false, not, ◌==◌, ◌||◌, ◌⊎◌, if◌then◌else◌, arith,
}
use flashdb_ko.Prelude.Words.{add32, failed_addr}
use flashdb_ko.Storage.{FdbErr, no_err, is_ok}
use flashdb_ko.Kv.Types.{FdbKv, FdbKvdb, KvdbSecInfo, sector_hdr_data_size}
use flashdb_ko.Kv.State.{assert_aligned, M, ◌>>=◌, pure}
use flashdb_ko.Kv.SectorCache.{get_sector_from_cache}
use flashdb_ko.Kv.Walk.{get_next_sector_addr}
use flashdb_ko.Kv.Read.{load_sector, read_sector_info}
use flashdb_ko.Kv.Iterate.{has_kvs, next_sector, iterate_kvs, iterate_sector_kvs}
use flashdb_ko.Kv.Find.{find_kv_cb}
use flashdb_ko.Kv.Items.{Item, kv_of}
use flashdb_ko.Kv.Items.Sector.{Filled, items_len}
use flashdb_ko.Kv.Items.Visit.{visit_items, iterate_kvs-items}
use flashdb_ko.Kv.Items.Search.{
  find_item, NoNul, search_cb, find_kv_cb-search_cb, Result, visit-find_item,
}

-- A sector with its KVs.
pub record Block : Type 0 where
  pub info : KvdbSecInfo
  pub items : List Item

-- The sector at `addr`, a multiple of the sector size, is in the cache; it is in use or full and holds its KVs, one at least, or it
-- is not and has none.
pub record BlockAt (db : FdbKvdb) (m : ℕ → ℕ) (addr : ℕ) (b : Block) : Type 0 where
  pub aligned : addr % db.sec_size ≡ 0
  pub cached : get_sector_from_cache db.sector_cache_table addr ≡ some b.info
  pub content :
      ((e : Item) × (items : List Item) × (b.items ≡ e ∷ items)
        × (has_kvs b.info ≡ true)
        × Filled db m b.info b.items)
      ⊎ ((b.items ≡ []) × (has_kvs b.info ≡ false))

-- The address behind a sector.
abbrev pub behind_block : FdbKvdb → ℕ → Block → ℕ
behind_block db traversed b =
    get_next_sector_addr db.sec_size db.max_size b.info (add32 traversed db.sec_size)

-- The sectors from `addr` on, in the order in which the iterators go.
unfoldable pub Blocks : FdbKvdb → (ℕ → ℕ) → ℕ → ℕ → Block → List Block → Type 0
Blocks db m addr traversed b [] = BlockAt db m addr b × (behind_block db traversed b ≡ failed_addr)
Blocks db m addr traversed b (c ∷ blocks) =
    BlockAt db m addr b
    × (behind_block db traversed b ≢ failed_addr)
    × Blocks db m (behind_block db traversed b) (add32 traversed db.sec_size) c blocks

-- What a lookup of the name in the database promises: the first KV of the name, in the order of the
-- sectors, that is written and not deleted.
unfoldable pub find_block : List ℕ → List Block → Option (ℕ × Item)
find_block key [] = none
find_block key (b ∷ blocks) =
    let rest = find_block key blocks in
    elim (find_item key (b.info.addr + 16) b.items) [ some hit ↦ some hit | none ↦ rest ]

items_fewer : (items : List Item) → 24 * length items ≤ items_len items
unfolding items_len
items_fewer [] = omega arith
items_fewer (e ∷ items) = omega (arith, items_fewer items)

read_cached :
    (db : FdbKvdb) (addr : ℕ) (info old : KvdbSecInfo)
    → addr % db.sec_size ≡ 0
    → get_sector_from_cache db.sector_cache_table addr ≡ some info
    → read_sector_info addr old false db ≡ some ((no_err, info), db)
unfolding read_sector_info
read_cached db addr info old aligned cached =
    rw (read_sector_info, assert_aligned, (==_iff (addr % db.sec_size) 0).1 aligned)
      (ap
        (λ (o : Option KvdbSecInfo).
          (elim o as (λ x. M (FdbErr × KvdbSecInfo)) [
            | none ↦ load_sector addr old false
            | some c ↦
                if not false || not (c.empty_kv == failed_addr)
                then pure (no_err, c)
                else load_sector addr old false
          ])
            db)
        cached)

module _ (key : List ℕ) (db : FdbKvdb) where
  -- The loop over the KVs of a sector that has some.
  pub block_search :
      {m : ℕ → ℕ} (plain : NoNul key) (info : KvdbSecInfo) (e : Item) (items : List Item)
      (kv : FdbKv)
      → Filled db m info (e ∷ items)
      → (r : Bool × Bool × FdbKv) × (iterate_kvs
            (find_kv_cb key)
            (suc db.sec_size)
            info
            (record kv { start = add32 info.addr sector_hdr_data_size })
            false
            db
          ≡ some (r, db))
        × Result (find_item key (info.addr + 16) (e ∷ items)) r
  block_search plain info e items kv filled =
      let room = filled.room in
      let inside = filled.inside in
      let small = filled.small in
      let few = items_fewer (e ∷ items) in
      let first : add32 info.addr sector_hdr_data_size ≡ info.addr + 16 = omega arith in
      (
        visit_items (search_cb key) (info.addr + 16) e items false,
        iterate_kvs-items (find_kv_cb key) (search_cb key) (find_kv_cb-search_cb key db) filled e
            items (suc db.sec_size) (info.addr + 16)
            (record kv { start = add32 info.addr sector_hdr_data_size }) false (omega arith) first
            (omega arith) refl filled.items_at,
        visit-find_item key (info.addr + 16) e items plain,
      )

  -- A sector with KVs: the search ends in it, ends behind it, or goes on.
  pub sector_hit :
      (fuel addr traversed : ℕ) (old info : KvdbSecInfo) (kv found : FdbKv)
      → addr % db.sec_size ≡ 0
      → get_sector_from_cache db.sector_cache_table addr ≡ some info
      → has_kvs info ≡ true
      → iterate_kvs
          (find_kv_cb key)
          (suc db.sec_size)
          info
          (record kv { start = add32 info.addr sector_hdr_data_size })
          false
          db
        ≡ some ((true, true, found), db)
      → iterate_sector_kvs (find_kv_cb key) (suc fuel) addr traversed old kv false db
        ≡ some ((true, found), db)
  unfolding iterate_sector_kvs is_ok
  sector_hit fuel addr traversed old info kv found aligned cached used inner =
      rw (iterate_sector_kvs, ◌>>=◌, read_cached db addr info old aligned cached, used, inner) refl

  -- A sector without the KV, the last one and one with another behind it.
  pub sector_last :
      (fuel addr traversed : ℕ) (old info : KvdbSecInfo) (kv left : FdbKv)
      → addr % db.sec_size ≡ 0
      → get_sector_from_cache db.sector_cache_table addr ≡ some info
      → has_kvs info ≡ true
      → iterate_kvs
          (find_kv_cb key)
          (suc db.sec_size)
          info
          (record kv { start = add32 info.addr sector_hdr_data_size })
          false
          db
        ≡ some ((false, false, left), db)
      → get_next_sector_addr db.sec_size db.max_size info (add32 traversed db.sec_size)
        ≡ failed_addr
      → iterate_sector_kvs (find_kv_cb key) (suc fuel) addr traversed old kv false db
        ≡ some ((false, left), db)
  unfolding iterate_sector_kvs is_ok next_sector
  sector_last fuel addr traversed old info kv left aligned cached used inner last =
      rw (iterate_sector_kvs, ◌>>=◌, read_cached db addr info old aligned cached, used, inner, last)
        refl

  pub sector_on :
      (fuel addr traversed next : ℕ) (old info : KvdbSecInfo) (kv left : FdbKv)
      → addr % db.sec_size ≡ 0
      → get_sector_from_cache db.sector_cache_table addr ≡ some info
      → has_kvs info ≡ true
      → iterate_kvs
          (find_kv_cb key)
          (suc db.sec_size)
          info
          (record kv { start = add32 info.addr sector_hdr_data_size })
          false
          db
        ≡ some ((false, false, left), db)
      → get_next_sector_addr db.sec_size db.max_size info (add32 traversed db.sec_size) ≡ next
      → (next == failed_addr) ≡ false
      → iterate_sector_kvs (find_kv_cb key) (suc fuel) addr traversed old kv false db
        ≡ iterate_sector_kvs
            (find_kv_cb key)
            fuel
            next
            (add32 traversed db.sec_size)
            info
            left
            false
            db
  unfolding iterate_sector_kvs is_ok next_sector
  sector_on fuel addr traversed next old info kv left aligned cached used inner step there =
      rw
        (
          iterate_sector_kvs,
          ◌>>=◌,
          read_cached db addr info old aligned cached,
          used,
          inner,
          step,
          there,
          step,
        )
        refl

  -- The same for a sector that is not in use.
  pub unused_last :
      (fuel addr traversed : ℕ) (old info : KvdbSecInfo) (kv : FdbKv)
      → addr % db.sec_size ≡ 0
      → get_sector_from_cache db.sector_cache_table addr ≡ some info
      → has_kvs info ≡ false
      → get_next_sector_addr db.sec_size db.max_size info (add32 traversed db.sec_size)
        ≡ failed_addr
      → iterate_sector_kvs (find_kv_cb key) (suc fuel) addr traversed old kv false db
        ≡ some ((false, kv), db)
  unfolding iterate_sector_kvs is_ok next_sector
  unused_last fuel addr traversed old info kv aligned cached unused last =
      rw (iterate_sector_kvs, ◌>>=◌, read_cached db addr info old aligned cached, unused, last) refl

  pub unused_on :
      (fuel addr traversed next : ℕ) (old info : KvdbSecInfo) (kv : FdbKv)
      → addr % db.sec_size ≡ 0
      → get_sector_from_cache db.sector_cache_table addr ≡ some info
      → has_kvs info ≡ false
      → get_next_sector_addr db.sec_size db.max_size info (add32 traversed db.sec_size) ≡ next
      → (next == failed_addr) ≡ false
      → iterate_sector_kvs (find_kv_cb key) (suc fuel) addr traversed old kv false db
        ≡ iterate_sector_kvs
            (find_kv_cb key)
            fuel
            next
            (add32 traversed db.sec_size)
            info
            kv
            false
            db
  unfolding iterate_sector_kvs is_ok next_sector
  unused_on fuel addr traversed next old info kv aligned cached unused step there =
      rw
        (
          iterate_sector_kvs,
          ◌>>=◌,
          read_cached db addr info old aligned cached,
          unused,
          step,
          there,
          step,
        )
        refl

-- What the search in the database comes to.
unfoldable pub Finds : FdbKvdb → Option (ℕ × Item) → Option ((Bool × FdbKv) × FdbKvdb) → Type 0
Finds db none r = (kv : FdbKv) × (r ≡ some ((false, kv), db))
Finds db (some (addr, e)) r = r ≡ some ((true, kv_of addr e), db)
