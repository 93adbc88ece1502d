-- ===== src/Kv/KvCache/Laws.antt =====
-- The KV cache of FlashDB/src/fdb_kvdb.c finds the address that was stored for a name.
use flashdb_ko.Prelude.{
  ℕ, zero, suc, ◌+◌, ◌<◌, ◌≤◌, ◌≡◌, ◌≢◌, refl, ◌⊎◌, inl, inr, List, [], ◌∷◌, some, true, false,
  ◌==◌, eq→==, ne→==_false, ltb, if◌then◌else◌, length, set, arith, All, lt→ltb, le→ltb_false,
  if-both, not, ◌&&◌,
}
use native.Mathlib.Decide.{ℕ_discrete, dec_lt}
use flashdb_ko.Prelude.Words.{failed_addr}
use flashdb_ko.Fal.{strn_eq}
use flashdb_ko.Storage.{Flash}
use flashdb_ko.Kv.Types.{KvCacheNode, fdb_kv_cache_table_size}
use flashdb_ko.Kv.KvCache.{
  saved_name, KvScan, less_active, keep_node, scan_store, new_node, update_kv_cache,
  get_kv_from_cache,
}

-- The first entry of the CRC has the address.
abbrev Leads : ℕ → ℕ → List KvCacheNode → Type 0
Leads crc addr [] = ⊥
Leads crc addr (n ∷ nodes) =
    ((n.name_crc ≡ crc) × (n.addr ≡ addr)) ⊎ ((n.name_crc ≢ crc) × Leads crc addr nodes)

-- No entry has the CRC.
abbrev Absent : ℕ → List KvCacheNode → Type 0
Absent crc [] = Unit
Absent crc (n ∷ nodes) = (n.name_crc ≢ crc) × Absent crc nodes

-- The index is the old one, or that of one of `len` entries from `i` on.
abbrev KeptOrIn : ℕ → ℕ → ℕ → ℕ → Type 0
KeptOrIn old i len new = (new ≡ old) ⊎ ((i ≤ new) × (new < i + len))

-- What the loop of `update_kv_cache` has when it ends with `s`.
data StoreView (crc addr i len e mi : ℕ) (s : KvScan) : Type 0 where
  found : s.returned ≡ true → Leads crc addr s.nodes → StoreView crc addr i len e mi s
  absent :
      s.returned ≡ false
      → Absent crc s.nodes
      → length s.nodes ≡ len
      → KeptOrIn e i len s.empty_index
      → KeptOrIn mi i len s.min_activity_index
      → StoreView crc addr i len e mi s

abbrev Indexed : KvScan → Type 0
Indexed s = (s.returned ≡ true) ⊎ ((s.empty_index < 64) ⊎ (s.min_activity_index < 64))

module _ (crc addr : ℕ) where
  keep-view :
      (n : KvCacheNode) (i len e e' mi mi' : ℕ) (s : KvScan)
      → n.name_crc ≢ crc
      → (e' ≡ e) ⊎ (e' ≡ i)
      → (mi' ≡ mi) ⊎ (mi' ≡ i)
      → StoreView crc addr (i + 1) len e' mi' s
      → StoreView crc addr i (suc len) e mi (keep_node n s)
  keep-view n i len e e' mi mi' s ne p q (found r l) = found r (inr (ne, l))
  keep-view n i len e e' mi mi' s ne p q (absent r a size k l) =
      absent r (ne, a) (omega arith) (ground arith) (ground arith)

  crc_kept : (n : KvCacheNode) → n.name_crc ≢ crc → (less_active n).name_crc ≢ crc
  unfolding less_active
  crc_kept n h = h

  scan_store-view :
      (table : List KvCacheNode) (i e mi ma : ℕ)
      → StoreView crc addr i (length table) e mi (scan_store crc addr table i e mi ma)
  unfolding scan_store
  scan_store-view [] i e mi ma = absent refl tt refl (inl refl) (inl refl)
  scan_store-view (n ∷ table) i e mi ma = elim (ℕ_discrete n.name_crc crc) [
    | yes same ↦ rw (eq→== n.name_crc crc same) (found refl (inl (same, refl)))
    | no other ↦
        let view = StoreView crc addr i (suc (length table)) e mi in
        let lowest = ltb (less_active n).active ma in
        let mi' = if lowest then i else mi in
        let ma' = if lowest then (less_active n).active else ma in
        rw (ne→==_false n.name_crc crc other) (
          if-both view (n.addr == failed_addr && e == fdb_kv_cache_table_size)
            (keep-view n i (length table) e i mi mi _ other (inr refl) (inl refl)
              (scan_store-view table (i + 1) i mi ma))
            (if-both view (not (n.addr == failed_addr))
              (keep-view (less_active n) i (length table) e e mi mi' _ (crc_kept n other) (inl refl)
                (if-both (λ t. (t ≡ mi) ⊎ (t ≡ i)) lowest (inr refl) (inl refl))
                (scan_store-view table (i + 1) e mi' ma'))
              (keep-view n i (length table) e e mi mi _ other (inl refl) (inl refl)
                (scan_store-view table (i + 1) e mi ma))))
  ]

  Indexed-rest :
      (n : KvCacheNode) (table : List KvCacheNode) (i e mi ma : ℕ)
      → i + length table ≤ 64
      → (e < 64) ⊎ (mi < 64)
      → Indexed (keep_node n (scan_store crc addr table i e mi ma))
  Indexed-rest n table i e mi ma h p = elim (scan_store-view table i e mi ma) [
    | found r l ↦ inl r
    | absent r a size (inl k) (inl l) ↦ ground arith
    | absent r a size (inl k) (inr l) ↦ inr (inr (omega arith))
    | absent r a size (inr k) l ↦ inr (inl (omega arith))
  ]

  less_active-low :
      (n : KvCacheNode) → n.active < 0x1_0000 → ltb (less_active n).active 0xffff ≡ true
  unfolding less_active
  less_active-low n h = ground arith

  -- On a table whose counters are 16 bits wide, one of the two indices is set, if the loop ends.
  scan_store-Indexed :
      (n : KvCacheNode) (table : List KvCacheNode)
      → n.active < 0x1_0000
      → length table < 64
      → Indexed (scan_store crc addr (n ∷ table) 0 64 64 0xffff)
  unfolding scan_store
  scan_store-Indexed n table small size =
      if-both Indexed (n.name_crc == crc) (inl refl) (elim (ℕ_discrete n.addr failed_addr) [
        | yes free ↦
            rw (eq→== n.addr failed_addr free)
              (Indexed-rest n table 1 0 64 0xffff (omega arith) (inl (omega arith)))
        | no used ↦
            rw (ne→==_false n.addr failed_addr used, less_active-low n small)
              (Indexed-rest (less_active n) table 1 64 0 (less_active n).active (omega arith)
                (inr (omega arith)))
      ])

  table-Indexed :
      (table : List KvCacheNode)
      → All (λ n. n.active < 0x1_0000) table
      → 0 < length table
      → length table ≤ 64
      → Indexed (scan_store crc addr table 0 64 64 0xffff)
  table-Indexed [] counters h size = absurd (omega arith)
  table-Indexed (n ∷ table) counters h size = scan_store-Indexed n table counters.0 (omega arith)

  Leads-set :
      (nodes : List KvCacheNode) (k : ℕ)
      → Absent crc nodes
      → k < length nodes
      → Leads crc addr (set nodes k (new_node crc addr))
  Leads-set [] k a h = absurd (omega arith)
  Leads-set (n ∷ nodes) zero a h = inl (refl, refl)
  Leads-set (n ∷ nodes) (suc k) a h = inr (a.0, Leads-set nodes k a.1 (omega arith))

  -- The lookup passes over the entries of other CRCs.
  Leads-get :
      (fl : Flash) (name : List ℕ) (nodes : List KvCacheNode)
      → addr ≢ failed_addr
      → strn_eq name (saved_name fl addr) (length name) ≡ true
      → Leads crc addr nodes
      → (get_kv_from_cache fl name crc nodes).0 ≡ some addr
  unfolding get_kv_from_cache
  Leads-get fl name [] used match l = absurd l
  Leads-get fl name (n ∷ nodes) used match (inl (p, q)) =
      rw (eq→== n.name_crc crc p, q, match, ne→==_false addr failed_addr used) refl
  Leads-get fl name (n ∷ nodes) used match (inr (p, l)) =
      ground (arith, Leads-get fl name nodes used match l)

  module _ (table : List KvCacheNode) (counters : All (λ n. n.active < 0x1_0000) table)
      (some_entry : 0 < length table) (size : length table ≤ fdb_kv_cache_table_size)
      (used : addr ≢ failed_addr) where
    update_kv-Leads : Leads crc addr (update_kv_cache table crc addr)
    unfolding update_kv_cache
    update_kv-Leads =
        elim (scan_store-view table 0 fdb_kv_cache_table_size fdb_kv_cache_table_size 0xffff) [
          | found r l ↦ rw (update_kv_cache, ne→==_false addr failed_addr used, r) l
          | absent r a len k l ↦
              let s = scan_store crc addr table 0 64 64 0xffff in
              let not_failed : (addr == failed_addr) ≡ false = ne→==_false addr failed_addr used in
              elim (dec_lt s.empty_index 64) [
                | yes p ↦
                    rw (update_kv_cache, not_failed, r, lt→ltb s.empty_index 64 p)
                      (Leads-set s.nodes s.empty_index a (ground arith))
                | no q ↦
                    let p : s.min_activity_index < 64 =
                      ground (arith, table-Indexed table counters) in
                    rw
                      (
                        update_kv_cache,
                        not_failed,
                        r,
                        le→ltb_false s.empty_index 64 (omega arith),
                        lt→ltb s.min_activity_index 64 p,
                      )
                      (Leads-set s.nodes s.min_activity_index a (ground arith))
              ]
        ]

    -- After the address of a KV was stored in a table of 1 to 64 entries with 16-bit counters, full
    -- or not, the lookup of a name of that CRC finds it, if the name is the one stored behind the
    -- header at that address.
    pub get_kv-update_kv :
        (fl : Flash) (name : List ℕ)
        → strn_eq name (saved_name fl addr) (length name) ≡ true
        → (get_kv_from_cache fl name crc (update_kv_cache table crc addr)).0 ≡ some addr
    get_kv-update_kv fl name match =
        Leads-get fl name (update_kv_cache table crc addr) used match update_kv-Leads
