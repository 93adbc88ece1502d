-- ===== src/Kv/Items/Lookup.antt =====
-- `find_kv_no_cache` of FlashDB/src/fdb_kvdb.c finds what the list of the KVs promises.
use flashdb_ko.Prelude.{
  ℕ, zero, suc, ◌+◌, ◌<◌, ◌≤◌, ◌≡◌, refl, sym, ap, ◌∙◌, subst, List, [], ◌∷◌, length, Option, none,
  some, Bool, true, false, ◌==◌, inl, inr, ne→==_false, Option-cases, arith,
}
use flashdb_ko.Prelude.Words.{add32, failed_addr}
use flashdb_ko.Kv.Types.{FdbKv, FdbKvdb, KvdbSecInfo, blank_sector}
use flashdb_ko.Kv.Iterate.{iterate_sector_kvs}
use flashdb_ko.Kv.Find.{find_kv_cb, find_kv_no_cache}
use flashdb_ko.Kv.Items.{Item, kv_of}
use flashdb_ko.Kv.Items.Sector.{Filled}
use flashdb_ko.Kv.Items.Search.{find_item, NoNul, Result}
use flashdb_ko.Kv.Items.Blocks.{
  Block, BlockAt, behind_block, Blocks, find_block, Finds, block_search, sector_hit, sector_last,
  sector_on, unused_last, unused_on,
}

triple : (r : Bool × Bool × FdbKv) → r.0 ≡ false → r.1 ≡ false → r ≡ (false, false, r.2)
triple (a, b, c) p q = rw (p, q) refl

pub find_block-here :
    (key : List ℕ) (b : Block) (blocks : List Block) (found : ℕ × Item)
    → find_item key (b.info.addr + 16) b.items ≡ some found
    → find_block key (b ∷ blocks) ≡ some found
unfolding find_block
find_block-here key b blocks found hit = rw (find_block, hit) refl

pub find_block-behind :
    (key : List ℕ) (b : Block) (blocks : List Block)
    → find_item key (b.info.addr + 16) b.items ≡ none
    → find_block key (b ∷ blocks) ≡ find_block key blocks
unfolding find_block
find_block-behind key b blocks miss = rw (find_block, miss) refl

pub find_block-last :
    (key : List ℕ) (b : Block)
    → find_item key (b.info.addr + 16) b.items ≡ none
    → find_block key (b ∷ []) ≡ none
unfolding find_block
find_block-last key b miss = rw (find_block, miss) refl

module _ (key : List ℕ) (plain : NoNul key) (db : FdbKvdb) (m : ℕ → ℕ) where
  -- What the search in one sector comes to.
  data OneBlock (fuel addr traversed : ℕ) (old : KvdbSecInfo) (kv : FdbKv) (b : Block)
      : Type 0 where
    hit :
        (a : ℕ) (e : Item)
        → find_item key (b.info.addr + 16) b.items ≡ some (a, e)
        → iterate_sector_kvs (find_kv_cb key) (suc fuel) addr traversed old kv false db
          ≡ some ((true, kv_of a e), db)
        → OneBlock fuel addr traversed old kv b
    miss :
        (left : FdbKv)
        → find_item key (b.info.addr + 16) b.items ≡ none
        → (behind_block db traversed b ≡ failed_addr
            → iterate_sector_kvs (find_kv_cb key) (suc fuel) addr traversed old kv false db
              ≡ some ((false, left), db))
        → ((behind_block db traversed b == failed_addr) ≡ false
            → iterate_sector_kvs (find_kv_cb key) (suc fuel) addr traversed old kv false db
              ≡ iterate_sector_kvs
                  (find_kv_cb key)
                  fuel
                  (behind_block db traversed b)
                  (add32 traversed db.sec_size)
                  b.info
                  left
                  false
                  db)
        → OneBlock fuel addr traversed old kv b

  one_block :
      (fuel addr traversed : ℕ) (old : KvdbSecInfo) (kv : FdbKv) (b : Block)
      → BlockAt db m addr b
      → OneBlock fuel addr traversed old kv b
  unfolding Result find_item
  one_block fuel addr traversed old kv b at = elim at.content [
    | inl (e, items, eq, used, filled) ↦
        let (r, inner, res) =
          block_search key db plain b.info e items kv
            (subst (λ (l : List Item). Filled db m b.info l) eq filled) in
        let res' : Result (find_item key (b.info.addr + 16) b.items) r =
          subst (λ (l : List Item). Result (find_item key (b.info.addr + 16) l) r) (sym eq) res in
        elim (Option-cases (find_item key (b.info.addr + 16) b.items)) [
          | inr ((a, g), there) ↦
              let is_found : r ≡ (true, true, kv_of a g) =
                subst (λ (o : Option (ℕ × Item)). Result o r) there res' in
              OneBlock.hit a g there (
                sector_hit key db fuel addr traversed old b.info kv (kv_of a g) at.aligned at.cached
                  used (inner ∙ ap (λ (x : Bool × Bool × FdbKv). some (x, db)) is_found))
          | inl absent ↦
              let not_found : (r.0 ≡ false) × (r.1 ≡ false) =
                subst (λ (o : Option (ℕ × Item)). Result o r) absent res' in
              let left =
                inner
                ∙ ap (λ (x : Bool × Bool × FdbKv). some (x, db))
                    (triple r not_found.0 not_found.1) in
              OneBlock.miss r.2 absent
                (sector_last key db fuel addr traversed old b.info kv r.2 at.aligned at.cached used
                  left)
                (sector_on key db fuel addr traversed (behind_block db traversed b) old b.info kv
                  r.2 at.aligned at.cached used left refl)
        ]
    | inr (empty, unused) ↦
        OneBlock.miss kv (ap (λ (l : List Item). find_item key (b.info.addr + 16) l) empty)
          (unused_last key db fuel addr traversed old b.info kv at.aligned at.cached unused)
          (unused_on key db fuel addr traversed (behind_block db traversed b) old b.info kv
            at.aligned at.cached unused refl)
  ]

  Finds-hit :
      (a : ℕ) (e : Item) (r : Option ((Bool × FdbKv) × FdbKvdb))
      → r ≡ some ((true, kv_of a e), db)
      → Finds db (some (a, e)) r
  unfolding Finds
  Finds-hit a e r run = run

  Finds-none :
      (left : FdbKv) (r : Option ((Bool × FdbKv) × FdbKvdb))
      → r ≡ some ((false, left), db)
      → Finds db none r
  unfolding Finds
  Finds-none left r e = (left, e)

  -- The loop over the sectors.
  iterate_sector_kvs-Finds :
      (blocks : List Block) (b : Block) (fuel addr traversed : ℕ) (old : KvdbSecInfo) (kv : FdbKv)
      → length blocks < fuel
      → Blocks db m addr traversed b blocks
      → Finds db
          (find_block key (b ∷ blocks))
          (iterate_sector_kvs (find_kv_cb key) fuel addr traversed old kv false db)
  unfolding Blocks
  iterate_sector_kvs-Finds blocks b zero addr traversed old kv more held = absurd (omega arith)
  iterate_sector_kvs-Finds [] b (suc fuel) addr traversed old kv more (at, last) =
      elim (one_block fuel addr traversed old kv b at) [
        | hit a e there run ↦
            subst
              (λ (o : Option (ℕ × Item)).
                Finds db o
                  (iterate_sector_kvs (find_kv_cb key) (suc fuel) addr traversed old kv false db))
              (sym (find_block-here key b [] (a, e) there))
              (Finds-hit a e
                (iterate_sector_kvs (find_kv_cb key) (suc fuel) addr traversed old kv false db) run)
        | miss left absent ends goes ↦
            subst
              (λ (o : Option (ℕ × Item)).
                Finds db o
                  (iterate_sector_kvs (find_kv_cb key) (suc fuel) addr traversed old kv false db))
              (sym (find_block-last key b absent))
              (Finds-none left
                (iterate_sector_kvs (find_kv_cb key) (suc fuel) addr traversed old kv false db)
                (ends last))
      ]
  iterate_sector_kvs-Finds (c ∷ blocks) b (suc fuel) addr traversed old kv more (at, on, rest) =
      elim (one_block fuel addr traversed old kv b at) [
        | hit a e there run ↦
            subst
              (λ (o : Option (ℕ × Item)).
                Finds db o
                  (iterate_sector_kvs (find_kv_cb key) (suc fuel) addr traversed old kv false db))
              (sym (find_block-here key b (c ∷ blocks) (a, e) there))
              (Finds-hit a e
                (iterate_sector_kvs (find_kv_cb key) (suc fuel) addr traversed old kv false db) run)
        | miss left absent ends goes ↦
            subst
              (λ (o : Option (ℕ × Item)).
                Finds db o
                  (iterate_sector_kvs (find_kv_cb key) (suc fuel) addr traversed old kv false db))
              (sym (find_block-behind key b (c ∷ blocks) absent))
              (subst (Finds db (find_block key (c ∷ blocks)))
                (sym (goes (ne→==_false (behind_block db traversed b) failed_addr on)))
                (iterate_sector_kvs-Finds blocks c fuel (behind_block db traversed b)
                  (add32 traversed db.sec_size) b.info left (omega arith) rest))
      ]

  -- The name has no NUL. The sectors, at most `max_size` and one, hold the listed KVs, from the
  -- oldest sector on, each at a multiple of the sector size, and each is in the sector cache with
  -- its header checked, so that there are at most eight and no header is read from the flash: a
  -- cached sector that is in use or full holds one KV or more, with more than 48 erased bytes
  -- behind them, where the search for the next KV ends, and any other holds none. Then
  -- `find_kv_no_cache` ends, changes nothing, and finds exactly the first KV of that name, in the
  -- order of the sectors, that is written and not deleted, if there is one.
  pub find_kv_no_cache-Finds :
      (b : Block) (blocks : List Block) (kv : FdbKv)
      → length blocks ≤ db.max_size
      → Blocks db m db.oldest_addr 0 b blocks
      → Finds db (find_block key (b ∷ blocks)) (find_kv_no_cache key kv db)
  unfolding find_kv_no_cache
  find_kv_no_cache-Finds b blocks kv few held =
      subst (Finds db (find_block key (b ∷ blocks))) (sym refl) (
        iterate_sector_kvs-Finds blocks b (suc db.max_size) db.oldest_addr 0 blank_sector kv
          (omega arith) held)
