-- ===== src/Kv/Items/Get.antt =====
-- `fdb_kv_get_blob` of FlashDB/src/fdb_kvdb.c as the lookup in a list of KVs.
use Prim.Native.Nat.{min}
use flashdb_ko.Prelude.{
  ℕ, ◌+◌, ◌≤◌, ◌≡◌, refl, sym, ◌∙◌, subst, List, ◌∷◌, ◌++◌, length, take, drop, Option, none, some,
  true, false, inl, inr, clip_lem, Option-cases, arith,
}
use flashdb_ko.Storage.Laws.{Ready, flash_read-front, flash_fetch_lem}
use flashdb_ko.Kv.Types.{FdbKv, FdbKvdb, KvCacheNode, blank_kv}
use flashdb_ko.Kv.State.{◌>>=◌}
use flashdb_ko.Kv.KvCache.{name_crc_of, get_kv_from_cache, update_kv_cache}
use flashdb_ko.Kv.Find.{find_kv_no_cache, get_kv, fdb_kv_get_blob}
use flashdb_ko.Kv.Find.Written.{fdb_kv_get_blob-ready}
use flashdb_ko.Kv.Find.Cached.{looked_up, get_kv-cached}
use flashdb_ko.Kv.Create.ReadBack.{read_kv-ItemAt}
use flashdb_ko.Kv.KvCache.Miss.{get_kv_from_cache-missed}
use flashdb_ko.Kv.Items.Values.{
  get_value, all_items, Present, find_block-Present, find_block-absent,
}
use flashdb_ko.Kv.Items.{Item, kv_of}
use flashdb_ko.Kv.Items.Search.{NoNul}
use flashdb_ko.Kv.Items.Blocks.{Block, Blocks, find_block, Finds}
use flashdb_ko.Kv.Items.Lookup.{find_kv_no_cache-Finds}

-- What a read of the value into the buffer gives: the number of bytes, the buffer, and the length
-- of the value.
unfoldable pub answer : List ℕ → Option (List ℕ) → ℕ × List ℕ × ℕ
answer buf none = (0, buf, 0)
answer buf (some value) =
    let n = min (length value) (length buf) in (n, take n value ++ drop n buf, length value)

module _ (db : FdbKvdb) (m : ℕ → ℕ) (key buf : List ℕ) (ready : Ready db.flash m) where
  -- A run of `get_kv` that gives the answer for the value, and changes at most the KV cache.
  abbrev Gives : Option (List ℕ) → Type 0
  Gives value =
      (table : List KvCacheNode) × (get_kv key buf db
        ≡ some (answer buf value, record db { kv_cache_table = table }))

  get_kv-hit :
      (all : List Item) (a : ℕ) (g : Item)
      → (get_kv_from_cache db.flash key (name_crc_of key) db.kv_cache_table).0 ≡ some a
      → Present db m key all a g
      → Gives (some g.value)
  unfolding answer
  get_kv-hit all a g hit (at, valid, below, short, value) =
      let behind = record db { kv_cache_table = looked_up db key } in
      let read =
        read_kv-ItemAt behind ready a g valid at (omega (arith, below)) (omega (arith, short))
          (record blank_kv { start = a }) refl in
      let fetched =
        flash_fetch_lem ready (a + 24 + length g.key) (length g.value) (omega (arith, below))
        ∙ at.value_is in
      (
        looked_up db key,
        rw fetched at
            (get_kv-cached db key a hit ready (kv_of a g) buf read (omega (arith, below))),
      )

  get_kv-found :
      (all : List Item) (a : ℕ) (g : Item)
      → (get_kv_from_cache db.flash key (name_crc_of key) db.kv_cache_table).0 ≡ none
      → find_kv_no_cache key blank_kv db ≡ some ((true, kv_of a g), db)
      → Present db m key all a g
      → Gives (some g.value)
  unfolding answer get_kv
  get_kv-found all a g miss run (at, valid, below, short, value) =
      let fetched =
        flash_fetch_lem ready (a + 24 + length g.key) (length g.value) (omega (arith, below))
        ∙ at.value_is in
      (
        update_kv_cache db.kv_cache_table (name_crc_of key) a,
        rw
            (
              get_kv,
              get_kv_from_cache-missed db.flash key (name_crc_of key) db.kv_cache_table miss,
              ◌>>=◌,
              run,
              clip_lem (length g.value) (length buf),
              flash_read-front ready (a + 24 + length g.key) (length g.value) buf
                  (omega (arith, below)),
              fetched,
            )
            refl,
      )

  get_kv-absent :
      (left : FdbKv)
      → (get_kv_from_cache db.flash key (name_crc_of key) db.kv_cache_table).0 ≡ none
      → find_kv_no_cache key blank_kv db ≡ some ((false, left), db)
      → Gives none
  unfolding answer get_kv
  get_kv-absent left miss run = (
    db.kv_cache_table,
    rw
        (
          get_kv,
          get_kv_from_cache-missed db.flash key (name_crc_of key) db.kv_cache_table miss,
          ◌>>=◌,
          run,
        )
        refl,
  )

  get_kv-searched :
      (b : Block) (blocks : List Block)
      → NoNul key
      → length blocks ≤ db.max_size
      → Blocks db m db.oldest_addr 0 b blocks
      → (get_kv_from_cache db.flash key (name_crc_of key) db.kv_cache_table).0 ≡ none
      → Gives (get_value key (all_items (b ∷ blocks)))
  unfolding Finds
  get_kv-searched b blocks plain few held miss =
      let finds = find_kv_no_cache-Finds key plain db m b blocks blank_kv few held in
      elim (Option-cases (find_block key (b ∷ blocks))) [
        | inl absent ↦
            let (left, run) : Finds db none (find_kv_no_cache key blank_kv db) =
              rw absent at finds in
            subst Gives (sym (find_block-absent db m key (b ∷ blocks) absent))
              (get_kv-absent left miss run)
        | inr ((a, g), found) ↦
            let run : Finds db (some (a, g)) (find_kv_no_cache key blank_kv db) =
              rw found at finds in
            let present = find_block-Present db m key blocks b db.oldest_addr 0 a g held found in
            subst Gives (sym present.4) (get_kv-found (all_items (b ∷ blocks)) a g miss run present)
      ]

  -- What the cache has for the name, if anything, is the address of the KV that counts.
  abbrev pub Coherent : List Block → Type 0
  Coherent blocks =
      (a : ℕ)
      → (get_kv_from_cache db.flash key (name_crc_of key) db.kv_cache_table).0 ≡ some a
      → (g : Item) × (find_block key blocks ≡ some (a, g))

  get_kv-get_value :
      (b : Block) (blocks : List Block)
      → NoNul key
      → length blocks ≤ db.max_size
      → Blocks db m db.oldest_addr 0 b blocks
      → Coherent (b ∷ blocks)
      → Gives (get_value key (all_items (b ∷ blocks)))
  get_kv-get_value b blocks plain few held coherent =
      elim (Option-cases (get_kv_from_cache db.flash key (name_crc_of key) db.kv_cache_table).0) [
        | inl miss ↦ get_kv-searched b blocks plain few held miss
        | inr (a, hit) ↦
            let (g, found) = coherent a hit in
            let present = find_block-Present db m key blocks b db.oldest_addr 0 a g held found in
            subst Gives (sym present.4) (get_kv-hit (all_items (b ∷ blocks)) a g hit present)
      ]

  -- The database is started, the name has no NUL, and the KV cache has either nothing for the name
  -- or the right address. The sectors, at most `max_size` and one, hold the listed KVs, from the
  -- oldest sector on, each at a multiple of the sector size, and each is in the sector cache with
  -- its header checked, so that there are at most eight and no header is read from the flash: a
  -- cached sector that is in use or full holds one KV or more, with more than 48 erased bytes
  -- behind them, where the search for the next KV ends, and any other holds none. Then
  -- `fdb_kv_get_blob` ends, and it answers what the list of all KVs has for the name: the value of
  -- the first KV of the name that is written and not deleted, cut to the buffer, or nothing. It
  -- changes nothing but the KV cache.
  pub fdb_kv_get_blob-get_value :
      (b : Block) (blocks : List Block) (saved_len : ℕ)
      → NoNul key
      → db.init_ok ≡ true
      → length blocks ≤ db.max_size
      → Blocks db m db.oldest_addr 0 b blocks
      → Coherent (b ∷ blocks)
      → (table : List KvCacheNode) × (fdb_kv_get_blob key buf saved_len db
          ≡ some (
            answer buf (get_value key (all_items (b ∷ blocks))),
            record db { kv_cache_table = table },
          ))
  fdb_kv_get_blob-get_value b blocks saved_len plain ok few held coherent =
      let (table, run) : Gives (get_value key (all_items (b ∷ blocks))) =
        get_kv-get_value b blocks plain few held coherent in
      (table, fdb_kv_get_blob-ready db key buf saved_len ok ∙ run)
