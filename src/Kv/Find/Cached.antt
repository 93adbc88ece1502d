-- ===== src/Kv/Find/Cached.antt =====
-- The lookup of a KV through the cache: `find_kv` and `get_kv` of FlashDB/src/fdb_kvdb.c where
-- `get_kv_from_cache` finds the address.
use Prim.Native.Nat.{min}
use flashdb_ko.Prelude.{
  ℕ, ◌+◌, ◌≤◌, ◌≡◌, refl, List, [], ◌∷◌, ◌++◌, take, drop, length, some, true, clip_lem, arith,
}
use flashdb_ko.Fal.{strn_eq}
use flashdb_ko.Storage.{no_err, flash_fetch}
use flashdb_ko.Storage.Laws.{Ready, flash_read-front}
use flashdb_ko.Kv.Types.{FdbKv, FdbKvdb, KvCacheNode, blank_kv}
use flashdb_ko.Kv.State.{◌>>=◌}
use flashdb_ko.Kv.KvCache.{name_crc_of, get_kv_from_cache}
use flashdb_ko.Kv.Read.{read_kv}
use flashdb_ko.Kv.Find.{get_kv}

-- A name is that of a text that starts with it.
pub strn_eq-append : (name rest : List ℕ) → strn_eq name (name ++ rest) (length name) ≡ true
unfolding strn_eq
strn_eq-append [] rest = refl
strn_eq-append (x ∷ name) rest = ground (arith, strn_eq-append name rest)

-- The entries of the cache after a lookup.
abbrev pub looked_up : FdbKvdb → List ℕ → List KvCacheNode
looked_up db key = (get_kv_from_cache db.flash key (name_crc_of key) db.kv_cache_table).1

module _ (db : FdbKvdb) (key : List ℕ) (addr : ℕ)
    (hit : (get_kv_from_cache db.flash key (name_crc_of key) db.kv_cache_table).0 ≡ some addr) where
  abbrev pub behind : FdbKvdb
  behind = record db { kv_cache_table = looked_up db key }

  pub get_kv-cached :
      {m : ℕ → ℕ} (ready : Ready db.flash m) (found : FdbKv) (buf : List ℕ)
      → read_kv (record blank_kv { start = addr }) behind ≡ some ((no_err, found), behind)
      → found.value + found.value_len ≤ db.flash.part.len
      → let n = min found.value_len (length buf) in
        let value = flash_fetch db.flash found.value found.value_len in
        get_kv key buf db ≡ some ((n, take n value ++ drop n buf, found.value_len), behind)
  unfolding get_kv
  get_kv-cached ready found buf read inside =
      let n = min found.value_len (length buf) in
      rw
        (
          get_kv,
          hit,
          ◌>>=◌,
          read,
          clip_lem found.value_len (length buf),
          flash_read-front ready found.value found.value_len buf inside,
        )
        refl
