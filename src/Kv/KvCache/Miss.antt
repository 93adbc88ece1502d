-- ===== src/Kv/KvCache/Miss.antt =====
-- `get_kv_from_cache` of FlashDB/src/fdb_kvdb.c where it finds nothing.
use mathlib.Core.Option.{some-ne-none}
use flashdb_ko.Prelude.{
  ℕ, ◌≡◌, refl, sym, ap, ◌∙◌, List, [], ◌∷◌, length, Option, none, some, Bool, true, false, ◌&&◌,
  Bool-cases, inl, inr,
}
use flashdb_ko.Fal.{strn_eq}
use flashdb_ko.Storage.{Flash}
use flashdb_ko.Kv.Types.{KvCacheNode}
use flashdb_ko.Kv.KvCache.{saved_name, is_candidate, more_active, get_kv_from_cache}

module _ (fl : Flash) (name : List ℕ) (name_crc : ℕ) (n : KvCacheNode)
    (nodes : List KvCacheNode) where
  abbrev names_it : Bool
  names_it = is_candidate name_crc n && strn_eq name (saved_name fl n.addr) (length name)

  get_kv_from_cache-hit :
      names_it ≡ true
      → get_kv_from_cache fl name name_crc (n ∷ nodes) ≡ (some n.addr, more_active n ∷ nodes)
  unfolding get_kv_from_cache
  get_kv_from_cache-hit hit = rw (get_kv_from_cache, hit) refl

  get_kv_from_cache-other :
      names_it ≡ false
      → get_kv_from_cache fl name name_crc (n ∷ nodes) ≡ (
        (get_kv_from_cache fl name name_crc nodes).0,
        n ∷ (get_kv_from_cache fl name name_crc nodes).1,
      )
  unfolding get_kv_from_cache
  get_kv_from_cache-other other = rw (get_kv_from_cache, other) refl

pub get_kv_from_cache-missed :
    (fl : Flash) (name : List ℕ) (name_crc : ℕ) (table : List KvCacheNode)
    → (get_kv_from_cache fl name name_crc table).0 ≡ none
    → get_kv_from_cache fl name name_crc table ≡ (none, table)
unfolding get_kv_from_cache
get_kv_from_cache-missed fl name name_crc [] miss = refl
get_kv_from_cache-missed fl name name_crc (n ∷ nodes) miss =
    elim (Bool-cases
      (is_candidate name_crc n && strn_eq name (saved_name fl n.addr) (length name))) [
        | inl hit ↦ absurd (
            some-ne-none n.addr (
              sym (
                ap (λ (r : Option ℕ × List KvCacheNode). r.0)
                  (get_kv_from_cache-hit fl name name_crc n nodes hit))
              ∙ miss))
        | inr other ↦
            let on = get_kv_from_cache-other fl name name_crc n nodes other in
            let rest =
              get_kv_from_cache-missed fl name name_crc nodes
                (sym (ap (λ (r : Option ℕ × List KvCacheNode). r.0) on) ∙ miss) in
            on ∙ ap (λ (r : Option ℕ × List KvCacheNode). (r.0, n ∷ r.1)) rest
      ]
