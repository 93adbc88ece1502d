-- ===== src/Kv/SectorCache/Laws.antt =====
-- The sector cache of FlashDB/src/fdb_kvdb.c finds what was stored in it.
use flashdb_ko.Prelude.{
  ℕ, zero, suc, ◌+◌, ◌<◌, ◌≡◌, ◌≢◌, refl, inl, inr, List, [], ◌∷◌, Option, none, some, Bool, true,
  false, Bool-cases, ◌&&◌, ◌==◌, ◌||◌, eq→==, ne→==_false, if◌then◌else◌, length, set, arith,
}
use native.Mathlib.Decide.{ℕ_discrete}
use flashdb_ko.Prelude.Words.{failed_addr}
use flashdb_ko.Kv.Types.{KvdbSecInfo, fdb_sector_cache_table_size}
use flashdb_ko.Kv.SectorCache.{
  get_sector_from_cache, change_cached, scan_sectors, update_sector_cache,
}

-- The entry `k` is the first one of the address.
abbrev First : ℕ → List KvdbSecInfo → ℕ → Type 0
First s [] k = ⊥
First s (c ∷ table) zero = c.addr ≡ s
First s (c ∷ table) (suc k) = (c.addr ≢ s) × First s table k

-- The entry `k` is free.
abbrev Free : List KvdbSecInfo → ℕ → Type 0
Free [] k = ⊥
Free (c ∷ table) zero = c.addr ≡ failed_addr
Free (c ∷ table) (suc k) = Free table k

-- No two entries in use have one address.
abbrev pub Distinct : List KvdbSecInfo → Type 0
Distinct [] = Unit
Distinct (c ∷ table) =
    (c.addr ≢ failed_addr → get_sector_from_cache table c.addr ≡ none) × Distinct table

-- The address has an entry, or an entry is free.
unfoldable pub has_place : List KvdbSecInfo → ℕ → Bool
has_place [] s = false
has_place (c ∷ table) s = c.addr == s || (c.addr == failed_addr || has_place table s)

-- What the loop of `update_sector_cache` found, where it returned `r`.
data ScanView (s : ℕ) (table : List KvdbSecInfo) (i e : ℕ) (r : Option ℕ × ℕ) : Type 0 where
  hit :
      (k : ℕ)
      → First s table k
      → has_place table s ≡ true
      → r.0 ≡ some (i + k)
      → ScanView s table i e r
  spare :
      (k : ℕ)
      → Free table k
      → get_sector_from_cache table s ≡ none
      → has_place table s ≡ true
      → r.0 ≡ none
      → r.1 ≡ i + k
      → ScanView s table i e r
  miss :
      get_sector_from_cache table s ≡ none
      → has_place table s ≡ false
      → r.0 ≡ none
      → r.1 ≡ e
      → ScanView s table i e r

scan_view :
    (s : ℕ) (table : List KvdbSecInfo) (i e : ℕ) → ScanView s table i e (scan_sectors s table i e)
unfolding scan_sectors get_sector_from_cache has_place
scan_view s [] i e = miss refl refl refl refl
scan_view s (c ∷ table) i e = elim (ℕ_discrete c.addr s) [
  | yes same ↦ hit 0 same (ground arith) (ground arith)
  | no other ↦ elim (scan_view s table (i + 1) (if c.addr == failed_addr then i else e)) [
    | hit k f p q ↦ hit (suc k) (other, f) (ground arith) (ground arith)
    | spare k f g p q r ↦
        spare (suc k) f (ground arith) (ground arith) (ground arith) (ground arith)
    | miss g p q r ↦ elim (ℕ_discrete c.addr failed_addr) [
      | yes free ↦ spare 0 free (ground arith) (ground arith) (ground arith) (ground arith)
      | no used ↦ miss (ground arith) (ground arith) (ground arith) (ground arith)
    ]
  ]
]

module _ (sector : KvdbSecInfo) where
  abbrev lookup_after : List KvdbSecInfo → ℕ → Option KvdbSecInfo
  lookup_after table a = if a == sector.addr then some sector else get_sector_from_cache table a

  get-set-First :
      (table : List KvdbSecInfo) (k a : ℕ)
      → First sector.addr table k
      → get_sector_from_cache (set table k sector) a ≡ lookup_after table a
  unfolding get_sector_from_cache
  get-set-First [] k a f = absurd f
  get-set-First (c ∷ table) zero a f = ground arith
  get-set-First (c ∷ table) (suc k) a f = ground (arith, get-set-First table k a f.1)

  get-set-Free :
      (table : List KvdbSecInfo) (k a : ℕ)
      → Free table k
      → get_sector_from_cache table sector.addr ≡ none
      → a ≢ failed_addr
      → get_sector_from_cache (set table k sector) a ≡ lookup_after table a
  unfolding get_sector_from_cache
  get-set-Free [] k a f g used = absurd f
  get-set-Free (c ∷ table) zero a f g used = ground arith
  get-set-Free (c ∷ table) (suc k) a f g used = ground (arith, get-set-Free table k a f)

  Distinct-set-First :
      (table : List KvdbSecInfo) (k : ℕ)
      → First sector.addr table k
      → Distinct table
      → Distinct (set table k sector)
  Distinct-set-First [] k f d = absurd f
  Distinct-set-First (c ∷ table) zero f d = (λ used. ground (arith, d.0), d.1)
  Distinct-set-First (c ∷ table) (suc k) f d = (
    λ used. rw (get-set-First table k c.addr f.1, ne→==_false c.addr sector.addr f.0) (d.0 used),
    Distinct-set-First table k f.1 d.1,
  )

  other_head :
      (c : KvdbSecInfo) (table : List KvdbSecInfo)
      → get_sector_from_cache (c ∷ table) sector.addr ≡ none
      → (c.addr ≢ sector.addr) × (get_sector_from_cache table sector.addr ≡ none)
  unfolding get_sector_from_cache
  other_head c table g = (ground arith, ground arith)

  Distinct-set-Free :
      (table : List KvdbSecInfo) (k : ℕ)
      → Free table k
      → get_sector_from_cache table sector.addr ≡ none
      → Distinct table
      → Distinct (set table k sector)
  Distinct-set-Free [] k f g d = absurd f
  Distinct-set-Free (c ∷ table) zero f g d = (λ used. (other_head c table g).1, d.1)
  Distinct-set-Free (c ∷ table) (suc k) f g d =
      let head = other_head c table g in
      (
        λ used.
            rw (get-set-Free table k c.addr f head.1 used, ne→==_false c.addr sector.addr head.0)
              (d.0 used),
        Distinct-set-Free table k f head.1 d.1,
      )

-- The change that takes an entry out of use.
abbrev invalidate : KvdbSecInfo → KvdbSecInfo
invalidate c = record c { addr = failed_addr }

get-invalidate :
    (table : List KvdbSecInfo) (s a : ℕ)
    → Distinct table
    → s ≢ failed_addr
    → a ≢ failed_addr
    → get_sector_from_cache (change_cached table s invalidate) a
      ≡ (if a == s then none else get_sector_from_cache table a)
unfolding get_sector_from_cache change_cached
get-invalidate [] s a d used used' = ground arith
get-invalidate (c ∷ table) s a d used used' = ground (arith, d.0, get-invalidate table s a d.1)

Distinct-invalidate :
    (table : List KvdbSecInfo) (s : ℕ)
    → s ≢ failed_addr
    → Distinct table
    → Distinct (change_cached table s invalidate)
unfolding change_cached
Distinct-invalidate [] s used d = tt
Distinct-invalidate (c ∷ table) s used d = elim (ℕ_discrete c.addr s) [
  | yes same ↦ rw (eq→== c.addr s same) (λ used'. absurd (used' refl), d.1)
  | no other ↦ rw (ne→==_false c.addr s other) (
    λ used'.
        rw (get-invalidate table s c.addr d.1 used used', ne→==_false c.addr s other) (d.0 used'),
    Distinct-invalidate table s used d.1,
  )
]

place_below : (table : List KvdbSecInfo) (k : ℕ) → Free table k → k < length table
place_below [] k f = absurd f
place_below (c ∷ table) zero f = omega arith
place_below (c ∷ table) (suc k) f = omega (arith, place_below table k f)

module _ (table : List KvdbSecInfo) (sector : KvdbSecInfo) (distinct : Distinct table)
    (size : length table ≡ fdb_sector_cache_table_size) (used : sector.addr ≢ failed_addr) where
  -- On a table of eight entries with distinct addresses, `update_sector_cache` stores a sector that
  -- was checked, if its address has an entry or an entry is free, and forgets the address of one
  -- that failed the check; `get_sector_from_cache` of any other address finds what it found before.
  pub get_sector-update_sector :
      (a : ℕ)
      → a ≢ failed_addr
      → get_sector_from_cache (update_sector_cache table sector) a ≡ (
          if a == sector.addr
          then (if sector.check_ok && has_place table a then some sector else none)
          else get_sector_from_cache table a)
  unfolding update_sector_cache
  get_sector-update_sector a used' =
      elim (scan_view sector.addr table 0 fdb_sector_cache_table_size) [
        | hit k f p q ↦ ground (
          arith,
          get-set-First sector table k a f,
          get-invalidate table sector.addr a distinct used used',
        )
        | spare k f g p q r ↦
            ground (arith, get-set-Free sector table k a f g used', place_below table k f)
        | miss g p q r ↦ ground arith
      ]

  -- It keeps the addresses distinct.
  pub update_sector-Distinct : Distinct (update_sector_cache table sector)
  unfolding update_sector_cache
  update_sector-Distinct = elim (scan_view sector.addr table 0 fdb_sector_cache_table_size) [
    | hit k f p q ↦ elim (Bool-cases sector.check_ok) [
      | inl ok ↦
          let e : update_sector_cache table sector ≡ set table k sector = ground arith in
          rw e (Distinct-set-First sector table k f distinct)
      | inr bad ↦
          let e : update_sector_cache table sector ≡ change_cached table sector.addr invalidate =
            ground arith in
          rw e (Distinct-invalidate table sector.addr used distinct)
    ]
    | spare k f g p q r ↦ elim (Bool-cases sector.check_ok) [
      | inl ok ↦
          let e : update_sector_cache table sector ≡ set table k sector =
            ground (arith, place_below table k f) in
          rw e (Distinct-set-Free sector table k f g distinct)
      | inr bad ↦ let e : update_sector_cache table sector ≡ table = ground arith in rw e distinct
    ]
    | miss g p q r ↦
        let e : update_sector_cache table sector ≡ table = ground arith in rw e distinct
  ]
