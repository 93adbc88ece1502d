-- ===== src/Tsdb/Series/Others.antt =====
-- The sectors of a time series database that are not in use, and a round of `sector_iterator` of
-- FlashDB/src/fdb_tsdb.c with `check_sec_hdr_cb` on one of them.
use flashdb_ko.Prelude.{
  ℕ, zero, suc, ◌+◌, ◌≤◌, ◌<◌, ◌≡◌, refl, ◌∙◌, some, Bool, true, false, ◌&&◌, ◌==◌, arith,
  Bool-cases, inl, inr,
}
use flashdb_ko.Prelude.Words.{failed_addr}
use flashdb_ko.Storage.{Flash, FdbErr, no_err}
use flashdb_ko.Kv.Types.{store_unused, store_using, store_empty}
use flashdb_ko.Tsdb.Types.{TsdbSecInfo}
use flashdb_ko.Tsdb.State.{FdbTsdb}
use flashdb_ko.Tsdb.Sector.{read_sector_info, traverse_sector}
use flashdb_ko.Tsdb.Sector.Header.{read_sector_info-traversal}
use flashdb_ko.Tsdb.Visit.{SectorCb, visit_sector}
use flashdb_ko.Tsdb.Load.{CheckSecHdrCbArgs, check_sec_hdr_cb}

module _ (fl : Flash) (max_len sec_size : ℕ) where
  -- The header at `a` is right, the sector is not in use and, if it is to be full, not empty.
  pub record OtherAt (full : Bool) (a : ℕ) : Type 0 where
    pub info : TsdbSecInfo → TsdbSecInfo
    pub reads :
        (old : TsdbSecInfo)
        → read_sector_info fl max_len sec_size a old false ≡ some (no_err, info old)
    pub checked : (old : TsdbSecInfo) → (info old).check_ok ≡ true
    pub placed : (old : TsdbSecInfo) → (info old).addr ≡ a
    pub unused : (old : TsdbSecInfo) → ((info old).status == store_using) ≡ false
    pub filled : (old : TsdbSecInfo) → (full && (info old).status == store_empty) ≡ false

  -- The `n` sectors from `a` on, which end at `end`.
  unfoldable pub OthersAt : Bool → ℕ → ℕ → ℕ → Type 0
  OthersAt full a zero end = a ≡ end
  OthersAt full a (suc n) end = OtherAt full a × OthersAt full (a + sec_size) n end

-- The same with the flash and the settings of a database.
abbrev pub Others : FdbTsdb → Bool → ℕ → ℕ → ℕ → Type 0
Others db full a n end = OthersAt db.flash db.max_len db.sec_size full a n end

pub Others-end : (db : FdbTsdb) (full : Bool) (n a end : ℕ) → Others db full a n end → a ≤ end
unfolding OthersAt
Others-end db full zero a end same = omega (arith, same)
Others-end db full (suc n) a end (at, rest) =
    omega (arith, Others-end db full n (a + db.sec_size) end rest)

pub Others-count :
    (db : FdbTsdb) (full : Bool) (n a end : ℕ)
    → 0 < db.sec_size
    → Others db full a n end
    → a + n ≤ end
unfolding OthersAt
Others-count db full zero a end pos same = omega (arith, same)
Others-count db full (suc n) a end pos (at, rest) =
    omega (arith, Others-count db full n (a + db.sec_size) end pos rest)

-- One round of the iterator, from the two reads and the callback.
pub visit_sector-run :
    (cb : SectorCb CheckSecHdrCbArgs) (a : ℕ) (old t t' : TsdbSecInfo) (e e' : FdbErr)
    (d d' : FdbTsdb) (arg arg' : CheckSecHdrCbArgs) (stop : Bool)
    → read_sector_info d.flash d.max_len d.sec_size a old false ≡ some (e, t)
    → read_sector_info d.flash d.max_len d.sec_size a t true ≡ some (e', t')
    → cb t' d arg ≡ some (stop, d', arg')
    → visit_sector store_unused cb true a old d arg ≡ some (stop, d', arg', t')
unfolding visit_sector
visit_sector-run cb a old t t' e e' d d' arg arg' stop first second called =
    rw (visit_sector, first, second, called) refl

traverse-unused :
    (fl : Flash) (max_len : ℕ) (t : TsdbSecInfo)
    → (t.status == store_using) ≡ false
    → traverse_sector fl max_len true t ≡ some (no_err, t)
unfolding traverse_sector
traverse-unused fl max_len t unused = rw (traverse_sector, unused) refl

-- What the callback does on a sector that is not in use.
check_other :
    (t : TsdbSecInfo) (d : FdbTsdb) (arg : CheckSecHdrCbArgs)
    → t.check_ok ≡ true
    → (t.status == store_using) ≡ false
    → ((d.cur_sec.addr == failed_addr) && t.status == store_empty) ≡ false
    → (arg' : CheckSecHdrCbArgs) × (check_sec_hdr_cb t d arg ≡ some (false, d, arg'))
      × (arg'.check_failed ≡ arg.check_failed)
unfolding check_sec_hdr_cb
check_other t d arg ok unused kept = elim (Bool-cases (t.status == store_empty)) [
  | inr other ↦ (arg, rw (check_sec_hdr_cb, ok, unused, other) refl, refl)
  | inl empty ↦ elim (Bool-cases (d.cur_sec.addr == failed_addr)) [
    | inl unset ↦ absurd (ground (arith, kept, empty, unset))
    | inr set ↦ (
      record arg { empty_num = arg.empty_num + 1; empty_addr = t.addr },
      rw (check_sec_hdr_cb, ok, unused, empty, set) (ground arith),
      refl,
    )
  ]
]

kept :
    (d : FdbTsdb) (full : Bool) (t : TsdbSecInfo)
    → ((d.cur_sec.addr == failed_addr) ≡ true → full ≡ true)
    → (full && t.status == store_empty) ≡ false
    → ((d.cur_sec.addr == failed_addr) && t.status == store_empty) ≡ false
kept d full t before filled = elim (Bool-cases (d.cur_sec.addr == failed_addr)) [
  | inl unset ↦ rw unset (rw (before unset) at filled)
  | inr set ↦ rw set refl
]

-- A round on a sector that is not in use changes no more than what is counted.
pub visit_other :
    (d : FdbTsdb) (full : Bool) (a : ℕ) (old : TsdbSecInfo) (arg : CheckSecHdrCbArgs)
    → OtherAt d.flash d.max_len d.sec_size full a
    → ((d.cur_sec.addr == failed_addr) ≡ true → full ≡ true)
    → (t : TsdbSecInfo) × (arg' : CheckSecHdrCbArgs) × (visit_sector store_unused check_sec_hdr_cb
          true a old d arg
        ≡ some (false, d, arg', t))
      × (t.addr ≡ a)
      × (arg'.check_failed ≡ arg.check_failed)
visit_other d full a old arg at before =
    let t = at.info old in
    let t' = at.info t in
    let second =
      read_sector_info-traversal d.flash d.max_len d.sec_size a t t' (at.reads t)
      ∙ traverse-unused d.flash d.max_len t' (at.unused t) in
    let (arg', called, same) =
      check_other t' d arg (at.checked t) (at.unused t) (kept d full t' before (at.filled t)) in
    (
      t',
      arg',
      visit_sector-run check_sec_hdr_cb a old t t' no_err no_err d d arg arg' false (at.reads old)
          second called,
      at.placed t,
      same,
    )
