-- ===== src/Tsdb/Series/Scan.antt =====
-- The loop of `sector_iterator` with `check_sec_hdr_cb` of FlashDB/src/fdb_tsdb.c over all sectors: it
-- takes over the one in use.
use flashdb_ko.Prelude.{
  ℕ, zero, suc, ◌+◌, ◌≤◌, ◌<◌, ◌≡◌, refl, ◌∙◌, sym, some, true, false, ◌==◌, ne→==_false, arith,
  subst,
}
use flashdb_ko.Prelude.Words.{add32, failed_addr}
use flashdb_ko.Storage.{FdbErr}
use flashdb_ko.Kv.Types.{store_unused, store_using}
use flashdb_ko.Tsdb.Types.{TsdbSecInfo}
use flashdb_ko.Tsdb.State.{FdbTsdb}
use flashdb_ko.Tsdb.Walk.{get_next_sector_addr}
use flashdb_ko.Tsdb.Sector.{read_sector_info}
use flashdb_ko.Tsdb.Visit.{SectorCb, visit_sector, visit_sectors}
use flashdb_ko.Tsdb.Load.{CheckSecHdrCbArgs, check_sec_hdr_cb}
use flashdb_ko.Tsdb.Series.Others.{OthersAt, Others, Others-end, visit_sector-run, visit_other}

module _ (cb : SectorCb CheckSecHdrCbArgs) (fuel a : ℕ) (old s : TsdbSecInfo) (d d' : FdbTsdb)
    (arg arg' : CheckSecHdrCbArgs) where
  -- The iterator goes on behind a sector, or ends behind the last one.
  step_on :
      visit_sector store_unused cb true a old d arg ≡ some (false, d', arg', s)
      → s.addr ≡ a
      → 0 < d.sec_size
      → a + d.sec_size + d.sec_size ≤ d.max_size
      → d.max_size < 0x8000_0000
      → visit_sectors store_unused cb true (suc fuel) a a old d arg
        ≡ visit_sectors store_unused cb true fuel (a + d.sec_size) (a + d.sec_size) s d' arg'
  unfolding visit_sectors get_next_sector_addr
  step_on visit at pos inside word =
      let tr : add32 a d.sec_size ≡ a + d.sec_size = omega arith in
      let next : get_next_sector_addr d.sec_size d.max_size s (a + d.sec_size) ≡ a + d.sec_size =
        ground arith in
      let there = ne→==_false (a + d.sec_size) failed_addr (λ e. absurd (omega (arith, e))) in
      rw (visit_sectors, visit, tr, next, there, tr, next) refl

  step_end :
      visit_sector store_unused cb true a old d arg ≡ some (false, d', arg', s)
      → 0 < d.sec_size
      → a + d.sec_size ≡ d.max_size
      → d.max_size < 0x8000_0000
      → visit_sectors store_unused cb true (suc fuel) a a old d arg ≡ some (d', arg')
  unfolding visit_sectors get_next_sector_addr
  step_end visit pos last word =
      let tr : add32 a d.sec_size ≡ a + d.sec_size = omega arith in
      let next : get_next_sector_addr d.sec_size d.max_size s (a + d.sec_size) ≡ failed_addr =
        ground arith in
      rw (visit_sectors, visit, tr, next) refl

-- The rest of the iteration, behind a sector, when the current sector is known.
check_rest :
    (n fuel a : ℕ) (old s : TsdbSecInfo) (d d' : FdbTsdb) (arg arg' : CheckSecHdrCbArgs)
    → n < fuel
    → visit_sector store_unused check_sec_hdr_cb true a old d arg ≡ some (false, d', arg', s)
    → s.addr ≡ a
    → d'.sec_size ≡ d.sec_size
    → d'.max_size ≡ d.max_size
    → 0 < d.sec_size
    → d.max_size < 0x8000_0000
    → (d'.cur_sec.addr == failed_addr) ≡ false
    → Others d' false (a + d.sec_size) n d.max_size
    → (r : CheckSecHdrCbArgs) × (visit_sectors store_unused check_sec_hdr_cb true fuel a a old d arg
        ≡ some (d', r))
      × (r.check_failed ≡ arg'.check_failed)
unfolding OthersAt
check_rest n zero a old s d d' arg arg' more visit at size top pos word known rest =
    absurd (omega arith)
check_rest zero (suc fuel) a old s d d' arg arg' more visit at size top pos word known rest =
    (arg', step_end check_sec_hdr_cb fuel a old s d d' arg arg' visit pos rest word, refl)
check_rest (suc n) (suc fuel) a old s d d' arg arg' more visit at size top pos word known
      (next, rest) =
    let end = Others-end d' false n (a + d.sec_size + d'.sec_size) d.max_size rest in
    let (t, arg2, visit2, at2, same2) =
      visit_other d' false (a + d.sec_size) s arg' next (λ e. absurd (ground (arith, e, known))) in
    let (r, run, same) =
      check_rest n fuel (a + d.sec_size) s t d' d' arg' arg2 (omega arith) visit2 at2 refl refl
        (omega arith) (omega arith) known
        (subst (Others d' false (a + d.sec_size + d'.sec_size) n) (sym top) rest) in
    (
      r,
      step_on check_sec_hdr_cb fuel a old s d d' arg arg' visit at pos (omega arith) word ∙ run,
      same ∙ same2,
    )

-- A round on the current sector takes it over.
visit_current :
    (d : FdbTsdb) (old cur : TsdbSecInfo) (arg : CheckSecHdrCbArgs) (err e : FdbErr)
    (t : TsdbSecInfo) (a : ℕ)
    → (d.cur_sec.addr == failed_addr) ≡ true
    → read_sector_info d.flash d.max_len d.sec_size a old false ≡ some (e, t)
    → read_sector_info d.flash d.max_len d.sec_size a t true ≡ some (err, cur)
    → cur.check_ok ≡ true
    → cur.status ≡ store_using
    → visit_sector store_unused check_sec_hdr_cb true a old d arg
      ≡ some (false, record d { cur_sec = cur }, arg, cur)
unfolding check_sec_hdr_cb
visit_current d old cur arg err e t a unset first second ok using =
    visit_sector-run check_sec_hdr_cb a old t cur e err d (record d { cur_sec = cur }) arg arg false
      first second (rw (check_sec_hdr_cb, ok, using, unset) refl)

-- The iteration over all sectors from `a` on: the full ones before the current sector, the current
-- one, and those behind it.
pub check_all :
    (cur : TsdbSecInfo) (after n fuel a : ℕ) (old : TsdbSecInfo) (d : FdbTsdb)
    (arg : CheckSecHdrCbArgs)
    → n + after < fuel
    → (d.cur_sec.addr == failed_addr) ≡ true
    → ((o : TsdbSecInfo)
        → (e : FdbErr) × (t : TsdbSecInfo) × (err : FdbErr) × (read_sector_info d.flash d.max_len
              d.sec_size cur.addr o false
            ≡ some (e, t))
          × (read_sector_info d.flash d.max_len d.sec_size cur.addr t true ≡ some (err, cur)))
    → cur.check_ok ≡ true
    → cur.status ≡ store_using
    → 0 < d.sec_size
    → d.max_size < 0x8000_0000
    → Others d true a n cur.addr
    → Others d false (cur.addr + d.sec_size) after d.max_size
    → (r : CheckSecHdrCbArgs) × (visit_sectors store_unused check_sec_hdr_cb true fuel a a old d arg
        ≡ some (record d { cur_sec = cur }, r))
      × (r.check_failed ≡ arg.check_failed)
unfolding OthersAt
check_all cur after n zero a old d arg more unset reads ok using pos word before behind =
    absurd (omega arith)
check_all cur after zero (suc fuel) a old d arg more unset reads ok using pos word before behind =
    let end = Others-end d false after (cur.addr + d.sec_size) d.max_size behind in
    let (e, t, err, first, second) = reads old in
    subst
      (λ (x : ℕ).
        (r : CheckSecHdrCbArgs) × (visit_sectors store_unused check_sec_hdr_cb true (suc fuel) x x
            old d arg
          ≡ some (record d { cur_sec = cur }, r))
        × (r.check_failed ≡ arg.check_failed))
      (sym before)
      (check_rest after (suc fuel) cur.addr old cur d (record d { cur_sec = cur }) arg arg
        (omega arith) (visit_current d old cur arg err e t cur.addr unset first second ok using)
        refl refl refl pos word (ne→==_false cur.addr failed_addr (λ f. absurd (omega (arith, f))))
        behind)
check_all cur after (suc n) (suc fuel) a old d arg more unset reads ok using pos word (at, before)
      behind =
    let end = Others-end d false after (cur.addr + d.sec_size) d.max_size behind in
    let low = Others-end d true n (a + d.sec_size) cur.addr before in
    let (t, arg2, visit, placed, same2) = visit_other d true a old arg at (λ e. refl) in
    let (r, run, same) =
      check_all cur after n fuel (a + d.sec_size) t d arg2 (omega arith) unset reads ok using pos
        word before behind in
    (
      r,
      step_on check_sec_hdr_cb fuel a old t d d arg arg2 visit placed pos (omega arith) word ∙ run,
      same ∙ same2,
    )
