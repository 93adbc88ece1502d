-- ===== src/Tsdb/Iterate.antt =====
-- The iterators of FlashDB/src/fdb_tsdb.c over the logs. A callback gets a log and what it keeps
-- through its argument, the value `A`, and breaks the iteration off with `true`; it changes nothing
-- of the database. `none` means that the function does not return.
pub mod InUse
pub mod Period
use flashdb_ko.Prelude.{
  ℕ, zero, suc, ◌+◌, ◌/◌, Option, none, some, Bool, true, false, not, ◌&&◌, ◌||◌, ◌==◌,
  if◌then◌else◌,
}
use flashdb_ko.Prelude.Words.{add32, failed_addr, le_int32, lt_int32}
use flashdb_ko.Storage.{is_ok, Flash}
use flashdb_ko.Kv.Types.{store_unused, store_empty, store_using, store_full}
use flashdb_ko.Tsdb.Types.{FdbTsl, TsdbSecInfo, fdb_tsl_unused, sector_hdr_data_size}
use flashdb_ko.Tsdb.Walk.{
  read_tsl, get_next_tsl_addr, get_last_tsl_addr, get_next_sector_addr, get_last_sector_addr,
}
use flashdb_ko.Tsdb.State.{FdbTsdb}
use flashdb_ko.Tsdb.Sector.{read_sector_info}
use flashdb_ko.Tsdb.Search.{search_start_tsl_addr}

-- The sector has logs.
unfoldable pub has_logs : TsdbSecInfo → Bool
has_logs sector = sector.status == store_using || sector.status == store_full

-- The structure that the logs are read by: a sector in use is the current one.
unfoldable pub sector_to_read : FdbTsdb → TsdbSecInfo → TsdbSecInfo
sector_to_read db sector = if sector.status == store_using then db.cur_sec else sector

module _ {A : Type 0} where
  -- The inner loop, over the logs of one sector; the Boolean tells whether it was broken off.
  unfoldable pub iter_tsls :
      Flash → ℕ → (FdbTsl → ℕ) → (FdbTsl → A → Bool × A) → ℕ → ℕ → A → Option (Bool × A)
  iter_tsls fl max_len get_tsl_addr cb zero index arg = none
  iter_tsls fl max_len get_tsl_addr cb (suc fuel) index arg =
      let tsl = read_tsl fl max_len index in
      let (stop, arg') = cb tsl arg in
      elim stop [
        | true ↦ some (true, arg')
        | false ↦ elim (get_tsl_addr tsl == failed_addr) [
          | true ↦ some (false, arg')
          | false ↦ iter_tsls fl max_len get_tsl_addr cb fuel (get_tsl_addr tsl) arg'
        ]
      ]

  -- The outer loop, over the sectors: `body` is what a readable sector leads to, with the sector
  -- structure that it leaves, and `get_sector_addr` the walk.
  unfoldable pub iter_sectors :
      FdbTsdb
      → (ℕ → ℕ → TsdbSecInfo → ℕ → ℕ)
      → (ℕ → TsdbSecInfo → A → Option (Bool × TsdbSecInfo × A))
      → ℕ
      → ℕ
      → ℕ
      → TsdbSecInfo
      → A
      → Option A
  iter_sectors db get_sector_addr body zero sec_addr traversed_len old arg = none
  iter_sectors db get_sector_addr body (suc fuel) sec_addr traversed_len old arg =
      let traversed = add32 traversed_len db.sec_size in
      elim (read_sector_info db.flash db.max_len db.sec_size sec_addr old false) [
        | none ↦ none
        | some (err, sector) ↦
            elim (if is_ok err then body sec_addr sector arg else some (false, sector, arg)) [
              | none ↦ none
              | some (stop, left, arg') ↦
                  let next = get_sector_addr db.sec_size db.max_size left traversed in
                  elim (stop || next == failed_addr) [
                    | true ↦ some arg'
                    | false ↦ iter_sectors db get_sector_addr body fuel next traversed left arg'
                  ]
            ]
      ]

  -- The body of `fdb_tsl_iter`.
  unfoldable pub iter_body :
      FdbTsdb → (FdbTsl → A → Bool × A) → ℕ → TsdbSecInfo → A → Option (Bool × TsdbSecInfo × A)
  unfolding has_logs
  iter_body db cb sec_addr sector arg =
      let sector' = sector_to_read db sector in
      elim (has_logs sector) [
        | false ↦ some (false, sector, arg)
        | true ↦
            elim (iter_tsls db.flash db.max_len (get_next_tsl_addr sector') cb
              (suc (sector'.end_idx / 16)) (add32 sector'.addr sector_hdr_data_size) arg) [
                | none ↦ none
                | some (stop, arg') ↦ some (stop, sector', arg')
              ]
      ]

  -- `fdb_tsl_iter` with a callback; a database that is not initialised is only logged.
  unfoldable pub fdb_tsl_iter : FdbTsdb → (FdbTsl → A → Bool × A) → A → Option A
  unfolding iter_sectors
  fdb_tsl_iter db cb arg =
      iter_sectors db get_next_sector_addr (iter_body db cb) (suc db.max_size) db.oldest_addr 0
        db.junk arg

  -- The body of `fdb_tsl_iter_reverse`.
  unfoldable pub iter_reverse_body :
      FdbTsdb → (FdbTsl → A → Bool × A) → ℕ → TsdbSecInfo → A → Option (Bool × TsdbSecInfo × A)
  unfolding has_logs
  iter_reverse_body db cb sec_addr sector arg =
      let sector' = sector_to_read db sector in
      elim (has_logs sector) [
        | false ↦ some (sector.status == store_empty || sector.status == store_unused, sector, arg)
        | true ↦
            elim (iter_tsls db.flash db.max_len (get_last_tsl_addr sector') cb
              (suc (sector'.end_idx / 16)) sector'.end_idx arg) [
                | none ↦ none
                | some (stop, arg') ↦ some (stop, sector', arg')
              ]
      ]

  -- `fdb_tsl_iter_reverse`
  unfoldable pub fdb_tsl_iter_reverse : FdbTsdb → (FdbTsl → A → Bool × A) → A → Option A
  unfolding iter_sectors
  fdb_tsl_iter_reverse db cb arg =
      iter_sectors db get_last_sector_addr (iter_reverse_body db cb) (suc db.max_size)
        db.cur_sec.addr 0 db.junk arg

-- The logs between `from` and `to`, in either order.
unfoldable pub in_period : ℕ → ℕ → ℕ → Bool
in_period from to time =
    if le_int32 from to
    then le_int32 from time && le_int32 time to
    else le_int32 time from && le_int32 to time

-- The iteration starts in this sector.
unfoldable pub starts_in : ℕ → ℕ → Bool → TsdbSecInfo → Bool
starts_in from to at_start sector =
    if le_int32 from to
    then at_start && le_int32 from sector.start_time || le_int32 from sector.end_time
    else at_start && le_int32 sector.end_time from || le_int32 sector.start_time from

module _ {A : Type 0} where
  -- What the inner loop of `fdb_tsl_iter_by_time` does with a log: one outside the period ends
  -- the iteration.
  unfoldable pub visit_in_period : ℕ → ℕ → (FdbTsl → A → Bool × A) → FdbTsl → A → Bool × A
  unfolding in_period
  visit_in_period from to cb tsl arg =
      if tsl.status == fdb_tsl_unused
      then (false, arg)
      else if in_period from to tsl.time
      then cb tsl arg
      else (true, arg)

  -- The body of `fdb_tsl_iter_by_time`; the state holds `found_start_tsl` as well.
  unfoldable pub iter_by_time_body :
      FdbTsdb
      → ℕ
      → ℕ
      → ℕ
      → (FdbTsl → A → Bool × A)
      → ℕ
      → TsdbSecInfo
      → Bool × A
      → Option (Bool × TsdbSecInfo × (Bool × A))
  unfolding has_logs starts_in visit_in_period
  iter_by_time_body db start_addr from to cb sec_addr sector (found, arg) =
      let sector' = sector_to_read db sector in
      let start = add32 sector'.addr sector_hdr_data_size in
      let get_tsl_addr =
        if le_int32 from to then get_next_tsl_addr sector' else get_last_tsl_addr sector' in
      elim (has_logs sector) [
        | false ↦ some (sector.status == store_empty, sector, (found, arg))
        | true ↦ elim (found || starts_in from to (sec_addr == start_addr) sector') [
          | false ↦ some (false, sector', (found, arg))
          | true ↦ elim (search_start_tsl_addr db.flash db.max_len start sector'.end_idx from to) [
            | none ↦ none
            | some index ↦
                elim (iter_tsls db.flash db.max_len get_tsl_addr (visit_in_period from to cb)
                  (suc (sector'.end_idx / 16)) index arg) [
                    | none ↦ none
                    | some (stop, arg') ↦ some (stop, sector', (true, arg'))
                  ]
          ]
        ]
      ]

  -- `fdb_tsl_iter_by_time`
  unfoldable pub fdb_tsl_iter_by_time : FdbTsdb → ℕ → ℕ → (FdbTsl → A → Bool × A) → A → Option A
  unfolding iter_sectors iter_by_time_body
  fdb_tsl_iter_by_time db from to cb arg =
      let start_addr = if le_int32 from to then db.oldest_addr else db.cur_sec.addr in
      let walk = if le_int32 from to then get_next_sector_addr else get_last_sector_addr in
      elim (iter_sectors db walk (iter_by_time_body db start_addr from to cb) (suc db.max_size)
        start_addr 0 db.junk (false, arg)) [ none ↦ none | some (found, arg') ↦ some arg' ]

-- `query_count_cb`, on the count of its argument.
unfoldable pub query_count_cb : ℕ → FdbTsl → ℕ → Bool × ℕ
query_count_cb status tsl count = (false, if tsl.status == status then count + 1 else count)

-- `fdb_tsl_query_count`
unfoldable pub fdb_tsl_query_count : FdbTsdb → ℕ → ℕ → ℕ → Option ℕ
unfolding fdb_tsl_iter_by_time query_count_cb
fdb_tsl_query_count db from to status = elim db.init_ok [
  | false ↦ some 0
  | true ↦ fdb_tsl_iter_by_time db from to (query_count_cb status) 0
]
