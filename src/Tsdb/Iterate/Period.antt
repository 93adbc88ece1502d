-- ===== src/Tsdb/Iterate/Period.antt =====
-- `fdb_tsl_iter_by_time` of FlashDB/src/fdb_tsdb.c over the sector in use, forwards: it visits the
-- logs of the period.
pub mod Visit
use flashdb_ko.Prelude.{
  ℕ, zero, suc, ◌+◌, ◌*◌, ◌-◌, ◌/◌, ◌≤◌, ◌<◌, ◌≡◌, refl, ap, ◌∙◌, sym, List, [], ◌∷◌, length, drop,
  length-drop, some, none, Option, Bool, true, false, if◌then◌else◌, ◌==◌, ◌||◌, ◌&&◌, leb, arith,
}
use native.Mathlib.Decide.{dec_lt}
use flashdb_ko.Prelude.Words.{add32, failed_addr, flip_sign, le_int32}
use flashdb_ko.Kv.Types.{store_using}
use flashdb_ko.Tsdb.Types.{FdbTsl, TsdbSecInfo, sector_hdr_data_size}
use flashdb_ko.Tsdb.Walk.{read_tsl, get_next_tsl_addr, get_last_tsl_addr}
use flashdb_ko.Tsdb.State.{FdbTsdb}
use flashdb_ko.Tsdb.Search.{search_start_tsl_addr}
use flashdb_ko.Tsdb.Search.LowerBound.{slot, FirstFrom, search_start_tsl_addr-FirstFrom}
use flashdb_ko.Tsdb.Iterate.{
  has_logs, sector_to_read, iter_tsls, starts_in, visit_in_period, iter_by_time_body,
}
use flashdb_ko.Tsdb.Iterate.InUse.{
  visit, iter_tsls-LogsAt, end_idx-advance_all, sector_to_read-using,
}
use flashdb_ko.Tsdb.Iterate.Period.Visit.{only_in_period, visit-from, visit-prefix}
use flashdb_ko.Tsdb.Logs.{Entry, data_len, LogsAt, advance_all}
use flashdb_ko.Tsdb.Logs.Times.{
  time_at, time_at-first, increasing-LogsAt, time_at-last, end_time-advance_all,
}
use flashdb_ko.Tsdb.InUse.{InUse, opened}
use flashdb_ko.Tsdb.Series.{Holds, Above, last_of}

starts_in-late :
    (from to : ℕ) (at_start found : Bool) (sector : TsdbSecInfo)
    → flip_sign from ≤ flip_sign to
    → flip_sign from ≤ flip_sign sector.end_time
    → (found || starts_in from to at_start sector) ≡ true
unfolding starts_in
starts_in-late from to at_start found sector ordered late = ground arith

module _ {A : Type 0} {db : FdbTsdb} {e : Entry} {logs : List Entry} (held : Holds db (e ∷ logs))
    (from to : ℕ) (cb : FdbTsl → A → Bool × A) (ordered : flip_sign from ≤ flip_sign to)
    (some_late : flip_sign from ≤ flip_sign db.last_time)
    (small : db.cur_sec.addr + db.sec_size < 0x8000_0000) where
  abbrev b : ℕ
  b = db.cur_sec.addr + 40

  abbrev end_of : ℕ
  end_of = db.cur_sec.addr + db.sec_size

  end_is : db.cur_sec.end_idx ≡ b + 16 * length logs
  end_is =
      let word = held.in_use.ready.fits in
      let inside = held.in_use.inside in
      let behind = held.in_use.idx_is in
      let ends_at = held.in_use.top_is in
      let in_order = held.in_use.room in
      ap (λ (s : TsdbSecInfo). s.end_idx) (sym held.in_use.tracked)
      ∙ end_idx-advance_all e logs (opened db.sec_size db.cur_sec db.cur_sec) (omega arith)
          (omega arith) refl

  end_time_is : db.cur_sec.end_time ≡ db.last_time
  end_time_is =
      ap (λ (s : TsdbSecInfo). s.end_time) (sym held.in_use.tracked)
      ∙ end_time-advance_all held.since e logs (opened db.sec_size db.cur_sec db.cur_sec)
      ∙ sym held.last_is

  -- The logs from the one that was found on.
  suffix_run :
      (suffix : List Entry) (idx top lo fuel : ℕ) (arg : A)
      → 0 < length suffix
      → length suffix ≤ fuel
      → LogsAt db.flash db.max_len idx top suffix
      → Above lo suffix
      → flip_sign from ≤ time_at db.flash db.max_len idx 0
      → db.cur_sec.end_idx + 16 ≡ idx + 16 * length suffix
      → (stop : Bool) × (iter_tsls db.flash db.max_len
            (get_next_tsl_addr db.cur_sec)
            (visit_in_period from to cb)
            fuel
            idx
            arg
          ≡ some (stop, (visit (only_in_period from to cb) idx top suffix arg).1))
  unfolding Above
  suffix_run [] idx top lo fuel arg some_log enough held' above low end = absurd (omega arith)
  suffix_run (f ∷ rest) idx top lo fuel arg some_log enough held' (first, above) low end =
      let visited = visit (visit_in_period from to cb) idx top (f ∷ rest) arg in
      let inside = held.in_use.inside in
      let word = held.in_use.ready.fits in
      let behind = held.in_use.idx_is in
      let in_order = held.in_use.room in
      let last = end_is in
      let first_time = time_at-first db.flash db.max_len idx top f rest held' in
      (
        visited.0,
        iter_tsls-LogsAt db.flash db.max_len db.cur_sec (visit_in_period from to cb)
              held.in_use.using (omega arith) f rest fuel idx top arg (omega arith) held'
              (omega arith)
            ∙ ap (λ (a : A). some (visited.0, a))
                (visit-from from to cb ordered idx top f rest above (omega arith) arg),
      )

  -- What the search and the iteration behind it come to.
  search_run :
      (arg : A)
      → (index : ℕ) × (stop : Bool) × (search_start_tsl_addr db.flash db.max_len b
            db.cur_sec.end_idx from to
          ≡ some index)
        × (iter_tsls db.flash db.max_len
              (get_next_tsl_addr db.cur_sec)
              (visit_in_period from to cb)
              (suc (db.cur_sec.end_idx / 16))
              index
              arg
            ≡ some (stop, (visit (only_in_period from to cb) b end_of (e ∷ logs) arg).1))
  search_run arg =
      let fl = db.flash in
      let n = suc (length logs) in
      let word = held.in_use.ready.fits in
      let inside = held.in_use.inside in
      let behind = held.in_use.idx_is in
      let in_order = held.in_use.room in
      let ends_at = held.in_use.top_is in
      let last = end_is in
      let (q, found, first) =
        search_start_tsl_addr-FirstFrom fl db.max_len b n from to
          (increasing-LogsAt fl db.max_len b end_of (flip_sign held.since) (e ∷ logs)
            held.in_use.held held.ordered)
          (omega arith) (omega arith) ordered (omega arith) in
      let last_time : time_at fl db.max_len b (length logs) ≡ flip_sign db.last_time =
        time_at-last fl db.max_len b end_of held.since e logs held.in_use.held
        ∙ ap flip_sign (sym held.last_is) in
      let inner : q < n = elim (dec_lt q n) [
        | yes h ↦ h
        | no h ↦ absurd (omega (arith, first.earlier (length logs) (omega arith), last_time))
      ] in
      let (top', lo', held', above', same) =
        visit-prefix from to cb ordered fl db.max_len q b end_of (flip_sign held.since) (e ∷ logs)
          held.in_use.held held.ordered (omega arith) first.earlier in
      let rest_len = length-drop q (e ∷ logs) in
      let from_q : time_at fl db.max_len (slot b q) 0 ≡ time_at fl db.max_len b q =
        ap (λ (i : ℕ). flip_sign (read_tsl fl db.max_len i).time) {x = slot (slot b q) 0}
          {y = slot b q} (omega arith) in
      let (stop, ran) =
        suffix_run (drop q (e ∷ logs)) (slot b q) top' lo' (suc (db.cur_sec.end_idx / 16)) arg
          (omega arith) (omega arith) held' above'
          (omega (arith, first.not_earlier q (omega arith) inner, from_q)) (omega arith) in
      let start : slot b 0 ≡ b = omega arith in
      let finish : slot b (n - 1) ≡ db.cur_sec.end_idx = omega arith in
      (slot b q, stop, rw (start, finish) at found, rw (same arg) ran)

-- On the sector in use, with a log that is not earlier than `from`, where `from` is not after `to`
-- and the addresses are below 2 ^ 31: the body of `fdb_tsl_iter_by_time` ends, and has called the
-- callback on exactly the logs whose time lies between `from` and `to`, in the order in which they
-- were appended, until the callback broke the iteration off.
pub iter_by_time_body-period :
    {A : Type 0} {db : FdbTsdb} {e : Entry} {logs : List Entry} (held : Holds db (e ∷ logs))
    (from to start_addr sec_addr : ℕ) (cb : FdbTsl → A → Bool × A) (sector : TsdbSecInfo)
    (found : Bool) (arg : A)
    → flip_sign from ≤ flip_sign to
    → flip_sign from ≤ flip_sign db.last_time
    → db.cur_sec.addr + db.sec_size < 0x8000_0000
    → sector.status ≡ store_using
    → (stop : Bool) × (iter_by_time_body db start_addr from to cb sec_addr sector (found, arg)
        ≡ some (
          stop,
          db.cur_sec,
          (
            true,
            (visit
                (only_in_period from to cb)
                (db.cur_sec.addr + 40)
                (db.cur_sec.addr + db.sec_size)
                (e ∷ logs)
                arg).1,
          ),
        ))
unfolding iter_by_time_body has_logs
iter_by_time_body-period {A} {db} {e} {logs} held from to start_addr sec_addr cb sector found arg
      ordered some_late small using =
    let here : (sector.status == store_using) ≡ true = ground arith in
    let forward : le_int32 from to ≡ true = ground arith in
    let inside = held.in_use.inside in
    let word = held.in_use.ready.fits in
    let wide = held.in_use.wide in
    let first : add32 db.cur_sec.addr sector_hdr_data_size ≡ db.cur_sec.addr + 40 = omega arith in
    let (index, stop, search, ran) = search_run held from to cb ordered some_late small arg in
    let cur = sector_to_read-using db sector using in
    let starts =
      starts_in-late from to (sec_addr == start_addr) found db.cur_sec ordered
        (rw (end_time_is held from to cb ordered some_late small) some_late) in
    (
      stop,
      rw (iter_by_time_body, here, cur, starts, cur, first, search, cur, forward, ran, cur) refl,
    )
