-- ===== src/Tsdb/Iterate/InUse.antt =====
-- `fdb_tsl_iter` of FlashDB/src/fdb_tsdb.c over the sector in use visits its logs in their order.
use flashdb_ko.Prelude.{
  ℕ, zero, suc, ◌+◌, ◌*◌, ◌-◌, ◌/◌, ◌≤◌, ◌<◌, ◌≡◌, refl, ap, ◌∙◌, sym, List, [], ◌∷◌, length, some,
  Option, Bool, true, false, ◌==◌, arith,
}
use flashdb_ko.Prelude.Words.{add32, failed_addr}
use flashdb_ko.Storage.{Flash}
use flashdb_ko.Kv.Types.{store_using}
use flashdb_ko.Tsdb.Types.{FdbTsl, TsdbSecInfo, sector_hdr_data_size}
use flashdb_ko.Tsdb.Walk.{read_tsl, get_next_tsl_addr}
use flashdb_ko.Tsdb.State.{FdbTsdb}
use flashdb_ko.Tsdb.Append.{advance}
use flashdb_ko.Tsdb.Iterate.{has_logs, sector_to_read, iter_tsls, iter_body}
use flashdb_ko.Tsdb.Logs.{Entry, data_len, LogsAt, tsl_of, advance_all, advance_lem}
use flashdb_ko.Tsdb.InUse.{opened}
use flashdb_ko.Tsdb.Series.{Holds}

-- The callback on each log in turn, until it breaks the iteration off.
unfoldable pub visit : {A : Type 0} → (FdbTsl → A → Bool × A) → ℕ → ℕ → List Entry → A → Bool × A
visit cb idx top [] arg = (false, arg)
visit cb idx top (e ∷ logs) arg =
    let r = cb (tsl_of idx top e) arg in
    elim r.0 [ true ↦ (true, r.1) | false ↦ visit cb (idx + 16) (top - length e.blob) logs r.1 ]

-- The last index is that of the last log.
pub end_idx-advance_all :
    (e : Entry) (logs : List Entry) (sector : TsdbSecInfo)
    → sector.empty_data < 0x1_0000_0000
    → sector.empty_idx + 16 * suc (length logs) + data_len (e ∷ logs) ≤ sector.empty_data
    → sector.remain ≡ sector.empty_data - sector.empty_idx
    → (advance_all sector (e ∷ logs)).end_idx ≡ sector.empty_idx + 16 * length logs
unfolding advance_all data_len advance
end_idx-advance_all e [] sector word fits rem = omega arith
end_idx-advance_all e (f ∷ logs) sector word fits rem =
    let (idx, top, rem') = advance_lem sector (length e.blob) e.time word (omega arith) rem in
    end_idx-advance_all f logs (advance sector (length e.blob) e.time) (omega arith) (omega arith)
      rem'
    ∙ omega (arith, idx)

module _ {A : Type 0} (fl : Flash) (max_len : ℕ) (sector : TsdbSecInfo) (cb : FdbTsl → A → Bool × A)
    (using : sector.status ≡ store_using) (small : sector.end_idx + 16 < 0x1_0000_0000) where
  -- The step of the walk, inside the sector and at its end.
  next_inside :
      (idx top : ℕ) (e : Entry)
      → idx + 16 ≤ sector.end_idx
      → get_next_tsl_addr sector (tsl_of idx top e) ≡ idx + 16
  unfolding get_next_tsl_addr
  next_inside idx top e h = ground arith

  next_end :
      (idx top : ℕ) (e : Entry)
      → idx ≡ sector.end_idx
      → get_next_tsl_addr sector (tsl_of idx top e) ≡ failed_addr
  unfolding get_next_tsl_addr
  next_end idx top e h = ground arith

  -- What a round comes to, by the callback's answer and the address of the next log.
  abbrev step : ℕ → Bool × A → ℕ → Option (Bool × A)
  step fuel answer next = elim answer.0 [
    | true ↦ some (true, answer.1)
    | false ↦ elim (next == failed_addr) [
      | true ↦ some (false, answer.1)
      | false ↦ iter_tsls fl max_len (get_next_tsl_addr sector) cb fuel next answer.1
    ]
  ]

  round :
      (fuel idx top next : ℕ) (e : Entry) (arg : A)
      → read_tsl fl max_len idx ≡ tsl_of idx top e
      → get_next_tsl_addr sector (tsl_of idx top e) ≡ next
      → iter_tsls fl max_len (get_next_tsl_addr sector) cb (suc fuel) idx arg
        ≡ step fuel (cb (tsl_of idx top e) arg) next
  unfolding iter_tsls
  round fuel idx top next e arg read walk =
      ap (λ (t : FdbTsl). step fuel (cb t arg) (get_next_tsl_addr sector t)) read
      ∙ ap (step fuel (cb (tsl_of idx top e) arg)) walk

  step-end :
      (fuel : ℕ) (answer : Bool × A)
      → step fuel answer failed_addr
        ≡ some (elim answer.0 [ true ↦ (true, answer.1) | false ↦ (false, answer.1) ])
  step-end fuel (true, arg) = refl
  step-end fuel (false, arg) = refl

  step-on :
      (fuel : ℕ) (answer : Bool × A) (next : ℕ) (rest : Bool × A)
      → (next == failed_addr) ≡ false
      → iter_tsls fl max_len (get_next_tsl_addr sector) cb fuel next answer.1 ≡ some rest
      → step fuel answer next ≡ some (elim answer.0 [ true ↦ (true, answer.1) | false ↦ rest ])
  step-on fuel (true, arg) next rest going ends = refl
  step-on fuel (false, arg) next rest going ends = rw (step, going, ends) refl

  pub iter_tsls-LogsAt :
      (e : Entry) (logs : List Entry) (fuel idx top : ℕ) (arg : A)
      → length logs < fuel
      → LogsAt fl max_len idx top (e ∷ logs)
      → sector.end_idx ≡ idx + 16 * length logs
      → iter_tsls fl max_len (get_next_tsl_addr sector) cb fuel idx arg
        ≡ some (visit cb idx top (e ∷ logs) arg)
  unfolding LogsAt visit
  iter_tsls-LogsAt e logs zero idx top arg more held end = absurd (omega arith)
  iter_tsls-LogsAt e [] (suc fuel) idx top arg more ((index, blob), rest) end =
      round fuel idx top failed_addr e arg index (next_end idx top e (omega arith))
      ∙ step-end fuel (cb (tsl_of idx top e) arg)
  iter_tsls-LogsAt e (f ∷ logs) (suc fuel) idx top arg more ((index, blob), rest) end =
      let answer = cb (tsl_of idx top e) arg in
      let below = top - length e.blob in
      round fuel idx top (idx + 16) e arg index (next_inside idx top e (omega arith))
      ∙ step-on fuel answer (idx + 16) (visit cb (idx + 16) below (f ∷ logs) answer.1)
          (ground arith)
          (iter_tsls-LogsAt f logs fuel (idx + 16) below answer.1 (omega arith) rest (omega arith))

pub sector_to_read-using :
    (db : FdbTsdb) (sector : TsdbSecInfo)
    → sector.status ≡ store_using
    → sector_to_read db sector ≡ db.cur_sec
unfolding sector_to_read
sector_to_read-using db sector using = ground arith

-- On the sector in use, with one log or more, the body of `fdb_tsl_iter` ends: it calls the
-- callback on each log in the order in which they were appended, with the status, time, length and
-- addresses of the log, until the callback breaks the iteration off.
pub iter_body-visit :
    {A : Type 0} {db : FdbTsdb} {e : Entry} {logs : List Entry} (held : Holds db (e ∷ logs))
    (cb : FdbTsl → A → Bool × A) (sec_addr : ℕ) (sector : TsdbSecInfo) (arg : A)
    → sector.status ≡ store_using
    → let visited =
        visit cb (db.cur_sec.addr + 40) (db.cur_sec.addr + db.sec_size) (e ∷ logs) arg in
      iter_body db cb sec_addr sector arg ≡ some (visited.0, db.cur_sec, visited.1)
unfolding iter_body has_logs
iter_body-visit {A} {db} {e} {logs} held cb sec_addr sector arg using =
    let here : (sector.status == store_using) ≡ true = ground arith in
    let word = held.in_use.ready.fits in
    let inside = held.in_use.inside in
    let behind = held.in_use.idx_is in
    let ends_at = held.in_use.top_is in
    let in_order = held.in_use.room in
    let first : add32 db.cur_sec.addr sector_hdr_data_size ≡ db.cur_sec.addr + 40 = omega arith in
    let last : db.cur_sec.end_idx ≡ db.cur_sec.addr + 40 + 16 * length logs =
      ap (λ (s : TsdbSecInfo). s.end_idx) (sym held.in_use.tracked)
      ∙ end_idx-advance_all e logs (opened db.sec_size db.cur_sec db.cur_sec) (omega arith)
          (omega arith) refl in
    rw
      (
        iter_body,
        here,
        sector_to_read-using db sector using,
        first,
        iter_tsls-LogsAt db.flash db.max_len db.cur_sec cb held.in_use.using (omega arith) e logs
            (suc (db.cur_sec.end_idx / 16)) (db.cur_sec.addr + 40) (db.cur_sec.addr + db.sec_size)
            arg (omega arith) held.in_use.held last,
        sector_to_read-using db sector using,
      )
      refl
