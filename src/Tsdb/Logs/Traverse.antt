-- ===== src/Tsdb/Logs/Traverse.antt =====
-- The traversal of `read_sector_info` over the logs that a sector holds.
use flashdb_ko.Prelude.{
  ℕ, zero, suc, ◌+◌, ◌*◌, ◌-◌, ◌≤◌, ◌<◌, ◌≡◌, refl, ap, ◌∙◌, sym, List, [], ◌∷◌, length, some, ltb,
  Bool-cases, inl, inr, true, false, arith,
}
use flashdb_ko.Prelude.Words.{add32, sub32}
use flashdb_ko.Storage.{Flash, FdbErr, no_err, read_err}
use flashdb_ko.Tsdb.Types.{TsdbSecInfo, fdb_tsl_unused}
use flashdb_ko.Tsdb.Walk.{read_tsl}
use flashdb_ko.Tsdb.Sector.{log_room, traverse_logs}
use flashdb_ko.Tsdb.Append.{advance}
use flashdb_ko.Tsdb.Logs.{Entry, data_len, LogsAt, advance_all, tsl_of, log_room_lem, advance_lem}

start_lem : (a : ℕ) → a + 16 * 0 ≡ a
start_lem a = omega arith

advance_all-none :
    (sector : TsdbSecInfo) (logs : List Entry) → length logs ≡ 0 → advance_all sector logs ≡ sector
unfolding advance_all
advance_all-none sector [] none_left = refl
advance_all-none sector (e ∷ logs) none_left = absurd (omega arith)

module _ (fl : Flash) (max_len : ℕ) where
  -- What the traversal comes to, whichever error it reports.
  abbrev pub Ends : ℕ → ℕ → TsdbSecInfo → TsdbSecInfo → Type 0
  Ends fuel index sector sector' =
      (err : FdbErr) × (traverse_logs fl max_len fuel index sector ≡ some (err, sector'))

  at_end :
      (fuel index : ℕ) (sector : TsdbSecInfo)
      → (read_tsl fl max_len index).status ≡ fdb_tsl_unused
      → Ends (suc fuel) index sector sector
  unfolding traverse_logs
  at_end fuel index sector unused = (no_err, rw (traverse_logs, unused) refl)

  -- One round, where the log is not the last that fits.
  go_on :
      (fuel : ℕ) (sector : TsdbSecInfo) (top : ℕ) (e : Entry)
      → read_tsl fl max_len sector.empty_idx ≡ tsl_of sector.empty_idx top e
      → ltb (log_room (length e.blob)) sector.remain ≡ true
      → traverse_logs fl max_len (suc fuel) sector.empty_idx sector
        ≡ traverse_logs fl max_len fuel
            (add32 sector.empty_idx 16)
            (advance sector (length e.blob) e.time)
  unfolding traverse_logs advance
  go_on fuel sector top e read more = rw (traverse_logs, read, read, more, read) refl

  -- The round of a log that fills the sector.
  stop_full :
      (fuel : ℕ) (sector : TsdbSecInfo) (top : ℕ) (e : Entry)
      → read_tsl fl max_len sector.empty_idx ≡ tsl_of sector.empty_idx top e
      → ltb (log_room (length e.blob)) sector.remain ≡ false
      → sub32 sector.remain (log_room (length e.blob)) ≡ 0
      → traverse_logs fl max_len (suc fuel) sector.empty_idx sector
        ≡ some (read_err, advance sector (length e.blob) e.time)
  unfolding traverse_logs advance
  stop_full fuel sector top e read more none_left =
      rw (traverse_logs, read, read, more, read, none_left) refl

  -- With a round for each log and one more, the traversal ends with the free addresses behind the
  -- logs, if they end before the sector is full, or fill it to the last byte.
  pub traverse-LogsAt :
      (logs : List Entry) (fuel : ℕ) (sector : TsdbSecInfo)
      → length logs < fuel
      → sector.empty_data < 0x1_0000_0000
      → sector.empty_idx + 16 * length logs + data_len logs ≤ sector.empty_data
      → sector.remain ≡ sector.empty_data - sector.empty_idx
      → LogsAt fl max_len sector.empty_idx sector.empty_data logs
      → (sector.empty_idx + 16 * length logs + data_len logs < sector.empty_data
          → (read_tsl fl max_len (sector.empty_idx + 16 * length logs)).status ≡ fdb_tsl_unused)
      → 0 < sector.remain
      → Ends fuel sector.empty_idx sector (advance_all sector logs)
  unfolding LogsAt data_len advance_all
  traverse-LogsAt [] (suc fuel) sector more word fits rem held free some_room =
      at_end fuel sector.empty_idx sector (rw (start_lem sector.empty_idx) at (free (omega arith)))
  traverse-LogsAt [] zero sector more word fits rem held free some_room = absurd (omega arith)
  traverse-LogsAt (e ∷ logs) zero sector more word fits rem held free some_room =
      absurd (omega arith)
  traverse-LogsAt (e ∷ logs) (suc fuel) sector more word fits rem ((index, blob), rest) free
        some_room =
      let after = advance sector (length e.blob) e.time in
      let (idx, data_end, rem') =
        advance_lem sector (length e.blob) e.time word (omega arith) rem in
      let room : log_room (length e.blob) ≡ 16 + length e.blob =
        log_room_lem (length e.blob) (omega arith) in
      let here : sector.empty_idx + 16 * suc (length logs) ≡ after.empty_idx + 16 * length logs =
        omega (arith, idx) in
      elim (Bool-cases (ltb (log_room (length e.blob)) sector.remain)) [
        | inl larger ↦
            let left : log_room (length e.blob) < sector.remain = ground arith in
            let (err, ends) =
              traverse-LogsAt logs fuel after (omega arith) (omega arith) (omega arith) rem'
                (rw (idx, data_end) rest) (λ h. rw here at (free (omega arith))) (omega arith) in
            (err, go_on fuel sector sector.empty_data e index larger ∙ ends)
        | inr filled ↦ (
          read_err,
          stop_full fuel sector sector.empty_data e index filled (ground (arith, room))
              ∙ ap (λ (t : TsdbSecInfo). some (read_err, t))
                  (sym (advance_all-none after logs (ground (arith, room)))),
        )
      ]
