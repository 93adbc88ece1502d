-- ===== src/Tsdb/Logs/Times.antt =====
-- The times of the logs that a sector holds, as the search by time meets them.
use flashdb_ko.Prelude.{
  ℕ, zero, suc, ◌+◌, ◌-◌, ◌<◌, ◌≡◌, refl, ap, ◌∙◌, List, [], ◌∷◌, length, arith,
}
use flashdb_ko.Prelude.Words.{flip_sign}
use flashdb_ko.Storage.{Flash}
use flashdb_ko.Tsdb.Types.{FdbTsl, TsdbSecInfo}
use flashdb_ko.Tsdb.Walk.{read_tsl}
use flashdb_ko.Tsdb.Search.LowerBound.{slot}
use flashdb_ko.Tsdb.Append.{advance}
use flashdb_ko.Tsdb.Logs.{Entry, LogsAt, advance_all}
use flashdb_ko.Tsdb.Series.{Above, last_of}

module _ (fl : Flash) (max_len : ℕ) where
  -- The time at the index `k` of the logs from `b` on.
  abbrev pub time_at : ℕ → ℕ → ℕ
  time_at b k = flip_sign (read_tsl fl max_len (slot b k)).time

  pub time_at-suc : (b k : ℕ) → time_at b (suc k) ≡ time_at (b + 16) k
  time_at-suc b k =
      ap (λ (i : ℕ). flip_sign (read_tsl fl max_len i).time) {x = slot b (suc k)}
        {y = slot (b + 16) k} (omega arith)

  pub time_at-first :
      (b top : ℕ) (e : Entry) (logs : List Entry)
      → LogsAt fl max_len b top (e ∷ logs)
      → time_at b 0 ≡ flip_sign e.time
  unfolding LogsAt
  time_at-first b top e logs ((index, blob), rest) =
      ap (λ (i : ℕ). flip_sign (read_tsl fl max_len i).time) {x = slot b 0} {y = b} (omega arith)
      ∙ ap (λ (t : FdbTsl). flip_sign t.time) index

  Above-LogsAt :
      (b top lo : ℕ) (logs : List Entry)
      → LogsAt fl max_len b top logs
      → Above lo logs
      → (k : ℕ) → k < length logs
      → lo < time_at b k
  unfolding LogsAt Above
  Above-LogsAt b top lo [] held above k h = absurd (omega arith)
  Above-LogsAt b top lo (e ∷ logs) held (first, above) zero h =
      omega (arith, time_at-first b top e logs held)
  Above-LogsAt b top lo (e ∷ logs) (here, rest) (first, above) (suc k) h =
      let later =
        Above-LogsAt (b + 16) (top - length e.blob) (flip_sign e.time) logs rest above k
          (omega arith) in
      omega (arith, later, time_at-suc b k)

  pub increasing-LogsAt :
      (b top lo : ℕ) (logs : List Entry)
      → LogsAt fl max_len b top logs
      → Above lo logs
      → (i k : ℕ) → i < k
      → k < length logs
      → time_at b i < time_at b k
  unfolding LogsAt Above
  increasing-LogsAt b top lo [] held above i k h short = absurd (omega arith)
  increasing-LogsAt b top lo (e ∷ logs) held above i zero h short = absurd (omega arith)
  increasing-LogsAt b top lo (e ∷ logs) (here, rest) (first, above) zero (suc k) h short =
      let later =
        Above-LogsAt (b + 16) (top - length e.blob) (flip_sign e.time) logs rest above k
          (omega arith) in
      omega (arith, later, time_at-suc b k, time_at-first b top e logs (here, rest))
  increasing-LogsAt b top lo (e ∷ logs) (here, rest) (first, above) (suc i) (suc k) h short =
      let later =
        increasing-LogsAt (b + 16) (top - length e.blob) (flip_sign e.time) logs rest above i k
          (omega arith) (omega arith) in
      omega (arith, later, time_at-suc b k, time_at-suc b i)

  pub time_at-last :
      (b top since : ℕ) (e : Entry) (logs : List Entry)
      → LogsAt fl max_len b top (e ∷ logs)
      → time_at b (length logs) ≡ flip_sign (last_of since (e ∷ logs))
  unfolding LogsAt last_of
  time_at-last b top since e [] held = time_at-first b top e [] held
  time_at-last b top since e (f ∷ logs) (here, rest) =
      time_at-suc b (length logs) ∙ time_at-last (b + 16) (top - length e.blob) e.time f logs rest

-- The information behind the logs has the time of the last one.
pub end_time-advance_all :
    (since : ℕ) (e : Entry) (logs : List Entry) (sector : TsdbSecInfo)
    → (advance_all sector (e ∷ logs)).end_time ≡ last_of since (e ∷ logs)
unfolding advance_all advance last_of
end_time-advance_all since e [] sector = refl
end_time-advance_all since e (f ∷ logs) sector =
    end_time-advance_all e.time f logs (advance sector (length e.blob) e.time)
