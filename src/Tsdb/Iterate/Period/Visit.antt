-- ===== src/Tsdb/Iterate/Period/Visit.antt =====
-- The visits of `fdb_tsl_iter_by_time` of FlashDB/src/fdb_tsdb.c to the logs of a sector, from the
-- one that the search found on, against the visits to all its logs.
use flashdb_ko.Prelude.{
  ℕ, zero, suc, ◌+◌, ◌*◌, ◌-◌, ◌≤◌, ◌<◌, ◌≡◌, refl, ap, ◌∙◌, sym, List, [], ◌∷◌, length, drop, Bool,
  true, false, if◌then◌else◌, ◌&&◌, leb, ◌⊎◌, inl, inr, arith,
}
use native.Mathlib.Decide.{dec_lt}
use flashdb_ko.Prelude.Words.{flip_sign}
use flashdb_ko.Storage.{Flash}
use flashdb_ko.Tsdb.Types.{FdbTsl}
use flashdb_ko.Tsdb.Iterate.{in_period, visit_in_period}
use flashdb_ko.Tsdb.Iterate.InUse.{visit}
use flashdb_ko.Tsdb.Logs.{Entry, LogsAt, tsl_of}
use flashdb_ko.Tsdb.Logs.Times.{time_at, time_at-suc, time_at-first}
use flashdb_ko.Tsdb.Series.{Above}

-- The callback on the logs of the period, and nothing on the others.
unfoldable pub only_in_period :
    {A : Type 0} → ℕ → ℕ → (FdbTsl → A → Bool × A) → FdbTsl → A → Bool × A
only_in_period from to cb tsl arg =
    if leb (flip_sign from) (flip_sign tsl.time) && leb (flip_sign tsl.time) (flip_sign to)
    then cb tsl arg
    else (false, arg)

module _ {A : Type 0} (cb : FdbTsl → A → Bool × A) (idx top : ℕ) (e : Entry) (logs : List Entry)
    (arg arg' : A) where
  -- The visit to a log, by what the callback says.
  visit-skip :
      cb (tsl_of idx top e) arg ≡ (false, arg')
      → visit cb idx top (e ∷ logs) arg ≡ visit cb (idx + 16) (top - length e.blob) logs arg'
  unfolding visit
  visit-skip said =
      ap
        (λ (r : Bool × A). elim r.0 [
          | true ↦ (true, r.1)
          | false ↦ visit cb (idx + 16) (top - length e.blob) logs r.1
        ])
        said

  visit-stop :
      cb (tsl_of idx top e) arg ≡ (true, arg') → visit cb idx top (e ∷ logs) arg ≡ (true, arg')
  unfolding visit
  visit-stop said =
      ap
        (λ (r : Bool × A). elim r.0 [
          | true ↦ (true, r.1)
          | false ↦ visit cb (idx + 16) (top - length e.blob) logs r.1
        ])
        said

-- Two callbacks that agree on a log, with visits to the later ones that agree.
visit-agree :
    {A : Type 0} (cb cb' : FdbTsl → A → Bool × A) (idx top : ℕ) (e : Entry) (logs : List Entry)
    (arg : A)
    → cb (tsl_of idx top e) arg ≡ cb' (tsl_of idx top e) arg
    → ((a : A)
        → (visit cb (idx + 16) (top - length e.blob) logs a).1
          ≡ (visit cb' (idx + 16) (top - length e.blob) logs a).1)
    → (visit cb idx top (e ∷ logs) arg).1 ≡ (visit cb' idx top (e ∷ logs) arg).1
visit-agree {A} cb cb' idx top e logs arg alike rest = by_answer (cb (tsl_of idx top e) arg) refl
  where
    by_answer :
        (r : Bool × A)
        → cb (tsl_of idx top e) arg ≡ r
        → (visit cb idx top (e ∷ logs) arg).1 ≡ (visit cb' idx top (e ∷ logs) arg).1
    by_answer (true, a) said =
        ap (λ (r : Bool × A). r.1)
          (visit-stop cb idx top e logs arg a said
            ∙ sym (visit-stop cb' idx top e logs arg a (sym alike ∙ said)))
    by_answer (false, a) said =
        ap (λ (r : Bool × A). r.1) (visit-skip cb idx top e logs arg a said)
        ∙ rest a
        ∙ ap (λ (r : Bool × A). r.1) (sym (visit-skip cb' idx top e logs arg a (sym alike ∙ said)))

module _ {A : Type 0} (from to : ℕ) (cb : FdbTsl → A → Bool × A)
    (ordered : flip_sign from ≤ flip_sign to) where
  only-outside :
      (tsl : FdbTsl) (arg : A)
      → (flip_sign tsl.time < flip_sign from) ⊎ (flip_sign to < flip_sign tsl.time)
      → only_in_period from to cb tsl arg ≡ (false, arg)
  unfolding only_in_period
  only-outside tsl arg away = ground arith

  only-inside :
      (tsl : FdbTsl) (arg : A)
      → flip_sign from ≤ flip_sign tsl.time
      → flip_sign tsl.time ≤ flip_sign to
      → only_in_period from to cb tsl arg ≡ cb tsl arg
  unfolding only_in_period
  only-inside tsl arg low high = ground arith

  in-inside :
      (idx top : ℕ) (e : Entry) (arg : A)
      → flip_sign from ≤ flip_sign e.time
      → flip_sign e.time ≤ flip_sign to
      → visit_in_period from to cb (tsl_of idx top e) arg ≡ cb (tsl_of idx top e) arg
  unfolding visit_in_period in_period
  in-inside idx top e arg low high = ground arith

  in-late :
      (idx top : ℕ) (e : Entry) (arg : A)
      → flip_sign to < flip_sign e.time
      → visit_in_period from to cb (tsl_of idx top e) arg ≡ (true, arg)
  unfolding visit_in_period in_period
  in-late idx top e arg late = ground arith

  -- Behind the period, nothing is called.
  visit-late :
      (idx top lo : ℕ) (logs : List Entry) (arg : A)
      → Above lo logs
      → flip_sign to ≤ lo
      → visit (only_in_period from to cb) idx top logs arg ≡ (false, arg)
  unfolding visit Above
  visit-late idx top lo [] arg above late = refl
  visit-late idx top lo (e ∷ logs) arg (first, above) late =
      visit-skip (only_in_period from to cb) idx top e logs arg arg
        (only-outside (tsl_of idx top e) arg (inr (omega arith)))
      ∙ visit-late (idx + 16) (top - length e.blob) (flip_sign e.time) logs arg above (omega arith)

  from_rest :
      (idx top : ℕ) (e : Entry) (logs : List Entry) (arg : A)
      → Above (flip_sign e.time) logs
      → flip_sign from ≤ flip_sign e.time
      → ((a : A)
          → (visit (visit_in_period from to cb) (idx + 16) (top - length e.blob) logs a).1
            ≡ (visit (only_in_period from to cb) (idx + 16) (top - length e.blob) logs a).1)
      → (visit (visit_in_period from to cb) idx top (e ∷ logs) arg).1
        ≡ (visit (only_in_period from to cb) idx top (e ∷ logs) arg).1
  unfolding Above
  from_rest idx top e logs arg above low rest = elim (dec_lt (flip_sign to) (flip_sign e.time)) [
    | yes late ↦
        ap (λ (r : Bool × A). r.1)
          (visit-stop (visit_in_period from to cb) idx top e logs arg arg
            (in-late idx top e arg late))
        ∙ ap (λ (r : Bool × A). r.1)
            (sym (visit-late idx top (flip_sign to) (e ∷ logs) arg (late, above) (omega arith)))
    | no high ↦
        visit-agree (visit_in_period from to cb) (only_in_period from to cb) idx top e logs arg
          (in-inside idx top e arg (omega arith) (omega arith)
            ∙ sym (only-inside (tsl_of idx top e) arg (omega arith) (omega arith)))
          rest
  ]

  -- From a log that is not too early on, the visits up to the end of the period are those to the
  -- logs of the period.
  pub visit-from :
      (idx top : ℕ) (e : Entry) (logs : List Entry)
      → Above (flip_sign e.time) logs
      → flip_sign from ≤ flip_sign e.time
      → (arg : A)
      → (visit (visit_in_period from to cb) idx top (e ∷ logs) arg).1
        ≡ (visit (only_in_period from to cb) idx top (e ∷ logs) arg).1
  unfolding Above visit
  visit-from idx top e [] above low arg = from_rest idx top e [] arg above low (λ a. refl)
  visit-from idx top e (f ∷ logs) (later, above) low arg =
      from_rest idx top e (f ∷ logs) arg (later, above) low
        (visit-from (idx + 16) (top - length e.blob) f logs above (omega arith))

  -- The logs from the index `q` on, where the ones before are too early to be visited.
  pub visit-prefix :
      (fl : Flash) (max_len q b top lo : ℕ) (logs : List Entry)
      → LogsAt fl max_len b top logs
      → Above lo logs
      → q ≤ length logs
      → ((i : ℕ) → i < q → time_at fl max_len b i < flip_sign from)
      → (top' : ℕ) × (lo' : ℕ) × LogsAt fl max_len (b + 16 * q) top' (drop q logs)
        × Above lo' (drop q logs)
        × ((arg : A)
            → visit (only_in_period from to cb) b top logs arg
              ≡ visit (only_in_period from to cb) (b + 16 * q) top' (drop q logs) arg)
  unfolding LogsAt Above
  visit-prefix fl max_len zero b top lo logs held above short early =
      let here : b + 16 * 0 ≡ b = omega arith in (top, lo, rw here held, above, λ arg. rw here refl)
  visit-prefix fl max_len (suc q) b top lo [] held above short early = absurd (omega arith)
  visit-prefix fl max_len (suc q) b top lo (e ∷ logs) (here, rest) (first, above) short early =
      let below = top - length e.blob in
      let (top', lo', held', above', same) =
        visit-prefix fl max_len q (b + 16) below (flip_sign e.time) logs rest above (omega arith)
          (λ i h. omega (arith, early (suc i) (omega arith), time_at-suc fl max_len b i)) in
      let place : b + 16 * suc q ≡ b + 16 + 16 * q = omega arith in
      (
        top',
        lo',
        rw place held',
        above',
        λ arg.
            visit-skip (only_in_period from to cb) b top e logs arg arg (
              only-outside (tsl_of b top e) arg (
                inl (
                  omega (
                    arith,
                    early 0 (omega arith),
                    time_at-first fl max_len b top e logs (here, rest),
                  ))))
            ∙ rw place (same arg),
      )
