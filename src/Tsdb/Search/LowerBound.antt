-- ===== src/Tsdb/Search/LowerBound.antt =====
-- `search_start_tsl_addr` of FlashDB/src/fdb_tsdb.c finds the first log that is not too early.
use flashdb_ko.Prelude.{
  ℕ, zero, suc, ◌+◌, ◌-◌, ◌*◌, ◌/◌, ◌≤◌, ◌<◌, ◌≡◌, refl, ap, ◌∙◌, some, true, false, lt→ltb,
  le→ltb_false, arith,
}
use native.Mathlib.Decide.{dec_lt}
use flashdb_ko.Prelude.Words.{add32, sub32, lt_int32, flip_sign, fdb_align}
use flashdb_ko.Storage.{Flash}
use flashdb_ko.Tsdb.Walk.{read_tsl}
use flashdb_ko.Tsdb.Search.{middle, found_start, search_loop, search_start_tsl_addr}

-- The address of the index `k` of a sector whose first index is at `b`.
abbrev pub slot : ℕ → ℕ → ℕ
slot b k = b + 16 * k

middle_lem :
    (b lo hi : ℕ)
    → lo < hi
    → 16 ≤ b
    → b + 16 * hi < 0x8000_0000
    → middle (slot b lo) (slot b hi - 16) ≡ slot b (lo + (hi - lo) / 2)
unfolding middle fdb_align
middle_lem b lo hi h low high = ground arith

-- The rounds of the loop, by what they find at the middle.
module _ (fl : Flash) (max_len from to fuel start end mid : ℕ) (at : middle start end ≡ mid) where
  round_early_on :
      (next : ℕ)
      → lt_int32 (read_tsl fl max_len mid).time from ≡ true
      → add32 mid 16 ≡ next
      → lt_int32 end next ≡ false
      → search_loop fl max_len (suc fuel) start end from to
        ≡ search_loop fl max_len fuel next end from to
  unfolding search_loop
  round_early_on next early to_next on =
      rw (search_loop, at, early, at, to_next, on, at, to_next) refl

  round_early_off :
      (next : ℕ)
      → lt_int32 (read_tsl fl max_len mid).time from ≡ true
      → add32 mid 16 ≡ next
      → lt_int32 end next ≡ true
      → search_loop fl max_len (suc fuel) start end from to
        ≡ some (found_start fl max_len next from to)
  unfolding search_loop
  round_early_off next early to_next off =
      rw (search_loop, at, early, at, to_next, off, at, to_next) refl

  round_late_on :
      (next : ℕ)
      → lt_int32 (read_tsl fl max_len mid).time from ≡ false
      → lt_int32 from (read_tsl fl max_len mid).time ≡ true
      → sub32 mid 16 ≡ next
      → lt_int32 next start ≡ false
      → search_loop fl max_len (suc fuel) start end from to
        ≡ search_loop fl max_len fuel start next from to
  unfolding search_loop
  round_late_on next late above to_next on =
      rw (search_loop, at, late, at, above, at, to_next, on, at, to_next) refl

  round_late_off :
      (next : ℕ)
      → lt_int32 (read_tsl fl max_len mid).time from ≡ false
      → lt_int32 from (read_tsl fl max_len mid).time ≡ true
      → sub32 mid 16 ≡ next
      → lt_int32 next start ≡ true
      → search_loop fl max_len (suc fuel) start end from to
        ≡ some (found_start fl max_len start from to)
  unfolding search_loop
  round_late_off next late above to_next off =
      rw (search_loop, at, late, at, above, at, to_next, off) refl

  round_hit :
      lt_int32 (read_tsl fl max_len mid).time from ≡ false
      → lt_int32 from (read_tsl fl max_len mid).time ≡ false
      → search_loop fl max_len (suc fuel) start end from to ≡ some mid
  unfolding search_loop
  round_hit late above = rw (search_loop, at, late, at, above, at) refl

module _ (fl : Flash) (max_len b n from to : ℕ) where
  -- The time of the log `k`, as a number in the order of `fdb_time_t`.
  abbrev pub time_of : ℕ → ℕ
  time_of k = flip_sign (read_tsl fl max_len (slot b k)).time

  -- `q` logs are earlier than `from`, and they come first.
  pub record FirstFrom (q : ℕ) : Type 0 where
    pub in_range : q ≤ n
    pub earlier : (i : ℕ) → i < q → time_of i < flip_sign from
    pub not_earlier : (k : ℕ) → q ≤ k → k < n → flip_sign from ≤ time_of k

  module _ (increasing : (i k : ℕ) → i < k → k < n → time_of i < time_of k) (low : 16 ≤ b)
      (high : b + 16 * n < 0x8000_0000) (ordered : flip_sign from ≤ flip_sign to) where
    found_start_lem : (start : ℕ) → found_start fl max_len start from to ≡ start
    unfolding found_start
    found_start_lem start = ground arith

    earlier_to :
        (mid : ℕ)
        → mid < n
        → time_of mid < flip_sign from
        → (i : ℕ) → i < suc mid
        → time_of i < flip_sign from
    earlier_to mid h early i p = elim (dec_lt i mid) [
      | yes q ↦ omega (arith, early, increasing i mid q h)
      | no q ↦ omega (arith, early, ap time_of {x = i} {y = mid} (omega arith))
    ]

    later_from :
        (mid : ℕ)
        → flip_sign from ≤ time_of mid
        → (k : ℕ) → mid ≤ k
        → k < n
        → flip_sign from ≤ time_of k
    later_from mid late k p h = elim (dec_lt mid k) [
      | yes q ↦ omega (arith, late, increasing mid k q h)
      | no q ↦ omega (arith, late, ap time_of {x = mid} {y = k} (omega arith))
    ]

    search_loop-FirstFrom :
        (fuel lo hi : ℕ)
        → lo < hi
        → hi ≤ n
        → hi ≤ lo + fuel
        → ((i : ℕ) → i < lo → time_of i < flip_sign from)
        → ((k : ℕ) → hi ≤ k → k < n → flip_sign from ≤ time_of k)
        → (q : ℕ) × (search_loop fl max_len fuel (slot b lo) (slot b hi - 16) from to
            ≡ some (slot b q))
          × FirstFrom q
    unfolding search_loop
    search_loop-FirstFrom zero lo hi h top enough before after = absurd (omega arith)
    search_loop-FirstFrom (suc fuel) lo hi h top enough before after =
        let mid = lo + (hi - lo) / 2 in
        let inside : mid < hi = omega arith in
        let at : middle (slot b lo) (slot b hi - 16) ≡ slot b mid =
          middle_lem b lo hi h low (omega arith) in
        elim (dec_lt (time_of mid) (flip_sign from)) [
          | yes early ↦
              let next : add32 (slot b mid) 16 ≡ slot b (suc mid) = omega arith in
              let before' = earlier_to mid (omega arith) early in
              let low_time : lt_int32 (read_tsl fl max_len (slot b mid)).time from ≡ true =
                lt→ltb (time_of mid) (flip_sign from) early in
              elim (dec_lt (suc mid) hi) [
                | yes more ↦
                    let on : lt_int32 (slot b hi - 16) (slot b (suc mid)) ≡ false = ground arith in
                    let run =
                      search_loop-FirstFrom fuel (suc mid) hi more top (omega arith) before'
                        after in
                    (
                      run.0,
                      round_early_on fl max_len from to fuel (slot b lo) (slot b hi - 16)
                            (slot b mid) at (slot b (suc mid)) low_time next on
                          ∙ run.1,
                      run.2,
                    )
                | no done ↦
                    let off : lt_int32 (slot b hi - 16) (slot b (suc mid)) ≡ true = ground arith in
                    (
                      suc mid,
                      round_early_off fl max_len from to fuel (slot b lo) (slot b hi - 16)
                            (slot b mid) at (slot b (suc mid)) low_time next off
                          ∙ ap some (found_start_lem (slot b (suc mid))),
                      record {
                        in_range = omega arith;
                        earlier = before';
                        not_earlier = λ k p q. after k (omega arith) q;
                      },
                    )
              ]
          | no late ↦
              let after' = later_from mid (omega arith) in
              let low_time : lt_int32 (read_tsl fl max_len (slot b mid)).time from ≡ false =
                le→ltb_false (time_of mid) (flip_sign from) (omega arith) in
              elim (dec_lt (flip_sign from) (time_of mid)) [
                | yes high_time ↦
                    let above : lt_int32 from (read_tsl fl max_len (slot b mid)).time ≡ true =
                      lt→ltb (flip_sign from) (time_of mid) high_time in
                    let back : sub32 (slot b mid) 16 ≡ slot b mid - 16 = omega arith in
                    elim (dec_lt lo mid) [
                      | yes more ↦
                          let on : lt_int32 (slot b mid - 16) (slot b lo) ≡ false = ground arith in
                          let run =
                            search_loop-FirstFrom fuel lo mid more (omega arith) (omega arith)
                              before after' in
                          (
                            run.0,
                            round_late_on fl max_len from to fuel (slot b lo) (slot b hi - 16)
                                  (slot b mid) at (slot b mid - 16) low_time above back on
                                ∙ run.1,
                            run.2,
                          )
                      | no done ↦
                          let off : lt_int32 (slot b mid - 16) (slot b lo) ≡ true = ground arith in
                          (
                            lo,
                            round_late_off fl max_len from to fuel (slot b lo) (slot b hi - 16)
                                  (slot b mid) at (slot b mid - 16) low_time above back off
                                ∙ ap some (found_start_lem (slot b lo)),
                            record {
                              in_range = omega arith;
                              earlier = before;
                              not_earlier = λ k p q. after' k (omega arith) q;
                            },
                          )
                    ]
                | no equal ↦
                    let above : lt_int32 from (read_tsl fl max_len (slot b mid)).time ≡ false =
                      le→ltb_false (flip_sign from) (time_of mid) (omega arith) in
                    (
                      mid,
                      round_hit fl max_len from to fuel (slot b lo) (slot b hi - 16) (slot b mid) at
                          low_time above,
                      record {
                        in_range = omega arith;
                        earlier = λ i p. omega (arith, increasing i mid p (omega arith), equal);
                        not_earlier = after';
                      },
                    )
              ]
        ]

    -- In a sector of `n` logs with increasing times, where `from` is not after `to`, and whose
    -- addresses are below 2 ^ 31: the search over all its logs ends, and returns the address of the
    -- first log that is not earlier than `from`, or the address behind the last log if all are.
    pub search_start_tsl_addr-FirstFrom :
        0 < n
        → (q : ℕ) × (search_start_tsl_addr fl max_len (slot b 0) (slot b (n - 1)) from to
            ≡ some (slot b q))
          × FirstFrom q
    unfolding search_start_tsl_addr
    search_start_tsl_addr-FirstFrom some_log =
        let last : slot b (n - 1) ≡ slot b n - 16 = omega arith in
        let rounds : sub32 (slot b (n - 1)) (slot b 0) / 16 ≡ n - 1 = omega arith in
        let run =
          search_loop-FirstFrom (suc (n - 1)) 0 n some_log (omega arith) (omega arith)
            (λ i p. absurd (omega arith)) (λ k p q. absurd (omega arith)) in
        (run.0, loop_from_ends rounds last ∙ run.1, run.2)
      where
        loop_from_ends :
            sub32 (slot b (n - 1)) (slot b 0) / 16 ≡ n - 1
            → slot b (n - 1) ≡ slot b n - 16
            → search_start_tsl_addr fl max_len (slot b 0) (slot b (n - 1)) from to
              ≡ search_loop fl max_len (suc (n - 1)) (slot b 0) (slot b n - 16) from to
        loop_from_ends rounds last =
            ap (λ (t : ℕ). search_loop fl max_len (suc t) (slot b 0) (slot b (n - 1)) from to)
              rounds
            ∙ ap (λ (t : ℕ). search_loop fl max_len (suc (n - 1)) (slot b 0) t from to) last
