-- ===== src/Status/RoundTrip.antt =====
-- A status table is read back as the status that was set.
use flashdb_ko.Prelude.{
  ℕ, zero, suc, ◌+◌, ◌-◌, ◌/◌, ◌%◌, ◌^◌, ◌≤◌, ◌<◌, ◌≡◌, ◌≢◌, refl, ap, ◌∙◌, ◌⊎◌, inl, inr, List, [],
  ◌∷◌, Bool, true, false, ◌&&◌, ◌==◌, ==_iff, if◌then◌else◌, ltb, bit_and, get_or, set, replicate,
  length, length-replicate, lt→ltb, le→ltb_false, all_below, all_below_sound, same, same→eq, arith,
}
use native.Mathlib.Decide.{dec_lt, ℕ_discrete}
use flashdb_ko.Status.{
  fdb_status_table_size, fdb_set_status, bit_is_clear, get_status_loop, fdb_get_status,
}

get_or-replicate : (n i v d : ℕ) → i < n → get_or (replicate n v) i d ≡ v
get_or-replicate zero i v d h = absurd (omega arith)
get_or-replicate (suc n) zero v d h = refl
get_or-replicate (suc n) (suc i) v d h = get_or-replicate n i v d (omega arith)

get_or-set :
    (xs : List ℕ) (i j v d : ℕ)
    → i < length xs
    → get_or (set xs i v) j d ≡ (if i == j then v else get_or xs j d)
get_or-set [] i j v d h = absurd (omega arith)
get_or-set (x ∷ xs) zero zero v d h = refl
get_or-set (x ∷ xs) zero (suc j) v d h = ground arith
get_or-set (x ∷ xs) (suc i) zero v d h = ground arith
get_or-set (x ∷ xs) (suc i) (suc j) v d h = ground (arith, get_or-set xs i j v d)

-- Whether a bit of a byte shifted right out of 0xFF is clear, for each shift and each bit.
abbrev low_clear : ℕ → ℕ → Bool
low_clear k j = bit_and (0xff / 2 ^ k) (0x80 / 2 ^ j) == 0

low_clear_checked : all_below 8 (λ k. all_below 8 (λ j. same (low_clear k j) (ltb j k))) ≡ true
unfolding all_below
low_clear_checked = refl

low_clear-ltb : (k j : ℕ) → k < 8 → j < 8 → low_clear k j ≡ ltb j k
low_clear-ltb k j p q = same→eq _ _ (
    all_below_sound 8 (λ i. same (low_clear k i) (ltb i k)) j
      (all_below_sound 8 (λ i. all_below 8 (λ l. same (low_clear i l) (ltb l i))) k
        low_clear_checked p)
      q)

mask_checked : all_below 8 (λ k. bit_and 0xff (0xff / 2 ^ k) == 0xff / 2 ^ k) ≡ true
unfolding all_below
mask_checked = refl

pub mask_lem : (k : ℕ) → k < 8 → bit_and 0xff (0xff / 2 ^ k) ≡ 0xff / 2 ^ k
mask_lem k h = (==_iff _ _).0 (all_below_sound 8 _ k mask_checked h)

-- The bits that `_fdb_set_status` leaves clear: those of its byte in front of the index.
bit_is_clear-set :
    (num idx n : ℕ)
    → 0 < idx
    → idx < num
    → n < num
    → bit_is_clear (fdb_set_status num idx).1 n ≡ ((idx - 1) / 8 == n / 8) && ltb (n % 8) (idx % 8)
unfolding bit_is_clear fdb_set_status
bit_is_clear-set num idx n pos below inside =
    rw
      (
        lt→ltb 0 idx pos,
        get_or-replicate (fdb_status_table_size num) ((idx - 1) / 8) 0xff 0 (omega arith),
        mask_lem (idx % 8) (omega arith),
        get_or-set (replicate (fdb_status_table_size num) 0xff) ((idx - 1) / 8) (n / 8)
            (0xff / 2 ^ (idx % 8)) 0
            (omega (arith, length-replicate {A = ℕ} (fdb_status_table_size num) 255)),
        get_or-replicate (fdb_status_table_size num) (n / 8) 0xff 0 (omega arith),
      )
      (ground (
        arith,
        low_clear-ltb (idx % 8) (n % 8) (omega arith) (omega arith),
        low_clear-ltb 0 (n % 8) (omega arith) (omega arith),
      ))

bit_is_clear-erased : (num n : ℕ) → n < num → bit_is_clear (fdb_set_status num 0).1 n ≡ false
unfolding bit_is_clear fdb_set_status
bit_is_clear-erased num n h =
    rw (get_or-replicate (fdb_status_table_size num) (n / 8) 0xff 0 (omega arith))
      (low_clear-ltb 0 (n % 8) (omega arith) (omega arith) ∙ le→ltb_false (n % 8) 0 (omega arith))

-- The loop over a table in which none of the first `n` bits is clear runs to the end.
loop_none :
    (t : List ℕ) (n i : ℕ)
    → ((p : ℕ) → p < n → bit_is_clear t p ≡ false)
    → get_status_loop t n i ≡ i + n
unfolding get_status_loop
loop_none t zero i h = omega arith
loop_none t (suc n) i h = ground (arith, h n, loop_none t n (i + 1) (λ p q. h p (omega arith)))

-- It stops at the last clear bit.
loop_at :
    (t : List ℕ) (n i k : ℕ)
    → k < n
    → bit_is_clear t k ≡ true
    → ((p : ℕ) → k < p → p < n → bit_is_clear t p ≡ false)
    → get_status_loop t n i ≡ i + (n - suc k)
unfolding get_status_loop
loop_at t zero i k lt at h = absurd (omega arith)
loop_at t (suc n) i k lt at h = elim (dec_lt k n) [
  | yes p ↦
      ground (arith, h n p, loop_at t n (i + 1) k p at (λ q below inside. h q below (omega arith)))
  | no p ↦ let e : n ≡ k = omega arith in ground (arith, ap (bit_is_clear t) e)
]

not_clear :
    (num idx n : ℕ)
    → idx < num
    → n < num
    → (idx % 8 ≡ 0) ⊎ (idx ≤ n)
    → bit_is_clear (fdb_set_status num idx).1 n ≡ false
not_clear num zero n below inside why = bit_is_clear-erased num n inside
not_clear num (suc idx) n below inside why =
    ground (arith, bit_is_clear-set num (suc idx) n (omega arith) below inside)

is_clear :
    (num idx : ℕ)
    → idx < num
    → idx % 8 ≢ 0
    → bit_is_clear (fdb_set_status num idx).1 (idx - 1) ≡ true
is_clear num idx below h =
    ground (arith, bit_is_clear-set num idx (idx - 1) (omega arith) below (omega arith))

pub get_status-set_status :
    (num idx : ℕ)
    → idx < num
    → num < 0x1_0000_0000
    → fdb_get_status (fdb_set_status num idx).1 num ≡ (if idx % 8 == 0 then 0 else idx)
unfolding fdb_get_status
get_status-set_status num idx below word = elim (ℕ_discrete (idx % 8) 0) [
  | yes e ↦
      ground
        (arith, loop_none t (num - 1) 0 (λ p q. not_clear num idx p below (omega arith) (inl e)))
  | no ne ↦ ground (
    arith,
    loop_at t (num - 1) 0 (idx - 1) (omega arith) (is_clear num idx below ne)
        (λ p after q. not_clear num idx p below (omega arith) (inr (omega arith))),
  )
]
  where
    t : List ℕ
    t = (fdb_set_status num idx).1
