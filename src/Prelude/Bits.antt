-- ===== src/Prelude/Bits.antt =====
-- Laws of `^` and `&` at variables. The native operations mean a recursion on binary digits with
-- fuel; here the fuel is dropped, and the laws go by strong induction on the digits.
use Prim.Native.Nat.{
  ℕ, zero, suc, ◌+◌, ◌-◌, ◌*◌, ◌/◌, ◌%◌, ◌^◌, ◌≤◌, ◌<◌, min, differ, digits, bitwise, bit_xor,
  bit_and, bit_xor-bitwise, bit_and-bitwise,
}
use mathlib.Core.Path.{◌≡◌, refl, ap, sym, ◌∙◌}
use native.Mathlib.Nat.{le_refl, pow-suc}
use native.Mathlib.Omega.{arith}

module _ (base : ℕ → ℕ) (f : ℕ → ℕ → ℕ) where
  digits_of_zero : (fuel y : ℕ) → digits base f fuel 0 y ≡ base y
  digits_of_zero zero y = refl
  digits_of_zero (suc fuel) y = refl

  -- Fuel beyond the first number changes nothing.
  digits_stable :
      (fuel more x y : ℕ) → x ≤ fuel → digits base f (fuel + more) x y ≡ digits base f fuel x y
  digits_stable fuel more zero y le = digits_of_zero (fuel + more) y ∙ sym (digits_of_zero fuel y)
  digits_stable zero more (suc x) y le = absurd (omega arith)
  digits_stable (suc fuel) more (suc x) y le =
      let shift : suc fuel + more ≡ suc (fuel + more) = omega arith in
      rw (shift, digits_stable fuel more (suc x / 2) (y / 2) (omega arith))

  bitwise-suc :
      (x y : ℕ)
      → bitwise base f (suc x) y ≡ f (suc x % 2) (y % 2) + 2 * bitwise base f (suc x / 2) (y / 2)
  bitwise-suc x y =
      let half = suc x / 2 in
      let split : half + (x - half) ≡ x = omega arith in
      omega (arith, rw split at (digits_stable half (x - half) half (y / 2) (le_refl _)))

differ_digits : (a b : ℕ) → a < 2 → b < 2 → differ a b ≡ (a + b) % 2
differ_digits zero zero p q = refl
differ_digits zero (suc b) p q = ground arith
differ_digits (suc a) zero p q = ground arith
differ_digits (suc a) (suc b) p q = ground arith

zero-bit_xor : (b : ℕ) → bit_xor 0 b ≡ b
zero-bit_xor b = bit_xor-bitwise 0 b

-- The lowest digit, and the digits above it.
pub bit_xor_step : (a b : ℕ) → bit_xor a b ≡ bit_xor (a / 2) (b / 2) * 2 + (a % 2 + b % 2) % 2
bit_xor_step zero b = omega (arith, zero-bit_xor b, zero-bit_xor (b / 2))
bit_xor_step (suc a) b = omega (
  arith,
  bit_xor-bitwise (suc a) b,
  bit_xor-bitwise (suc a / 2) (b / 2),
  bitwise-suc (λ y. y) differ a b,
  differ_digits (suc a % 2) (b % 2) (omega arith) (omega arith),
)

pub bit_xor-half : (a b : ℕ) → bit_xor a b / 2 ≡ bit_xor (a / 2) (b / 2)
bit_xor-half a b = omega (arith, bit_xor_step a b)

pub bit_xor-parity : (a b : ℕ) → bit_xor a b % 2 ≡ (a % 2 + b % 2) % 2
bit_xor-parity a b = omega (arith, bit_xor_step a b)

bit_xor_assoc_fuel : (n a b c : ℕ) → a ≤ n → bit_xor (bit_xor a b) c ≡ bit_xor a (bit_xor b c)
bit_xor_assoc_fuel n zero b c h = rw (zero-bit_xor b, zero-bit_xor (bit_xor b c))
bit_xor_assoc_fuel zero (suc a) b c h = absurd (omega arith)
bit_xor_assoc_fuel (suc n) (suc a) b c h = omega (
  arith,
  bit_xor_step (bit_xor (suc a) b) c,
  bit_xor_step (suc a) (bit_xor b c),
  ap (λ (t : ℕ). bit_xor t (c / 2)) (bit_xor-half (suc a) b),
  ap (λ (t : ℕ). bit_xor (suc a / 2) t) (bit_xor-half b c),
  bit_xor-parity (suc a) b,
  bit_xor-parity b c,
  bit_xor_assoc_fuel n (suc a / 2) (b / 2) (c / 2) (omega arith),
)

pub bit_xor_assoc : (a b c : ℕ) → bit_xor (bit_xor a b) c ≡ bit_xor a (bit_xor b c)
bit_xor_assoc a b c = bit_xor_assoc_fuel a a b c (le_refl _)

bit_xor_self_fuel : (n a : ℕ) → a ≤ n → bit_xor a a ≡ 0
bit_xor_self_fuel n zero h = refl
bit_xor_self_fuel zero (suc a) h = absurd (omega arith)
bit_xor_self_fuel (suc n) (suc a) h =
    omega (arith, bit_xor_step (suc a) (suc a), bit_xor_self_fuel n (suc a / 2) (omega arith))

pub bit_xor_self : (a : ℕ) → bit_xor a a ≡ 0
bit_xor_self a = bit_xor_self_fuel a a (le_refl _)

bit_xor-zero_fuel : (n a : ℕ) → a ≤ n → bit_xor a 0 ≡ a
bit_xor-zero_fuel n zero h = refl
bit_xor-zero_fuel zero (suc a) h = absurd (omega arith)
bit_xor-zero_fuel (suc n) (suc a) h =
    omega (arith, bit_xor_step (suc a) 0, bit_xor-zero_fuel n (suc a / 2) (omega arith))

pub bit_xor-zero : (a : ℕ) → bit_xor a 0 ≡ a
bit_xor-zero a = bit_xor-zero_fuel a a (le_refl _)

-- A second `^` with the same word undoes the first.
pub bit_xor_cancel : (a m : ℕ) → bit_xor (bit_xor a m) m ≡ a
bit_xor_cancel a m = rw (bit_xor_assoc a m m, bit_xor_self m) (bit_xor-zero a)

bit_xor_comm_fuel : (n a b : ℕ) → a + b ≤ n → bit_xor a b ≡ bit_xor b a
bit_xor_comm_fuel n zero b h = rw (zero-bit_xor b, bit_xor-zero b)
bit_xor_comm_fuel zero (suc a) b h = absurd (omega arith)
bit_xor_comm_fuel (suc n) (suc a) b h = omega (
  arith,
  bit_xor_step (suc a) b,
  bit_xor_step b (suc a),
  bit_xor_comm_fuel n (suc a / 2) (b / 2) (omega arith),
)

pub bit_xor_comm : (a b : ℕ) → bit_xor a b ≡ bit_xor b a
bit_xor_comm a b = bit_xor_comm_fuel (a + b) a b (le_refl _)

-- `^` of two disjoint fields is their sum.
pub bit_xor_fields : (k q r : ℕ) → r < 2 ^ k → bit_xor (q * 2 ^ k) r ≡ q * 2 ^ k + r
bit_xor_fields zero q r h = ground (arith, bit_xor-zero q)
bit_xor_fields (suc k) q r h = ground (
  arith,
  bit_xor_step (q * 2 ^ suc k) r,
  ap (λ (t : ℕ). q * t) (pow-suc 2 k),
  pow-suc 2 k,
  bit_xor_fields k q (r / 2) (omega arith),
)

-- The low digits of `&`, one at a time; a mask of ones keeps as many digits as it has.
pub bit_and_step : (x y : ℕ) → bit_and x y ≡ min (x % 2) (y % 2) + 2 * bit_and (x / 2) (y / 2)
bit_and_step zero y = simp bit_and-bitwise (omega arith)
bit_and_step (suc x) y = simp bit_and-bitwise (bitwise-suc (λ t. 0) min x y)

and_zero_below : (bound x : ℕ) → x ≤ bound → bit_and x 0 ≡ 0
and_zero_below bound zero le = refl
and_zero_below zero (suc x) le = absurd (omega arith)
and_zero_below (suc bound) (suc x) le =
    omega (arith, bit_and_step (suc x) 0, and_zero_below bound (suc x / 2) (omega arith))

pub bit_and-zero : (x : ℕ) → bit_and x 0 ≡ 0
bit_and-zero x = and_zero_below x x (le_refl _)

mask_two : (x : ℕ) → bit_and x 3 ≡ x % 4
mask_two x = omega (arith, bit_and_step x 3, bit_and_step (x / 2) 1, bit_and-zero (x / 2 / 2))

mask_four : (x : ℕ) → bit_and x 15 ≡ x % 16
mask_four x = omega (arith, bit_and_step x 15, bit_and_step (x / 2) 7, mask_two (x / 2 / 2))

mask_six : (x : ℕ) → bit_and x 63 ≡ x % 64
mask_six x = omega (arith, bit_and_step x 63, bit_and_step (x / 2) 31, mask_four (x / 2 / 2))

-- `a & 0xFF` is the low byte.
pub bit_and_byte : (a : ℕ) → bit_and a 255 ≡ a % 256
bit_and_byte a = omega (arith, bit_and_step a 255, bit_and_step (a / 2) 127, mask_six (a / 2 / 2))

pub bit_xor_swap : (x y p : ℕ) → bit_xor (bit_xor x p) y ≡ bit_xor (bit_xor x y) p
bit_xor_swap x y p = cc (bit_xor_assoc x p y, bit_xor_comm p y, bit_xor_assoc x y p)

-- A word that both sides carry drops out.
pub bit_xor_common : (x y p : ℕ) → bit_xor (bit_xor x p) (bit_xor y p) ≡ bit_xor x y
bit_xor_common x y p =
    bit_xor_swap x (bit_xor y p) p
    ∙ ap (λ (t : ℕ). bit_xor t p) (sym (bit_xor_assoc x y p))
    ∙ bit_xor_cancel (bit_xor x y) p

div_four : (a : ℕ) → a / 2 / 2 ≡ a / 4
div_four a = omega arith

bit_xor-div4 : (a b : ℕ) → bit_xor a b / 4 ≡ bit_xor (a / 4) (b / 4)
bit_xor-div4 a b =
    rw (← div_four a, ← div_four b) (omega (arith, bit_xor-half a b, bit_xor-half (a / 2) (b / 2)))

div_sixteen : (a : ℕ) → a / 4 / 4 ≡ a / 16
div_sixteen a = omega arith

bit_xor-div16 : (a b : ℕ) → bit_xor a b / 16 ≡ bit_xor (a / 16) (b / 16)
bit_xor-div16 a b =
    rw (← div_sixteen a, ← div_sixteen b)
      (omega (arith, bit_xor-div4 a b, bit_xor-div4 (a / 4) (b / 4)))

div_byte : (a : ℕ) → a / 16 / 16 ≡ a / 256
div_byte a = omega arith

-- `^` of a word with a byte leaves the bits above the byte alone.
pub bit_xor_byte-div : (a b : ℕ) → b < 256 → bit_xor a b / 256 ≡ a / 256
bit_xor_byte-div a b h =
    omega (arith, bit_xor-div16 a b, bit_xor-div16 (a / 16) (b / 16), zero_high, div_byte a)
  where
    zero_high : bit_xor (a / 16 / 16) (b / 16 / 16) ≡ a / 16 / 16
    zero_high = let e : b / 16 / 16 ≡ 0 = omega arith in rw e (bit_xor-zero (a / 16 / 16))

-- `^` of two words is a word.
pub bit_xor_below : (k a b : ℕ) → a < 2 ^ k → b < 2 ^ k → bit_xor a b < 2 ^ k
bit_xor_below zero zero zero p q = ground (arith, bit_xor-zero 0)
bit_xor_below zero zero (suc b) p q = absurd (omega arith)
bit_xor_below zero (suc a) b p q = absurd (omega arith)
bit_xor_below (suc k) a b p q = omega (
  arith,
  pow-suc 2 k,
  bit_xor_step a b,
  bit_xor_below k (a / 2) (b / 2) (omega (arith, pow-suc 2 k)) (omega (arith, pow-suc 2 k)),
)
