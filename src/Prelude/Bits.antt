-- ===== src/Prelude/Bits.antt =====
-- `bit_xor`, `bit_and` and `bit_or` at variables: one equation for the lowest digit of each, and the
-- laws of words that follow from it.
use Prim.Native.Nat.{
  ℕ, zero, suc, ◌+◌, ◌*◌, ◌/◌, ◌%◌, ◌^◌, ◌≤◌, ◌<◌, min, max, bit_and, bit_or, bit_xor, bitwise,
  digits, differ, bit_and-bitwise, bit_or-bitwise, bit_xor-bitwise,
}
use mathlib.Core.Path.{◌≡◌, refl, ap}
use native.Mathlib.Nat.{pow-suc}
use native.Mathlib.Omega.{arith}

-- The count of digits to go does not matter once it covers the first number.
module _ (z : ℕ → ℕ) (f : ℕ → ℕ → ℕ) where
  digits_count : (n m a b : ℕ) → a ≤ n → a ≤ m → digits z f n a b ≡ digits z f m a b
  digits_count zero zero a b hn hm = refl
  digits_count zero (suc m) zero b hn hm = refl
  digits_count zero (suc m) (suc a) b hn hm = absurd (omega arith)
  digits_count (suc n) zero zero b hn hm = refl
  digits_count (suc n) zero (suc a) b hn hm = absurd (omega arith)
  digits_count (suc n) (suc m) zero b hn hm = refl
  digits_count (suc n) (suc m) (suc a) b hn hm =
      ap (λ t. t * 2 + f (suc a % 2) (b % 2))
        (digits_count n m (suc a / 2) (b / 2) (omega arith) (omega arith))

  bitwise_low :
      (a b : ℕ)
      → bitwise z f (suc a) b ≡ bitwise z f (suc a / 2) (b / 2) * 2 + f (suc a % 2) (b % 2)
  bitwise_low a b =
      ap (λ t. t * 2 + f (suc a % 2) (b % 2))
        (digits_count a (suc a / 2) (suc a / 2) (b / 2) (omega arith) (omega arith))

differ_digits : (x y : ℕ) → x < 2 → y < 2 → differ x y ≡ (x + y) % 2
differ_digits zero y hx hy = omega arith
differ_digits (suc zero) zero hx hy = refl
differ_digits (suc zero) (suc zero) hx hy = refl
differ_digits (suc zero) (suc (suc y)) hx hy = absurd (omega arith)
differ_digits (suc (suc x)) y hx hy = absurd (omega arith)

pub xor_low : (a b : ℕ) → bit_xor a b ≡ bit_xor (a / 2) (b / 2) * 2 + (a % 2 + b % 2) % 2
xor_low zero b = omega (arith, bit_xor-bitwise 0 b, bit_xor-bitwise 0 (b / 2))
xor_low (suc a) b = omega (
  arith,
  bit_xor-bitwise (suc a) b,
  bit_xor-bitwise (suc a / 2) (b / 2),
  bitwise_low (λ y. y) differ a b,
  differ_digits (suc a % 2) (b % 2) (omega arith) (omega arith),
)

pub and_low : (a b : ℕ) → bit_and a b ≡ bit_and (a / 2) (b / 2) * 2 + min (a % 2) (b % 2)
and_low zero b = omega (arith, bit_and-bitwise 0 b, bit_and-bitwise 0 (b / 2))
and_low (suc a) b = omega (
  arith,
  bit_and-bitwise (suc a) b,
  bit_and-bitwise (suc a / 2) (b / 2),
  bitwise_low (λ y. 0) min a b,
)

pub or_low : (a b : ℕ) → bit_or a b ≡ bit_or (a / 2) (b / 2) * 2 + max (a % 2) (b % 2)
or_low zero b = omega (arith, bit_or-bitwise 0 b, bit_or-bitwise 0 (b / 2))
or_low (suc a) b = omega (
  arith,
  bit_or-bitwise (suc a) b,
  bit_or-bitwise (suc a / 2) (b / 2),
  bitwise_low (λ y. y) max a b,
)

-- Recursions on the binary digits of `a`, for every `a` up to `n`.
xor_cancel_upto : (n a b : ℕ) → a ≤ n → bit_xor a (bit_xor a b) ≡ b
xor_cancel_upto n zero b h = omega (arith, bit_xor-bitwise 0 b, bit_xor-bitwise 0 (bit_xor 0 b))
xor_cancel_upto zero (suc a) b h = absurd (omega arith)
xor_cancel_upto (suc n) (suc a) b h = omega (
  arith,
  xor_low (suc a) b,
  xor_low (suc a) (bit_xor (suc a) b),
  halves,
  xor_cancel_upto n (suc a / 2) (b / 2) (omega arith),
)
  where
    half : bit_xor (suc a) b / 2 ≡ bit_xor (suc a / 2) (b / 2)
    half = omega (arith, xor_low (suc a) b)

    halves :
        bit_xor (suc a / 2) (bit_xor (suc a) b / 2)
        ≡ bit_xor (suc a / 2) (bit_xor (suc a / 2) (b / 2))
    halves = ap (bit_xor (suc a / 2)) half

-- The exclusive or with the same number twice changes nothing.
pub xor_cancel : (a b : ℕ) → bit_xor a (bit_xor a b) ≡ b
xor_cancel a b = xor_cancel_upto a a b (omega arith)

xor-zero_upto : (n a : ℕ) → a ≤ n → bit_xor a 0 ≡ a
xor-zero_upto n zero h = refl
xor-zero_upto zero (suc a) h = absurd (omega arith)
xor-zero_upto (suc n) (suc a) h =
    omega (arith, xor_low (suc a) 0, xor-zero_upto n (suc a / 2) (omega arith))

pub xor-zero : (a : ℕ) → bit_xor a 0 ≡ a
xor-zero a = xor-zero_upto a a (omega arith)

-- Only equal numbers have the exclusive or 0.
pub eq_of_xor : (a b : ℕ) → bit_xor a b ≡ 0 → a ≡ b
eq_of_xor a b h = omega (arith, xor_cancel a b, ap (bit_xor a) h, xor-zero a)

pub xor_self : (a : ℕ) → bit_xor a a ≡ 0
xor_self a = omega (arith, xor_cancel a 0, ap (bit_xor a) (xor-zero a))

-- The exclusive or of two `k`-bit numbers has `k` bits.
pub xor_bound : (k a b : ℕ) → a < 2 ^ k → b < 2 ^ k → bit_xor a b < 2 ^ k
xor_bound zero a b ha hb = omega (
  arith,
  ap (λ (t : ℕ). bit_xor t b) {x = a} {y = 0} (omega arith),
  ap (bit_xor 0) {x = b} {y = 0} (omega arith),
  xor_self 0,
)
xor_bound (suc k) a b ha hb = omega (
  arith,
  xor_low a b,
  pow-suc 2 k,
  xor_bound k (a / 2) (b / 2) (omega (arith, pow-suc 2 k)) (omega (arith, pow-suc 2 k)),
)
