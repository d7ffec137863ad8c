-- ===== src/Prelude/Masks.antt =====
-- A mask of low ones keeps a remainder, and a single bit is set by an or.
use Prim.Native.Nat.{ℕ, zero, suc, ◌+◌, ◌-◌, ◌*◌, ◌/◌, ◌%◌, ◌^◌, ◌≤◌, ◌<◌, bit_and, bit_or}
use mathlib.Core.Path.{◌≡◌, refl, sym, ap, ◌∙◌}
use native.Mathlib.Omega.{arith}
use native.Mathlib.Nat.{
  add-mul-mod_self_left, mod-eq_of_lt, pow-suc, div-add-mod, mod-lt, mul_comm, mul_assoc,
}
use moonclip.Prelude.Bits.{and_low, or_low}

and_zero_upto : (n x : ℕ) → x ≤ n → bit_and x 0 ≡ 0
and_zero_upto n zero h = refl
and_zero_upto zero (suc x) h = absurd (omega arith)
and_zero_upto (suc n) (suc x) h =
    omega (arith, and_low (suc x) 0, and_zero_upto n (suc x / 2) (omega arith))

or_zero_upto : (n x : ℕ) → x ≤ n → bit_or x 0 ≡ x
or_zero_upto n zero h = refl
or_zero_upto zero (suc x) h = absurd (omega arith)
or_zero_upto (suc n) (suc x) h =
    omega (arith, or_low (suc x) 0, or_zero_upto n (suc x / 2) (omega arith))

-- A remainder by an even number, from its lowest digit.
mod_double : (x b : ℕ) → 0 < b → x % (b * 2) ≡ x % 2 + 2 * ((x / 2) % b)
mod_double x b h =
    ap (λ t. t % (b * 2)) parts
    ∙ add-mul-mod_self_left (x % 2 + 2 * ((x / 2) % b)) (b * 2) (x / 2 / b)
    ∙ mod-eq_of_lt small
  where
    parts : x ≡ (x % 2 + 2 * ((x / 2) % b)) + (b * 2) * (x / 2 / b)
    parts = omega (
      arith,
      div-add-mod (x / 2) b,
      ap (λ t. t * (x / 2 / b)) (mul_comm b 2) ∙ mul_assoc 2 b (x / 2 / b),
    )

    small : x % 2 + 2 * ((x / 2) % b) < b * 2
    small = omega (arith, mod-lt (x / 2) h)

two_pow_pos : (n : ℕ) → 0 < 2 ^ n
two_pow_pos zero = omega arith
two_pow_pos (suc n) = omega (arith, pow-suc 2 n, two_pow_pos n)

pub and_mask : (n x : ℕ) → bit_and x (2 ^ n - 1) ≡ x % 2 ^ n
and_mask zero x = omega (arith, and_zero_upto x x (omega arith))
and_mask (suc n) x =
    and_low x (2 ^ suc n - 1)
    ∙ omega (arith, halved, odd, and_mask n (x / 2))
    ∙ sym (mod_double x (2 ^ n) (two_pow_pos n))
    ∙ sym (ap (λ t. x % t) (pow-suc 2 n))
  where
    odd : (2 ^ suc n - 1) % 2 ≡ 1
    odd = omega (arith, pow-suc 2 n, two_pow_pos n)

    halved : bit_and (x / 2) ((2 ^ suc n - 1) / 2) ≡ bit_and (x / 2) (2 ^ n - 1)
    halved = ap (bit_and (x / 2)) (omega (arith, pow-suc 2 n, two_pow_pos n))

-- A single bit is set and the others stay.
or_1 : (x : ℕ) → bit_or x 1 ≡ (x / 2) * 2 + 1
or_1 x = omega (arith, or_low x 1, or_zero_upto (x / 2) (x / 2) (omega arith))

or_2 : (x : ℕ) → bit_or x 2 ≡ (x / 4) * 4 + 2 + x % 2
or_2 x = omega (arith, or_low x 2, or_1 (x / 2))

or_4 : (x : ℕ) → bit_or x 4 ≡ (x / 8) * 8 + 4 + x % 4
or_4 x = omega (arith, or_low x 4, or_2 (x / 2))

or_8 : (x : ℕ) → bit_or x 8 ≡ (x / 16) * 16 + 8 + x % 8
or_8 x = omega (arith, or_low x 8, or_4 (x / 2))

or_16 : (x : ℕ) → bit_or x 16 ≡ (x / 32) * 32 + 16 + x % 16
or_16 x = omega (arith, or_low x 16, or_8 (x / 2))

or_32 : (x : ℕ) → bit_or x 32 ≡ (x / 64) * 64 + 32 + x % 32
or_32 x = omega (arith, or_low x 32, or_16 (x / 2))

pub or_64 : (x : ℕ) → bit_or x 64 ≡ (x / 128) * 128 + 64 + x % 64
or_64 x = omega (arith, or_low x 64, or_32 (x / 2))
