-- ===== src/Cast/Float8/Rounding.antt =====
-- Rounding to nearest, ties to even.
use moonclip.Prelude.{
  ℕ, zero, suc, ◌+◌, ◌-◌, ◌*◌, ◌/◌, ◌%◌, ◌^◌, ◌≤◌, ◌<◌, ◌≡◌, refl, ap, ◌∙◌, false, ◌&&◌, ◌||◌, ◌==◌,
  ltb, if◌then◌else◌, arith, ◌⊎◌, inl, inr,
}
use moonclip.Prelude.Masks.{and_mask}
use native.Mathlib.Nat.{div-add-mod', mod-lt, pow-suc, add-mul}
use moonclip.Cast.Float8.{shift_round_even}

two_pow_pos : (n : ℕ) → 0 < 2 ^ n
two_pow_pos zero = omega arith
two_pow_pos (suc n) = omega (arith, pow-suc 2 n, two_pow_pos n)

-- The rounding in terms of quotient and remainder.
abbrev rounded : ℕ → ℕ → ℕ → ℕ
rounded q rem half = if ltb half rem || ((rem == half) && (q % 2 == 1)) then q + 1 else q

on_quotient :
    (value n : ℕ)
    → 0 < n
    → n ≤ 31
    → shift_round_even value n ≡ rounded (value / 2 ^ n) (value % 2 ^ n) (2 ^ (n - 1))
unfolding shift_round_even
on_quotient value n positive small =
    rw (off n positive, within n small, and_mask n value, and_mask 1 (value / 2 ^ n)) refl
  where
    off : (n : ℕ) → 0 < n → (n == 0) ≡ false
    off n h = ground arith

    within : (n : ℕ) → n ≤ 31 → ltb 31 n ≡ false
    within n h = ground arith

rounded-nearest :
    (q rem half : ℕ)
    → rem < 2 * half
    → ((rounded q rem half ≡ q) × (rem ≤ half) × (rem ≡ half → q % 2 ≡ 0))
      ⊎ ((rounded q rem half ≡ q + 1) × (half ≤ rem) × (rem ≡ half → (q + 1) % 2 ≡ 0))
rounded-nearest q rem half h = ground arith

-- For the shifts by up to 31 places, a shifted value times its unit is within half a unit of the
-- value, and where it is half a unit off, the shifted value is even.
pub shift_round_even_lem :
    (value n : ℕ)
    → 0 < n
    → n ≤ 31
    → (2 * (shift_round_even value n * 2 ^ n) ≤ 2 * value + 2 ^ n)
      × (2 * value ≤ 2 * (shift_round_even value n * 2 ^ n) + 2 ^ n)
      × (((2 * (shift_round_even value n * 2 ^ n) ≡ 2 * value + 2 ^ n)
            ⊎ (2 * value ≡ 2 * (shift_round_even value n * 2 ^ n) + 2 ^ n))
          → shift_round_even value n % 2 ≡ 0)
shift_round_even_lem value zero h small = absurd (omega arith)
shift_round_even_lem value (suc n) h small =
    let p : ℕ = 2 ^ suc n in
    let q : ℕ = value / p in
    let rem : ℕ = value % p in
    let half : 2 ^ (suc n - 1) ≡ 2 ^ n = ap (λ k. 2 ^ k) {x = suc n - 1} {y = n} (omega arith) in
    let whole : q * p + rem ≡ value = div-add-mod' value p in
    let is : shift_round_even value (suc n) ≡ rounded q rem (2 ^ n) =
      on_quotient value (suc n) h small ∙ ap (rounded q rem) half in
    let below : rem < 2 * 2 ^ n = omega (arith, mod-lt value (two_pow_pos (suc n)), pow-suc 2 n) in
    elim (rounded-nearest q rem (2 ^ n) below) [
      | inl (down, le, even) ↦
          let r : shift_round_even value (suc n) ≡ q = is ∙ down in
          let prod : shift_round_even value (suc n) * p ≡ q * p = ap (λ t. t * p) r in
          (
            omega (arith, prod, whole),
            omega (arith, prod, whole, le, pow-suc 2 n),
            λ tie. elim tie [
              | inl high ↦ absurd (omega (arith, high, prod, whole, two_pow_pos (suc n)))
              | inr low ↦ ap (λ t. t % 2) r ∙ even (omega (arith, low, prod, whole, pow-suc 2 n))
            ],
          )
      | inr (up, ge, even) ↦
          let r : shift_round_even value (suc n) ≡ q + 1 = is ∙ up in
          let prod : shift_round_even value (suc n) * p ≡ q * p + p =
            ap (λ t. t * p) r ∙ add-mul q 1 p ∙ omega arith in
          (
            omega (arith, prod, whole, ge, pow-suc 2 n),
            omega (arith, prod, whole, below, pow-suc 2 n),
            λ tie. elim tie [
              | inl high ↦ ap (λ t. t % 2) r ∙ even (omega (arith, high, prod, whole, pow-suc 2 n))
              | inr low ↦
                  absurd (omega (arith, low, prod, whole, below, pow-suc 2 n, two_pow_pos (suc n)))
            ],
          )
    ]
