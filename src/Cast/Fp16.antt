-- ===== src/Cast/Fp16.antt =====
-- The float16 patterns that `fp16_bits_to_fp32_bits` reads.
use moonclip.Prelude.{
  ℕ, zero, suc, ◌+◌, ◌*◌, ◌/◌, ◌%◌, ◌^◌, ◌<◌, ◌≡◌, refl, sym, ap, ◌∙◌, Bool, true, ◌&&◌, ◌==◌,
  if◌then◌else◌, arith, ==_iff, ==_zero_pos, Bool-cases, inl, inr,
}
use moonclip.Cast.{fp16_bits_to_fp32_bits}

-- 2 ^ 150 times the value of a positive normal float32.
abbrev pub fp32_value : ℕ → ℕ
fp32_value bits = (2 ^ 23 + bits % 2 ^ 23) * 2 ^ (bits / 2 ^ 23)

-- Every number below `n` passes.
abbrev pub all_below : ℕ → (ℕ → Bool) → Bool
all_below zero p = true
all_below (suc n) p = p n && all_below n p

all_below_elim : (n : ℕ) (p : ℕ → Bool) → all_below n p ≡ true → (m : ℕ) → m < n → p m ≡ true
all_below_elim zero p h m lt = absurd (omega arith)
all_below_elim (suc n) p h m lt = elim (Bool-cases (m == n)) [
  | inl same ↦ ap p ((==_iff m n).0 same) ∙ (parts (p n) (all_below n p) h).0
  | inr other ↦ all_below_elim n p (parts (p n) (all_below n p) h).1 m (ground arith)
]
  where
    parts : (a b : Bool) → (a && b) ≡ true → (a ≡ true) × (b ≡ true)
    parts a b e = ground arith

-- The pattern reads as half of `m` times 2 ^ -24.
abbrev pub is_halved : ℕ → Bool
is_halved m = if m == 0 then true else 2 * fp32_value (fp16_bits_to_fp32_bits m) == m * 2 ^ 126

is_halved_table : all_below 1024 is_halved ≡ true
unfolding fp16_bits_to_fp32_bits
is_halved_table = refl

-- A nonzero float16 subnormal with fraction `m` has the value m times 2 ^ -24, but is read as a float32
-- of exactly half that value.
pub fp16_subnormal_halved :
    (m : ℕ) → 0 < m → m < 1024 → 2 * fp32_value (fp16_bits_to_fp32_bits m) ≡ m * 2 ^ 126
fp16_subnormal_halved m positive small = (==_iff _ _).0 (
    sym (
      ap (λ b. if b then true else (2 * fp32_value (fp16_bits_to_fp32_bits m) == m * 2 ^ 126))
        (==_zero_pos m positive))
    ∙ all_below_elim 1024 is_halved is_halved_table m small)
