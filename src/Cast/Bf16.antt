-- ===== src/Cast/Bf16.antt =====
-- float32 to bfloat16 and back.
use moonclip.Prelude.{
  ℕ, ◌+◌, ◌*◌, ◌/◌, ◌%◌, ◌^◌, ◌≤◌, ◌<◌, ◌≡◌, ◌∙◌, false, ltb, arith, ◌⊎◌, inl, inr, lt→ltb,
}
use moonclip.Prelude.Masks.{and_mask, or_64}
use moonclip.Cast.{fp32_bits_to_bf16_bits, bf16_bits_to_fp32_bits}

not_ltb : (a b : ℕ) → b ≤ a → ltb a b ≡ false
not_ltb a b h = ground arith

-- The two branches, in arithmetic.
on_nan :
    (bits : ℕ)
    → bits < 2 ^ 32
    → 0x7F800000 < bits % 2 ^ 31
    → fp32_bits_to_bf16_bits bits ≡ bits / 2 ^ 23 * 128 + 64 + bits / 2 ^ 16 % 64
unfolding fp32_bits_to_bf16_bits
on_nan bits small nan =
    rw (and_mask 31 bits, lt→ltb 0x7F800000 (bits % 2 ^ 31) nan)
      (or_64 (bits / 2 ^ 16 % 2 ^ 16) ∙ omega arith)

on_number :
    (bits : ℕ)
    → bits < 2 ^ 32
    → bits % 2 ^ 31 ≤ 0x7F800000
    → fp32_bits_to_bf16_bits bits ≡ (bits + (bits / 2 ^ 16 % 2 + 0x7FFF)) / 2 ^ 16
unfolding fp32_bits_to_bf16_bits
on_number bits small number =
    rw (and_mask 31 bits, not_ltb 0x7F800000 (bits % 2 ^ 31) number, and_mask 1 (bits / 2 ^ 16))
      (omega arith)

-- A float32 NaN becomes a bfloat16 NaN of the same sign, never an infinity or a number.
pub bf16_nan :
    (bits : ℕ)
    → bits < 2 ^ 32
    → 0x7F800000 < bits % 2 ^ 31
    → (fp32_bits_to_bf16_bits bits < 2 ^ 16)
      × (0x7F80 < fp32_bits_to_bf16_bits bits % 2 ^ 15)
      × (fp32_bits_to_bf16_bits bits / 2 ^ 15 ≡ bits / 2 ^ 31)
bf16_nan bits small nan =
    let is = on_nan bits small nan in (omega (arith, is), omega (arith, is), omega (arith, is))

-- Any other float32 pattern is rounded to the nearest bfloat16 pattern, which is even on a tie.
pub bf16_nearest :
    (bits : ℕ)
    → bits < 2 ^ 32
    → bits % 2 ^ 31 ≤ 0x7F800000
    → (fp32_bits_to_bf16_bits bits * 2 ^ 16 ≤ bits + 2 ^ 15)
      × (bits ≤ fp32_bits_to_bf16_bits bits * 2 ^ 16 + 2 ^ 15)
      × (((fp32_bits_to_bf16_bits bits * 2 ^ 16 ≡ bits + 2 ^ 15)
            ⊎ (bits ≡ fp32_bits_to_bf16_bits bits * 2 ^ 16 + 2 ^ 15))
          → fp32_bits_to_bf16_bits bits % 2 ≡ 0)
bf16_nearest bits small number =
    let is = on_number bits small number in
    (
      omega (arith, is),
      omega (arith, is),
      λ tie. elim tie [ inl up ↦ omega (arith, is, up) | inr down ↦ omega (arith, is, down) ],
    )

-- A bfloat16 that is no NaN comes back from float32 as it was, and a NaN with its quiet bit set.
pub bf16_round_trip :
    (bits : ℕ)
    → bits < 2 ^ 16
    → (bits % 2 ^ 15 ≤ 0x7F80 → fp32_bits_to_bf16_bits (bf16_bits_to_fp32_bits bits) ≡ bits)
      × (0x7F80 < bits % 2 ^ 15
          → fp32_bits_to_bf16_bits (bf16_bits_to_fp32_bits bits)
            ≡ bits / 128 * 128 + 64 + bits % 64)
unfolding bf16_bits_to_fp32_bits
bf16_round_trip bits small = (
  (λ number. on_number ((bits * 2 ^ 16) % 2 ^ 32) (omega arith) (omega arith) ∙ omega arith),
  λ nan. on_nan ((bits * 2 ^ 16) % 2 ^ 32) (omega arith) (omega arith) ∙ omega arith,
)
