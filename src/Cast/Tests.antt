-- ===== src/Cast/Tests.antt =====
-- Bit patterns of concrete numbers.
use moonclip.Prelude.{[], ◌∷◌, ◌+◌, ◌*◌, ◌/◌, ◌%◌, ◌^◌, ◌≤◌, ◌<◌, ◌≡◌, ◌⊎◌, refl, some, arith}
use moonclip.Cast.Glob.{glob_run, glob_match}
use moonclip.Cast.Glob.Reference.{matches, glob_match_lem}
use moonclip.Cast.Policy.{bfloat16, float16, DTypePolicy, codes}
use moonclip.Cast.{
  fp32_bits_to_bf16_bits, bf16_bits_to_fp32_bits, fp32_bits_to_fp16_bits, fp16_bits_to_fp32_bits,
}
use moonclip.Cast.Bf16.{bf16_nan, bf16_nearest, bf16_round_trip}
use moonclip.Cast.Float8.{e4m3fn, e5m2, shift_round_even, fp32_bits_to_fp8_bits}
use moonclip.Cast.Float8.Rounding.{shift_round_even_lem}
use moonclip.Cast.Fp16.{fp32_value, fp16_subnormal_halved}

-- 1.5 goes to float16 and back.
one_and_a_half : fp16_bits_to_fp32_bits (fp32_bits_to_fp16_bits 0x3FC00000) ≡ 0x3FC00000
unfolding fp16_bits_to_fp32_bits fp32_bits_to_fp16_bits
one_and_a_half = refl

-- A NaN whose upper half alone is the pattern of infinity.
bf16_nan_example :
    (fp32_bits_to_bf16_bits 0x7F800001 < 2 ^ 16)
    × (0x7F80 < fp32_bits_to_bf16_bits 0x7F800001 % 2 ^ 15)
    × (fp32_bits_to_bf16_bits 0x7F800001 / 2 ^ 15 ≡ 0x7F800001 / 2 ^ 31)
bf16_nan_example = bf16_nan 0x7F800001 (omega arith) (omega arith)

bf16_nearest_example :
    (fp32_bits_to_bf16_bits 0x3F808000 * 2 ^ 16 ≤ 0x3F808000 + 2 ^ 15)
    × (0x3F808000 ≤ fp32_bits_to_bf16_bits 0x3F808000 * 2 ^ 16 + 2 ^ 15)
    × (((fp32_bits_to_bf16_bits 0x3F808000 * 2 ^ 16 ≡ 0x3F808000 + 2 ^ 15)
          ⊎ (0x3F808000 ≡ fp32_bits_to_bf16_bits 0x3F808000 * 2 ^ 16 + 2 ^ 15))
        → fp32_bits_to_bf16_bits 0x3F808000 % 2 ≡ 0)
bf16_nearest_example = bf16_nearest 0x3F808000 (omega arith) (omega arith)

bf16_round_trip_example :
    (0x3F80 % 2 ^ 15 ≤ 0x7F80 → fp32_bits_to_bf16_bits (bf16_bits_to_fp32_bits 0x3F80) ≡ 0x3F80)
    × (0x7F80 < 0x3F80 % 2 ^ 15
        → fp32_bits_to_bf16_bits (bf16_bits_to_fp32_bits 0x3F80)
          ≡ 0x3F80 / 128 * 128 + 64 + 0x3F80 % 64)
bf16_round_trip_example = bf16_round_trip 0x3F80 (omega arith)

fp16_subnormal_halved_example : 2 * fp32_value (fp16_bits_to_fp32_bits 512) ≡ 512 * 2 ^ 126
fp16_subnormal_halved_example = fp16_subnormal_halved 512 (omega arith) (omega arith)

-- The largest e4m3fn number, and one that rounds past the end of e5m2.
largest_e4m3fn : fp32_bits_to_fp8_bits 0x43E00000 e4m3fn ≡ 0x7E
unfolding fp32_bits_to_fp8_bits shift_round_even
largest_e4m3fn = refl

past_e5m2 : fp32_bits_to_fp8_bits 0xC77FFFFF e5m2 ≡ 0xFB
unfolding fp32_bits_to_fp8_bits shift_round_even
past_e5m2 = refl

-- Five halves round to the even two.
shift_round_even_example :
    (2 * (shift_round_even 5 1 * 2 ^ 1) ≤ 2 * 5 + 2 ^ 1)
    × (2 * 5 ≤ 2 * (shift_round_even 5 1 * 2 ^ 1) + 2 ^ 1)
    × (((2 * (shift_round_even 5 1 * 2 ^ 1) ≡ 2 * 5 + 2 ^ 1)
          ⊎ (2 * 5 ≡ 2 * (shift_round_even 5 1 * 2 ^ 1) + 2 ^ 1))
        → shift_round_even 5 1 % 2 ≡ 0)
shift_round_even_example = shift_round_even_lem 5 1 (omega arith) (omega arith)

-- A pattern with two asterisks, for a name of the optimizer's state.
glob_match_example :
    (glob_run (codes "*.m*") (codes "layer.moment")
      ≡ some (matches (codes "*.m*") (codes "layer.moment")))
    × (glob_match (codes "*.m*") (codes "layer.moment")
        ≡ matches (codes "*.m*") (codes "layer.moment"))
glob_match_example = glob_match_lem (codes "*.m*") (codes "layer.moment")

abbrev two_rules : DTypePolicy
two_rules = ("*.moment", bfloat16) ∷ ("*", float16) ∷ []
