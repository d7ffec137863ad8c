-- ===== src/Cast/Convert.antt =====
-- src/cast.rs: the conversions of whole tensors. A float32 or float64 is its bit pattern, and the
-- arithmetic that the hardware does on them is a parameter.
use moonclip.Prelude.{
  ℕ, ◌+◌, ◌-◌, ◌*◌, ◌/◌, ◌%◌, ◌^◌, List, [], ◌∷◌, map, Bool, not, ◌&&◌, ◌||◌, Option, none, some,
  ◌==◌, ltb, if◌then◌else◌, length, bit_and,
}
use moonclip.Prelude.Chunks.{chunks}
use moonclip.Prelude.Tabulate.{concat}
use moonclip.Prelude.Words.{to_le, from_le}
use moonclip.Error.{Result, ok, err, ◌>>=◌}
use moonclip.Error.MoonclipError.{config}
use moonclip.Cast.{fp32_to_bf16, bf16_to_fp32, fp32_to_fp16, fp16_to_fp32}
use moonclip.Cast.Float8.{Fp8Format, fp32_bits_to_fp8_bits}
use moonclip.Cast.Policy.{
  DType, to_str, fp8_format, is_unchanged, is_castable_float, fp8_format_for,
}
use Prim.Native.String.{String}
use text.Mathlib.Text.{◌==◌ as str_eq}

-- The float32 operations of the hardware, `as` and the standard library, on bit patterns.
pub record FloatOps : Type 0 where
  pub add : ℕ → ℕ → ℕ
  pub mul : ℕ → ℕ → ℕ
  pub div : ℕ → ℕ → ℕ
  pub gt : ℕ → ℕ → Bool
  pub is_normal : ℕ → Bool
  -- `n as f32`, and `2f32.powi(a - b)`.
  pub of_ℕ : ℕ → ℕ
  pub two_powi : ℕ → ℕ → ℕ
  -- `as f32` of a float64, and `as f64` of a float32.
  pub f64_to_f32 : ℕ → ℕ
  pub f32_to_f64 : ℕ → ℕ

abbrev pub f32_one : ℕ
f32_one = 0x3F800000

abbrev pub f32_infinity : ℕ
f32_infinity = 0x7F800000

abbrev pub f32_nan : ℕ
f32_nan = 0x7FC00000

-- `v.is_finite()`, `v.abs()` and `-v`.
abbrev pub is_finite : ℕ → Bool
is_finite v = ltb (bit_and v 0x7FFFFFFF) f32_infinity

abbrev pub f32_abs : ℕ → ℕ
f32_abs v = bit_and v 0x7FFFFFFF

abbrev pub f32_neg : ℕ → ℕ
f32_neg v = (v + 2 ^ 31) % 2 ^ 32

-- The bytes, the dtype they are stored as, and the scale of a float8.
abbrev pub Stored : Type 0
Stored = List ℕ × String × Option ℕ

module _ (f : FloatOps) where
  open f use {add, mul, div, gt, is_normal, of_ℕ, two_powi, f64_to_f32, f32_to_f64}

  unfoldable pub fp64_to_fp32 : List ℕ → Result (List ℕ)
  fp64_to_fp32 bytes =
      if length bytes % 8 == 0
      then ok (concat (map (λ c. to_le 4 (f64_to_f32 (from_le c))) (chunks 8 bytes)))
      else err config

  unfoldable pub fp32_to_fp64 : List ℕ → Result (List ℕ)
  fp32_to_fp64 bytes =
      if length bytes % 4 == 0
      then ok (concat (map (λ c. to_le 8 (f32_to_f64 (from_le c))) (chunks 4 bytes)))
      else err config

  -- The entry of `fp8_decode_table` for the pattern `b`.
  unfoldable pub fp8_decode : Fp8Format → ℕ → ℕ → ℕ
  fp8_decode fmt scale b =
      let max_e = 2 ^ fmt.exp_bits - 1 in
      let mant_mask = 2 ^ fmt.mant_bits - 1 in
      let e = bit_and (b / 2 ^ fmt.mant_bits) max_e in
      let m = bit_and b mant_mask in
      let magnitude =
        if (e == max_e) && fmt.has_inf
        then (if m == 0 then f32_infinity else f32_nan)
        else if (e == max_e) && (not fmt.has_inf && (m == mant_mask))
        then f32_nan
        else if e == 0
        then mul (of_ℕ m) fmt.subnormal_step
        else mul (add f32_one (div (of_ℕ m) (of_ℕ (2 ^ fmt.mant_bits)))) (two_powi e fmt.bias) in
      mul (if bit_and b 0x80 == 0 then magnitude else f32_neg magnitude) scale

  -- The largest of a list of floats, from `local` on.
  abbrev pub max_from : ℕ → List ℕ → ℕ
  max_from local [] = local
  max_from local (v ∷ vs) =
      max_from (if is_finite v && gt (f32_abs v) local then f32_abs v else local) vs

  -- Chunk by chunk, and then the largest of the chunks (`f32::max`).
  unfoldable pub finite_amax : List ℕ → ℕ
  finite_amax fp32 =
      max_from 0
        (map (λ chunk. max_from 0 (map from_le (chunks 4 chunk))) (chunks (16384 * 4) fp32))

  unfoldable pub fp8_scale : List ℕ → Fp8Format → ℕ
  fp8_scale fp32 fmt =
      let scale = div (finite_amax fp32) fmt.max_finite in
      if is_normal scale then scale else f32_one

  unfoldable pub fp32_to_fp8 : List ℕ → Fp8Format → ℕ → Result (List ℕ)
  fp32_to_fp8 bytes fmt scale =
      let inv = div f32_one scale in
      if length bytes % 4 == 0
      then ok (
          concat (
            map (λ src. map (λ q. fp32_bits_to_fp8_bits (mul (from_le q) inv) fmt) (chunks 4 src))
              (chunks (16384 * 4) bytes)))
      else err config

  unfoldable pub fp8_to_fp32 : List ℕ → Fp8Format → ℕ → Result (List ℕ)
  fp8_to_fp32 bytes fmt scale = ok (
      concat (
        map (λ src. concat (map (λ b. to_le 4 (fp8_decode fmt scale b)) src)) (chunks 16384 bytes)))

  unfoldable pub widen_to_fp32 : List ℕ → String → Result (List ℕ)
  widen_to_fp32 bytes src =
      if str_eq src "float32"
      then ok bytes
      else if str_eq src "bfloat16"
      then bf16_to_fp32 bytes
      else if str_eq src "float16"
      then fp16_to_fp32 bytes
      else if str_eq src "float64"
      then fp64_to_fp32 bytes
      else err config

  unfoldable pub narrow_from_fp32 : List ℕ → String → Result (List ℕ)
  narrow_from_fp32 bytes dst =
      if str_eq dst "float32"
      then ok bytes
      else if str_eq dst "bfloat16"
      then fp32_to_bf16 bytes
      else if str_eq dst "float16"
      then fp32_to_fp16 bytes
      else if str_eq dst "float64"
      then fp32_to_fp64 bytes
      else err config

  unfoldable pub cast_to_fp8 : List ℕ → String → String → Fp8Format → Result Stored
  cast_to_fp8 bytes src_dtype target_name fmt = do
    wide ← if str_eq src_dtype "float32" then ok bytes else widen_to_fp32 bytes src_dtype
    let scale = fp8_scale wide fmt
    stored ← fp32_to_fp8 wide fmt scale
    ok (stored, target_name, some scale)

  unfoldable pub cast_tensor : List ℕ → String → DType → Result Stored
  cast_tensor bytes src_dtype target =
      if is_unchanged target
      then ok (bytes, src_dtype, none)
      else if str_eq src_dtype (to_str target) || not (is_castable_float src_dtype)
      then ok (bytes, src_dtype, none)
      else elim (fp8_format target) [
        | some fmt ↦ cast_to_fp8 bytes src_dtype (to_str target) fmt
        | none ↦
            if str_eq src_dtype "float32"
            then (do
              narrow ← narrow_from_fp32 bytes (to_str target)
              ok (narrow, to_str target, none))
            else (do
              wide ← widen_to_fp32 bytes src_dtype
              narrow ← narrow_from_fp32 wide (to_str target)
              ok (narrow, to_str target, none))
      ]

  unfoldable pub uncast_from_fp8 : List ℕ → String → Option ℕ → Fp8Format → Result (List ℕ)
  uncast_from_fp8 bytes original_dtype none fmt = err config
  uncast_from_fp8 bytes original_dtype (some scale) fmt = do
    fp32 ← fp8_to_fp32 bytes fmt scale
    if str_eq original_dtype "float32" then ok fp32 else narrow_from_fp32 fp32 original_dtype

  unfoldable pub uncast_tensor : List ℕ → String → String → Option ℕ → Result (List ℕ)
  uncast_tensor bytes stored_dtype original_dtype scale =
      if str_eq stored_dtype original_dtype then ok bytes else elim (fp8_format_for stored_dtype) [
        | some fmt ↦ uncast_from_fp8 bytes original_dtype scale fmt
        | none ↦
            if not (is_castable_float stored_dtype) || not (is_castable_float original_dtype)
            then ok bytes
            else if str_eq stored_dtype "float32"
            then narrow_from_fp32 bytes original_dtype
            else if str_eq original_dtype "float32"
            then widen_to_fp32 bytes stored_dtype
            else (do wide ← widen_to_fp32 bytes stored_dtype; narrow_from_fp32 wide original_dtype)
      ]
