-- ===== src/Cast/Float8.antt =====
-- src/cast.rs: the float8 layouts, and float32 patterns rounded to them. A format's `max_finite` and
-- `subnormal_step` are float32 patterns.
pub mod Rounding
use moonclip.Prelude.{
  ℕ, ◌+◌, ◌-◌, ◌*◌, ◌/◌, ◌%◌, ◌^◌, Bool, true, false, ◌&&◌, ◌||◌, ◌==◌, ltb, leb, if◌then◌else◌,
  bit_and, bit_or,
}
use Prim.Native.String.{String}

pub record Fp8Format : Type 0 where
  pub name : String
  pub exp_bits : ℕ
  pub mant_bits : ℕ
  pub bias : ℕ
  pub has_inf : Bool
  pub max_finite : ℕ
  pub subnormal_step : ℕ
  pub nan_bits : ℕ
  pub inf_bits : ℕ
  pub max_finite_bits : ℕ
  pub max_normal_exp : ℕ
  pub max_normal_mant : ℕ

abbrev pub e4m3fn : Fp8Format
e4m3fn = record {
  name = "float8_e4m3fn";
  exp_bits = 4;
  mant_bits = 3;
  bias = 7;
  has_inf = false;
  max_finite = 0x43E00000;
  subnormal_step = 0x3B000000;
  nan_bits = 0x7F;
  inf_bits = 0x7F;
  max_finite_bits = 0x7E;
  max_normal_exp = 15;
  max_normal_mant = 6;
}

abbrev pub e5m2 : Fp8Format
e5m2 = record {
  name = "float8_e5m2";
  exp_bits = 5;
  mant_bits = 2;
  bias = 15;
  has_inf = true;
  max_finite = 0x47600000;
  subnormal_step = 0x37800000;
  nan_bits = 0x7E;
  inf_bits = 0x7C;
  max_finite_bits = 0x7B;
  max_normal_exp = 30;
  max_normal_mant = 3;
}

unfoldable pub shift_round_even : ℕ → ℕ → ℕ
shift_round_even value n =
    if n == 0
    then value
    else if ltb 31 n
    then 0
    else (let keep = value / 2 ^ n in
        let rem = bit_and value (2 ^ n - 1) in
        let half = 2 ^ (n - 1) in
        if ltb half rem || ((rem == half) && (bit_and keep 1 == 1)) then keep + 1 else keep)

-- The exponent and fraction fields of a rounded significand, which may carry into the exponent.
abbrev pub carried : ℕ → ℕ → ℕ → ℕ × ℕ
carried mant_bits new_exp rounded =
    if rounded / 2 ^ (mant_bits + 1) == 0
    then (new_exp, bit_and rounded (2 ^ mant_bits - 1))
    else (new_exp + 1, 0)

-- The pattern of the two fields, or the largest finite one past the end of the range.
abbrev pub saturated : Fp8Format → ℕ → ℕ × ℕ → ℕ
saturated fmt sign (e, m) =
    if ltb fmt.max_normal_exp e || ((e == fmt.max_normal_exp) && ltb fmt.max_normal_mant m)
    then bit_or sign fmt.max_finite_bits
    else bit_or (bit_or sign ((e * 2 ^ fmt.mant_bits) % 256)) (m % 256)

-- The source's `new_exp` is the exponent field plus the bias less 127, and may be negative.
unfoldable pub fp32_bits_to_fp8_bits : ℕ → Fp8Format → ℕ
fp32_bits_to_fp8_bits bits fmt =
    let sign = bit_and (bits / 2 ^ 24) 0x80 in
    let abs = bit_and bits 0x7FFFFFFF in
    let biased = abs / 2 ^ 23 + fmt.bias in
    let drop = 23 - fmt.mant_bits in
    let significand = bit_or 0x800000 (bit_and abs 0x7FFFFF) in
    if ltb 0x7F800000 abs
    then bit_or sign fmt.nan_bits
    else if abs == 0x7F800000
    then bit_or sign (if fmt.has_inf then fmt.inf_bits else fmt.nan_bits)
    else if abs == 0
    then sign
    else if leb 128 biased
    then saturated fmt sign
        (carried fmt.mant_bits (biased - 127) (shift_round_even significand drop))
    else bit_or sign (shift_round_even significand (drop + (128 - biased)) % 256)
