-- ===== src/Cast.antt =====
-- src/cast.rs: the conversions between the bit patterns of float32, bfloat16 and float16, and their
-- loops over bytes. A pattern is a number below 2 ^ 32 or 2 ^ 16.
pub mod Bf16
pub mod Fp16
pub mod Float8
pub mod Glob
pub mod Policy
pub mod Convert
mod Tests
use moonclip.Prelude.{
  ℕ, zero, suc, ◌+◌, ◌-◌, ◌*◌, ◌/◌, ◌%◌, ◌^◌, List, [], ◌∷◌, ◌++◌, map, Bool, true, false, not,
  ◌==◌, ltb, leb, if◌then◌else◌, length, bit_and, bit_or,
}
use moonclip.Prelude.Chunks.{chunks}
use moonclip.Prelude.Tabulate.{concat}
use moonclip.Prelude.Words.{to_le, from_le}
use moonclip.Error.{MoonclipError, Result, ok, err, panic}
use moonclip.Error.MoonclipError.{config}

unfoldable pub fp32_bits_to_bf16_bits : ℕ → ℕ
fp32_bits_to_bf16_bits bits =
    if ltb 0x7F800000 (bit_and bits 0x7FFFFFFF)
    then bit_or ((bits / 2 ^ 16) % 2 ^ 16) 0x0040
    else let rounding_bias = bit_and (bits / 2 ^ 16) 1 + 0x7FFF in
      (((bits + rounding_bias) % 2 ^ 32) / 2 ^ 16) % 2 ^ 16

unfoldable pub bf16_bits_to_fp32_bits : ℕ → ℕ
bf16_bits_to_fp32_bits bits = (bits * 2 ^ 16) % 2 ^ 32

-- One float32 at a time, four bytes in and two out.
unfoldable pub fp32_to_bf16 : List ℕ → Result (List ℕ)
fp32_to_bf16 bytes =
    if length bytes % 4 == 0
    then ok (
        concat (
          map
            (λ src.
              concat
                (map (λ float. to_le 2 (fp32_bits_to_bf16_bits (from_le float))) (chunks 4 src)))
            (chunks (16384 * 4) bytes)))
    else err config

unfoldable pub bf16_to_fp32 : List ℕ → Result (List ℕ)
bf16_to_fp32 bytes =
    if length bytes % 2 == 0
    then ok (
        concat (
          map (λ src. concat (map (λ half. 0 ∷ 0 ∷ half) (chunks 2 src)))
            (chunks (16384 * 2) bytes)))
    else err config

unfoldable pub fp32_bits_to_fp16_bits : ℕ → ℕ
fp32_bits_to_fp16_bits bits =
    let sign = bit_and (bits / 2 ^ 16) 0x8000 in
    let exp = bit_and (bits / 2 ^ 23) 0xFF in
    let mantissa = bit_and bits 0x7FFFFF in
    if exp == 255
    then if mantissa == 0 then bit_or sign 0x7C00 else bit_or sign 0x7E00
    -- `new_exp` is `exp - 112`, and may be negative.
    else if leb (31 + 112) exp
    then bit_or sign 0x7C00
    else if leb exp 112
    then if ltb exp (112 - 10)
      then sign
      else (let m = bit_or mantissa 0x800000 / 2 ^ (113 - exp) in
          let round = bit_and (m / 2 ^ 12) 1 in bit_or sign ((m / 2 ^ 13 + round) % 2 ^ 16))
    else (let round = bit_and (mantissa / 2 ^ 12) 1 in
        let fp16 = bit_or (bit_or sign ((exp - 112) * 2 ^ 10)) (mantissa / 2 ^ 13) in fp16 + round)

-- `while (m & 0x400) == 0 { m <<= 1; e += 1; }` on fuel; a nonzero `m` of 10 bits takes 10 rounds at
-- most.
abbrev pub normalize : ℕ → ℕ → ℕ → ℕ × ℕ
normalize zero m e = (m, e)
normalize (suc fuel) m e =
    let more = normalize fuel ((m * 2) % 2 ^ 32) (suc e) in
    if bit_and m 0x400 == 0 then more else (m, e)

unfoldable pub fp16_bits_to_fp32_bits : ℕ → ℕ
fp16_bits_to_fp32_bits bits =
    let sign = bit_and bits 0x8000 * 2 ^ 16 in
    let exp = bit_and (bits / 2 ^ 10) 0x1F in
    let mantissa = bit_and bits 0x3FF in
    if exp == 0
    then if mantissa == 0
      then sign
      else (let (m, e) = normalize 10 mantissa 0 in
          let new_exp = 127 - 15 - e in
          let new_mantissa = bit_and m 0x3FF * 2 ^ 13 in
          bit_or (bit_or sign (new_exp * 2 ^ 23)) new_mantissa)
    else if exp == 31
    then bit_or (bit_or sign 0x7F800000) (mantissa * 2 ^ 13)
    else bit_or (bit_or sign ((exp + 127 - 15) * 2 ^ 23)) (mantissa * 2 ^ 13)

unfoldable pub fp32_to_fp16 : List ℕ → Result (List ℕ)
fp32_to_fp16 bytes =
    if length bytes % 4 == 0
    then ok (
        concat (
          map
            (λ src.
              concat
                (map (λ float. to_le 2 (fp32_bits_to_fp16_bits (from_le float))) (chunks 4 src)))
            (chunks (16384 * 4) bytes)))
    else err config

unfoldable pub fp16_to_fp32 : List ℕ → Result (List ℕ)
fp16_to_fp32 bytes =
    if length bytes % 2 == 0
    then ok (
        concat (
          map
            (λ src.
              concat (map (λ half. to_le 4 (fp16_bits_to_fp32_bits (from_le half))) (chunks 2 src)))
            (chunks (16384 * 2) bytes)))
    else err config
