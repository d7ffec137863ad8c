-- ===== src/Cast/Policy.antt =====
-- src/cast.rs: the dtypes a tensor can be stored as, and the policy that chooses one by the tensor's
-- name. `to_lowercase` of the standard library is a parameter.
pub mod Rules
use moonclip.Prelude.{
  ℕ, List, [], ◌∷◌, map, Bool, true, false, not, ◌&&◌, ◌||◌, Option, none, some, if◌then◌else◌,
}
use moonclip.Prelude.Search.{filter, any}
use moonclip.Error.{MoonclipError, Result, ok, err, panic, ◌>>=◌}
use moonclip.Error.MoonclipError.{config}
use moonclip.Cast.Float8.{Fp8Format, e4m3fn, e5m2}
use moonclip.Cast.Glob.{glob_match}
use Prim.Native.String.{String}
use Prim.Native.String
use Prim.Native.Char.{code}
use text.Mathlib.Text.{◌==◌ as str_eq}

pub data DType : Type 0 where
  float64 float32 bfloat16 float16 float8_e4m3 float8_e5m2 unchanged : DType

-- The code points of a text.
abbrev pub codes : String → List ℕ
codes String.[] = []
codes (String.◌∷◌ c s) = code c ∷ codes s

-- The text is one of the list.
abbrev pub is_one_of : String → List String → Bool
is_one_of s [] = false
is_one_of s (name ∷ names) = str_eq s name || is_one_of s names

unfoldable pub parse_lower : String → Result DType
parse_lower s =
    if is_one_of s ("bf16" ∷ "bfloat16" ∷ [])
    then ok bfloat16
    else if is_one_of s ("fp16" ∷ "float16" ∷ [])
    then ok float16
    else if is_one_of s ("fp32" ∷ "float32" ∷ [])
    then ok float32
    else if is_one_of s ("fp64" ∷ "float64" ∷ "double" ∷ [])
    then ok float64
    else if is_one_of s ("fp8" ∷ "float8" ∷ "fp8_e4m3" ∷ "float8_e4m3fn" ∷ [])
    then ok float8_e4m3
    else if is_one_of s ("fp8_e5m2" ∷ "float8_e5m2" ∷ [])
    then ok float8_e5m2
    else if is_one_of s ("none" ∷ "" ∷ [])
    then ok unchanged
    else err config

unfoldable pub to_str : DType → String
to_str float64 = "float64"
to_str float32 = "float32"
to_str bfloat16 = "bfloat16"
to_str float16 = "float16"
to_str float8_e4m3 = "float8_e4m3fn"
to_str float8_e5m2 = "float8_e5m2"
to_str unchanged = "none"

unfoldable pub dtype_size : DType → ℕ
dtype_size float64 = 8
dtype_size float32 = 4
dtype_size bfloat16 = 2
dtype_size float16 = 2
dtype_size float8_e4m3 = 1
dtype_size float8_e5m2 = 1
dtype_size unchanged = 0

unfoldable pub fp8_format : DType → Option Fp8Format
fp8_format float8_e4m3 = some e4m3fn
fp8_format float8_e5m2 = some e5m2
fp8_format _ = none

abbrev pub is_unchanged : DType → Bool
is_unchanged unchanged = true
is_unchanged _ = false

-- `DTypePolicy`: the rules, in order.
abbrev pub DTypePolicy : Type 0
DTypePolicy = List (String × DType)

unfoldable pub uniform : DType → DTypePolicy
uniform dtype = if is_unchanged dtype then [] else ("*", dtype) ∷ []

unfoldable pub for_tensor : DTypePolicy → String → DType
for_tensor [] name = unchanged
for_tensor ((pattern, dtype) ∷ rules) name =
    if glob_match (codes pattern) (codes name) then dtype else for_tensor rules name

unfoldable pub casts_anything : DTypePolicy → Bool
casts_anything rules = any (λ rule. not (is_unchanged rule.1)) rules

unfoldable pub dead_patterns : DTypePolicy → List String → List String
dead_patterns rules names =
    filter (λ pattern. not (any (λ name. glob_match (codes pattern) (codes name)) names))
      (map (λ rule. rule.0) rules)

module _ (to_lowercase : String → String) where
  unfoldable pub parse : String → Result DType
  unfolding parse_lower
  parse s = parse_lower (to_lowercase s)

  unfoldable pub parse_policy : String → Result DTypePolicy
  parse_policy s = do dtype ← parse s; ok (uniform dtype)

  -- The first refused rule is the error.
  unfoldable pub from_rules : List (String × String) → Result DTypePolicy
  from_rules [] = ok []
  from_rules ((pattern, dtype) ∷ rules) =
      let rest = from_rules rules in
      if str_eq pattern ""
      then err config
      else do target ← parse dtype; policy ← rest; ok ((pattern, target) ∷ policy)

unfoldable pub is_castable_float : String → Bool
is_castable_float dtype = is_one_of dtype ("float32" ∷ "float16" ∷ "bfloat16" ∷ "float64" ∷ [])

unfoldable pub fp8_format_for : String → Option Fp8Format
fp8_format_for dtype =
    if str_eq dtype "float8_e4m3fn"
    then some e4m3fn
    else if str_eq dtype "float8_e5m2"
    then some e5m2
    else none
