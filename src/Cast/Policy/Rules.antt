-- ===== src/Cast/Policy/Rules.antt =====
-- Which dtype a tensor gets.
use moonclip.Prelude.{
  ℕ, ◌≡◌, refl, ap, ◌∙◌, List, [], ◌∷◌, ◌++◌, Bool, true, false, if◌then◌else◌, ◌⊎◌, inl, inr,
  Bool-cases, arith,
}
use moonclip.Prelude.Search.{any}
use moonclip.Error.{ok}
use moonclip.Cast.Glob.{glob_match}
use moonclip.Cast.Glob.Reference.{matches, any_suffix, glob_match_lem}
use moonclip.Cast.Policy.{
  DType, float64, float32, bfloat16, float16, float8_e4m3, float8_e5m2, unchanged, DTypePolicy,
  codes, for_tensor, uniform, parse_lower, to_str,
}
use Prim.Native.String.{String}

-- The rule's pattern matches the name.
abbrev pub applies : String → String × DType → Bool
applies name rule = matches (codes rule.0) (codes name)

-- The first rule whose pattern matches the tensor's name decides its dtype, the rules behind it do
-- not count, and a tensor that no rule matches is stored as it arrived.
pub for_tensor_lem :
    (rules : DTypePolicy) (name : String)
    → ((any (applies name) rules ≡ false) × (for_tensor rules name ≡ unchanged))
      ⊎ ((before after : DTypePolicy) × (rule : String × DType) × (rules ≡ before ++ (rule ∷ after))
          × (any (applies name) before ≡ false)
          × (applies name rule ≡ true)
          × (for_tensor rules name ≡ rule.1))
unfolding for_tensor
for_tensor_lem [] name = inl (refl, refl)
for_tensor_lem ((pattern, dtype) ∷ rules) name =
    let same : glob_match (codes pattern) (codes name) ≡ applies name (pattern, dtype) =
      (glob_match_lem (codes pattern) (codes name)).1 in
    elim (Bool-cases (applies name (pattern, dtype))) [
      | inl hit ↦
          inr ([], rules, (pattern, dtype), refl, refl, hit, rw (same ∙ hit, for_tensor) refl)
      | inr miss ↦ elim (for_tensor_lem rules name) [
        | inl (others, is) ↦ inl (rw miss others, rw (same ∙ miss, for_tensor) is)
        | inr (before, after, rule, split, others, hit, is) ↦ inr (
          (pattern, dtype) ∷ before,
          after,
          rule,
          ap (λ t. (pattern, dtype) ∷ t) split,
          rw miss others,
          hit,
          rw (same ∙ miss, for_tensor) is,
        )
      ]
    ]

-- A dtype's name parses to it.
pub parse_lower-to_str : (dtype : DType) → parse_lower (to_str dtype) ≡ ok dtype
unfolding parse_lower to_str
parse_lower-to_str float64 = refl
parse_lower-to_str float32 = refl
parse_lower-to_str bfloat16 = refl
parse_lower-to_str float16 = refl
parse_lower-to_str float8_e4m3 = refl
parse_lower-to_str float8_e5m2 = refl
parse_lower-to_str unchanged = refl

any_suffix-empty : (n : List ℕ) → any_suffix (matches []) n ≡ true
unfolding matches
any_suffix-empty [] = refl
any_suffix-empty (c ∷ n) = ground (arith, any_suffix-empty n)

starred :
    (name : String) (dtype : DType)
    → (if glob_match (codes "*") (codes name) then dtype else unchanged) ≡ dtype
unfolding matches
starred name dtype =
    rw ((glob_match_lem (codes "*") (codes name)).1 ∙ any_suffix-empty (codes name)) refl

-- Under a single setting every tensor, whatever its name, gets that dtype.
pub for_tensor-uniform : (dtype : DType) (name : String) → for_tensor (uniform dtype) name ≡ dtype
unfolding for_tensor uniform
for_tensor-uniform unchanged name = refl
for_tensor-uniform float64 name = starred name float64
for_tensor-uniform float32 name = starred name float32
for_tensor-uniform bfloat16 name = starred name bfloat16
for_tensor-uniform float16 name = starred name float16
for_tensor-uniform float8_e4m3 name = starred name float8_e4m3
for_tensor-uniform float8_e5m2 name = starred name float8_e5m2
