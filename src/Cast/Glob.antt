-- ===== src/Cast/Glob.antt =====
-- src/cast.rs: `glob_match`, whose one metacharacter is `*`. A text is its code points, and the indices
-- into the pattern and the name are kept as what stands from them on. The loop is on fuel.
pub mod Reference
use moonclip.Prelude.{
  ℕ, zero, suc, ◌+◌, ◌*◌, List, [], ◌∷◌, Bool, true, false, Option, none, some, ◌==◌, if◌then◌else◌,
  length,
}
use moonclip.Prelude.Search.{all}

abbrev pub asterisk : ℕ
asterisk = b'*'

-- The pattern from `pi` on, the name from `ni` on, and for the last `*` met, what stands behind it and
-- the name from `resume` on.
abbrev pub GlobState : Type 0
GlobState = List ℕ × List ℕ × Option (List ℕ × List ℕ)

-- The last `*` takes one more character.
abbrev pub backtrack : Option (List ℕ × List ℕ) → Option GlobState
backtrack none = none
backtrack (some (after_star, [])) = none
backtrack (some (after_star, c ∷ resume)) = some (after_star, resume, some (after_star, resume))

-- One round of the loop at a name that has a character left, or none where it returns false.
unfoldable pub glob_step : List ℕ → ℕ → List ℕ → Option (List ℕ × List ℕ) → Option GlobState
glob_step [] c name star = backtrack star
glob_step (x ∷ pattern) c name star =
    if x == asterisk
    then some (pattern, c ∷ name, some (pattern, c ∷ name))
    else if x == c
    then some (pattern, name, star)
    else backtrack star

-- None where the fuel is used up before the loop decides.
unfoldable pub glob_loop : ℕ → List ℕ → List ℕ → Option (List ℕ × List ℕ) → Option Bool
glob_loop zero p n star = none
glob_loop (suc fuel) p [] star = some (all (λ c. c == asterisk) p)
glob_loop (suc fuel) p (c ∷ n) star = elim (glob_step p c n star) [
  | none ↦ some false
  | some (p', n', star') ↦ glob_loop fuel p' n' star'
]

unfoldable pub glob_run : List ℕ → List ℕ → Option Bool
glob_run pattern name =
    glob_loop ((length name + 1) * (length pattern + length name + 1)) pattern name none

-- The fuel is enough, so the answer stands for that of the loop in the source.
unfoldable pub glob_match : List ℕ → List ℕ → Bool
unfolding glob_run
glob_match pattern name = elim (glob_run pattern name) [ none ↦ false | some answer ↦ answer ]
