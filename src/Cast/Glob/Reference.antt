-- ===== src/Cast/Glob/Reference.antt =====
-- The iterative matcher agrees with the meaning of a pattern: a `*` stands for any run of characters.
use moonclip.Prelude.{
  ℕ, zero, suc, ◌+◌, ◌*◌, ◌≤◌, ◌<◌, ◌≡◌, refl, sym, ap, ap₂, ◌∙◌, List, [], ◌∷◌, ◌++◌, Bool, true,
  false, ◌&&◌, ◌||◌, Option, none, some, ◌==◌, if◌then◌else◌, length, drop, arith, inl, inr,
  Bool-cases, ==_iff, drop-append, drop-drop, append_assoc, All, length-drop, length-append,
  Option-cases,
}
use moonclip.Prelude.Search.{all, All-append}
use native.Mathlib.Nat.{suc-mul, mul-le-mul_right}
use moonclip.Cast.Glob.{GlobState, asterisk, backtrack, glob_step, glob_loop, glob_run, glob_match}

-- Some suffix passes, the whole list included.
abbrev pub any_suffix : (List ℕ → Bool) → List ℕ → Bool
any_suffix p [] = p []
any_suffix p (c ∷ n) = p (c ∷ n) || any_suffix p n

abbrev pub matches_head : ℕ → (List ℕ → Bool) → List ℕ → Bool
matches_head x p [] = false
matches_head x p (c ∷ n) = (x == c) && p n

-- The reference: by recursion on the pattern, trying every run for a `*`.
unfoldable pub matches : List ℕ → List ℕ → Bool
matches [] [] = true
matches [] (c ∷ n) = false
matches (x ∷ p) n = if x == asterisk then any_suffix (matches p) n else matches_head x (matches p) n

-- A proper suffix passes.
abbrev any_later : (List ℕ → Bool) → List ℕ → Bool
any_later p [] = false
any_later p (c ∷ n) = any_suffix p n

any_suffix-intro :
    (p : List ℕ → Bool) (k : ℕ) (n : List ℕ) → p (drop k n) ≡ true → any_suffix p n ≡ true
any_suffix-intro p zero [] h = h
any_suffix-intro p (suc k) [] h = h
any_suffix-intro p zero (c ∷ n) h = ground arith
any_suffix-intro p (suc k) (c ∷ n) h = ground (arith, any_suffix-intro p k n h)

any_suffix-elim :
    (p : List ℕ → Bool) (n : List ℕ) → any_suffix p n ≡ true → (k : ℕ) × (p (drop k n) ≡ true)
any_suffix-elim p [] h = (0, h)
any_suffix-elim p (c ∷ n) h = elim (Bool-cases (p (c ∷ n))) [
  | inl hit ↦ (0, hit)
  | inr miss ↦ let (k, e) = any_suffix-elim p n (rw miss at h) in (suc k, e)
]

any_later-elim :
    (p : List ℕ → Bool) (n : List ℕ) → any_later p n ≡ true → (k : ℕ) × (p (drop (suc k) n) ≡ true)
any_later-elim p [] h = cc
any_later-elim p (c ∷ n) h = any_suffix-elim p n h

abbrev IsLiteral : List ℕ → Type 0
IsLiteral w = All (λ c. (c == asterisk) ≡ false) w

matches_literal :
    (x : ℕ) (p t : List ℕ)
    → (x == asterisk) ≡ false
    → matches (x ∷ p) t ≡ matches_head x (matches p) t
unfolding matches
matches_literal x p t e = rw (e, matches) refl

matches_star :
    (x : ℕ) (p t : List ℕ) → (x == asterisk) ≡ true → matches (x ∷ p) t ≡ any_suffix (matches p) t
unfolding matches
matches_star x p t e = rw (e, matches) refl

-- Literal characters match themselves and nothing else.
literal-split :
    (w p t : List ℕ)
    → IsLiteral w
    → matches (w ++ p) t ≡ true
    → (rest : List ℕ) × (t ≡ w ++ rest) × (matches p rest ≡ true)
literal-split [] p t h m = (t, refl, m)
literal-split (x ∷ w) p [] h m = absurd cc (m, matches_literal x (w ++ p) [] h.0)
literal-split (x ∷ w) p (c ∷ t) h m =
    let (same, later) = both (x == c) _ (sym (matches_literal x (w ++ p) (c ∷ t) h.0) ∙ m) in
    let (rest, e, left) = literal-split w p t h.1 later in
    (rest, ap₂ (λ y ys. y ∷ ys) (sym ((==_iff x c).0 same)) e, left)
  where
    both : (a b : Bool) → (a && b) ≡ true → (a ≡ true) × (b ≡ true)
    both a b e = ground arith

-- A pattern of asterisks alone matches the empty text, and no other pattern does.
matches_empty : (p : List ℕ) → matches p [] ≡ all (λ c. c == asterisk) p
unfolding matches
matches_empty [] = refl
matches_empty (x ∷ p) = elim (Bool-cases (x == asterisk)) [
  | inl star ↦ matches_star x p [] star ∙ matches_empty p ∙ rw star refl
  | inr literal ↦ matches_literal x p [] literal ∙ rw literal refl
]

-- What a state of the loop still accepts: what the pattern left matches, and what the last asterisk
-- reaches by taking more.
abbrev accepts : List ℕ → List ℕ → Option (List ℕ × List ℕ) → Bool
accepts p n none = matches p n
accepts p n (some (after_star, resume)) = matches p n || any_later (matches after_star) resume

-- Since the last asterisk the pattern and the name have gone through the same literal characters.
abbrev Follows : List ℕ → List ℕ → Option (List ℕ × List ℕ) → Type 0
Follows p n none = Unit {0}
Follows p n (some (after_star, resume)) =
    (w : List ℕ) × IsLiteral w × (after_star ≡ w ++ p) × (resume ≡ w ++ n)

-- A text that the last asterisk accepts later on, and that comes to another one, is accepted from
-- there as well.
later_is_covered :
    (x : ℕ) (p n after_star resume : List ℕ)
    → (x == asterisk) ≡ true
    → Follows (x ∷ p) n (some (after_star, resume))
    → any_later (matches after_star) resume ≡ true
    → any_suffix (matches p) n ≡ true
later_is_covered x p n after_star resume star (w, literal, is_star, is_resume) h =
    let (k, hit) = any_later-elim (matches after_star) resume h in
    let (rest, is_text, m) =
      literal-split w (x ∷ p) (drop (suc k) resume) literal
        (ap (λ q. matches q (drop (suc k) resume)) (sym is_star) ∙ hit) in
    let (j, deep) = any_suffix-elim (matches p) rest (sym (matches_star x p rest star) ∙ m) in
    any_suffix-intro (matches p) (suc k + j) n (ap (matches p) (same k j rest is_text) ∙ deep)
  where
    same :
        (k j : ℕ) (rest : List ℕ)
        → drop (suc k) resume ≡ w ++ rest
        → drop (suc k + j) n ≡ drop j rest
    same k j rest e =
        ap (λ t. drop (suc k + j) t) (sym (drop-append w n))
        ∙ ap (λ t. drop (suc k + j) (drop (length w) t)) (sym is_resume)
        ∙ drop-drop (suc k + j) (length w) resume
        ∙ ap (λ i. drop i resume) {x = length w + (suc k + j)} {y = suc k + (length w + j)}
            (omega arith)
        ∙ sym (drop-drop (length w + j) (suc k) resume)
        ∙ ap (λ t. drop (length w + j) t) e
        ∙ sym (drop-drop j (length w) (w ++ rest))
        ∙ ap (λ t. drop j t) (drop-append w rest)

-- How many characters the last asterisk may still take, at most; the whole name before the first.
abbrev left : ℕ → Option (List ℕ × List ℕ) → ℕ
left name none = name
left name (some (after_star, resume)) = length resume

abbrev star_length : Option (List ℕ × List ℕ) → ℕ
star_length none = 0
star_length (some (after_star, resume)) = length after_star

matches_nil : (c : ℕ) (n : List ℕ) → matches [] (c ∷ n) ≡ false
unfolding matches
matches_nil c n = refl

absorb : (a b : Bool) → (b ≡ true → a ≡ true) → (a || b) ≡ a
absorb true b h = refl
absorb false true h = sym (h refl)
absorb false false h = refl

accepts_star :
    (x : ℕ) (p : List ℕ) (c : ℕ) (n : List ℕ) (star : Option (List ℕ × List ℕ))
    → (x == asterisk) ≡ true
    → Follows (x ∷ p) (c ∷ n) star
    → accepts (x ∷ p) (c ∷ n) star ≡ accepts p (c ∷ n) (some (p, c ∷ n))
accepts_star x p c n none e f = matches_star x p (c ∷ n) e
accepts_star x p c n (some (q, r)) e f =
    absorb (matches (x ∷ p) (c ∷ n)) (any_later (matches q) r)
      (λ h. matches_star x p (c ∷ n) e ∙ later_is_covered x p (c ∷ n) q r e f h)
    ∙ matches_star x p (c ∷ n) e

accepts_cong :
    (p n p' n' : List ℕ) (star : Option (List ℕ × List ℕ))
    → matches p n ≡ matches p' n'
    → accepts p n star ≡ accepts p' n' star
accepts_cong p n p' n' none e = e
accepts_cong p n p' n' (some (q, r)) e = ap (λ b. b || any_later (matches q) r) e

Follows-on :
    (star : Option (List ℕ × List ℕ)) (x c : ℕ) (p n : List ℕ)
    → x ≡ c
    → (x == asterisk) ≡ false
    → Follows (x ∷ p) (c ∷ n) star
    → Follows p n star
Follows-on none x c p n is literal f = tt
Follows-on (some (q, r)) x c p n is literal (w, ws, is_star, is_resume) = (
  w ++ (x ∷ []),
  All-append _ w (x ∷ []) ws (literal, tt),
  is_star ∙ sym (append_assoc w (x ∷ []) p),
  is_resume ∙ ap (λ y. w ++ (y ∷ n)) (sym is) ∙ sym (append_assoc w (x ∷ []) n),
)

any_later-pos : (p : List ℕ → Bool) (n : List ℕ) → any_later p n ≡ true → 0 < length n
any_later-pos p [] h = absurd cc
any_later-pos p (c ∷ n) h = omega arith

accepts_empty :
    (p : List ℕ) (star : Option (List ℕ × List ℕ))
    → Follows p [] star
    → accepts p [] star ≡ all (λ c. c == asterisk) p
accepts_empty p none f = matches_empty p
accepts_empty p (some (q, r)) (w, ws, is_star, is_resume) =
    absorb (matches p []) (any_later (matches q) r) (λ h. absurd (none_later h)) ∙ matches_empty p
  where
    none_later : any_later (matches q) r ≡ true → ⊥
    none_later h =
        let (k, hit) = any_later-elim (matches q) r h in
        let (rest, e, m) =
          literal-split w p (drop (suc k) r) ws
            (ap (λ t. matches t (drop (suc k) r)) (sym is_star) ∙ hit) in
        omega (
          arith,
          any_later-pos (matches q) r h,
          ap (λ t. length t) is_resume,
          ap (λ t. length t) e,
          length-drop (suc k) r,
          length-append w [],
          length-append w rest,
        )

module _ (pattern name : ℕ) where
  -- The state is within the pattern and the name.
  abbrev IsBounded : List ℕ → List ℕ → Option (List ℕ × List ℕ) → Type 0
  IsBounded p n star =
      (length p ≤ pattern)
      × (length n ≤ left name star)
      × (left name star ≤ name)
      × (star_length star ≤ pattern)

  -- It falls in every round.
  abbrev rank : List ℕ → List ℕ → Option (List ℕ × List ℕ) → ℕ
  rank p n star = left name star * (pattern + name + 1) + (length p + length n)

  -- What one round does to a state: it decides, or goes on at a state that accepts the same.
  abbrev Steps : List ℕ → List ℕ → Option (List ℕ × List ℕ) → Option GlobState → Type 0
  Steps p n star none = accepts p n star ≡ false
  Steps p n star (some (p', n', star')) =
      (accepts p n star ≡ accepts p' n' star')
      × Follows p' n' star'
      × IsBounded p' n' star'
      × (rank p' n' star' < rank p n star)

  backtrack-Steps :
      (p : List ℕ) (c : ℕ) (n : List ℕ) (star : Option (List ℕ × List ℕ))
      → matches p (c ∷ n) ≡ false
      → Follows p (c ∷ n) star
      → IsBounded p (c ∷ n) star
      → Steps p (c ∷ n) star (backtrack star)
  backtrack-Steps p c n none m f b = m
  backtrack-Steps p c n (some (q, [])) m (w, literal, is_star, is_resume) b =
      absurd (omega (arith, b.1))
  backtrack-Steps p c n (some (q, r ∷ resume)) m f b = (
    rw m (meaning resume),
    ([], tt, refl, refl),
    (omega (arith, b), omega arith, omega (arith, b), omega (arith, b)),
    omega (arith, b, suc-mul (length resume) (pattern + name + 1)),
  )
    where
      meaning :
          (rs : List ℕ) → any_suffix (matches q) rs ≡ (matches q rs || any_later (matches q) rs)
      meaning [] = ground arith
      meaning (x ∷ xs) = refl

  glob_step-Steps :
      (p : List ℕ) (c : ℕ) (n : List ℕ) (star : Option (List ℕ × List ℕ))
      → Follows p (c ∷ n) star
      → IsBounded p (c ∷ n) star
      → Steps p (c ∷ n) star (glob_step p c n star)
  unfolding glob_step
  glob_step-Steps [] c n star f b = backtrack-Steps [] c n star (matches_nil c n) f b
  glob_step-Steps (x ∷ p) c n star f b = elim (Bool-cases (x == asterisk)) [
    | inl is_star ↦ rw is_star (
      accepts_star x p c n star is_star f,
      ([], tt, refl, refl),
      (omega (arith, b), omega arith, omega (arith, b), omega (arith, b)),
      omega (arith, b, mul-le-mul_right (pattern + name + 1) (b.1)),
    )
    | inr literal ↦ elim (Bool-cases (x == c)) [
      | inl same ↦
          let is : x ≡ c = (==_iff x c).0 same in
          rw (literal, same)
            (
              accepts_cong (x ∷ p) (c ∷ n) p n star
                  (matches_literal x p (c ∷ n) literal ∙ ap (λ t. t && matches p n) same),
              Follows-on star x c p n is literal f,
              (omega (arith, b), omega (arith, b), omega (arith, b), omega (arith, b)),
              omega arith,
            )
      | inr differs ↦
          rw (literal, differs)
            (backtrack-Steps (x ∷ p) c n star
              (matches_literal x p (c ∷ n) literal ∙ ap (λ t. t && matches p n) differs) f b)
    ]
  ]

  -- With more fuel than the rank the loop finds what the state accepts.
  glob_loop_lem :
      (fuel : ℕ) (p n : List ℕ) (star : Option (List ℕ × List ℕ))
      → Follows p n star
      → IsBounded p n star
      → rank p n star < fuel
      → glob_loop fuel p n star ≡ some (accepts p n star)
  unfolding glob_loop
  glob_loop_lem zero p n star f b h = absurd (omega arith)
  glob_loop_lem (suc fuel) p [] star f b h = ap some (sym (accepts_empty p star f))
  glob_loop_lem (suc fuel) p (c ∷ n) star f b h = elim (Option-cases (glob_step p c n star)) [
    | inl e ↦ rw (e, glob_loop) (ap some (sym (rw e at (glob_step-Steps p c n star f b))))
    | inr ((p', n', star'), e) ↦
        let (same, f', b', less) = rw e at (glob_step-Steps p c n star f b) in
        rw (e, glob_loop) (glob_loop_lem fuel p' n' star' f' b' (omega arith) ∙ ap some (sym same))
  ]

-- The loop comes to an answer, before its fuel is used up, and it is the reference's: a pattern matches a
-- name exactly if every `*` can be given a run of characters that makes the rest agree.
pub glob_match_lem :
    (pattern name : List ℕ)
    → (glob_run pattern name ≡ some (matches pattern name))
      × (glob_match pattern name ≡ matches pattern name)
unfolding glob_run glob_match
glob_match_lem pattern name = (run, rw (glob_match, run) refl)
  where
    run : glob_run pattern name ≡ some (matches pattern name)
    run =
        glob_loop_lem (length pattern) (length name) _ pattern name none tt
          (omega arith, omega arith, omega arith, omega arith)
          (omega (arith, suc-mul (length name) (length pattern + length name + 1)))
