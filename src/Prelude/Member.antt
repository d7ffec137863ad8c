-- ===== src/Prelude/Member.antt =====
-- Membership with its place, and what filtering keeps.
use Prim.Native.Nat.{ℕ, ◌+◌, ◌<◌}
use mathlib.Core.Path.{◌≡◌, refl, sym, ap, ◌∙◌}
use mathlib.Core.Bool.{Bool, true, false, ◌&&◌, not}
use mathlib.Core.List.{List, [], ◌∷◌, ◌++◌, map}
use mathlib.Core.List.Memᴰ.{head, tail, not-nil, cases_cons}
use mathlib.Core.Logic.{inl, inr, ◌⊎◌}
use mathlib.Core.Option.{some}
use native.Mathlib.Omega.{arith}
use moonclip.Prelude.Tests.{◌==◌, Bool-cases}
use moonclip.Prelude.Lists.{length}
use moonclip.Prelude.Search.{find, filter, any, contains, length-filter}
pub use mathlib.Core.List.{Memᴰ}

module _ {ℓ} {A : Type ℓ} where
  pub any_intro : (p : A → Bool) (xs : List A) (x : A) → Memᴰ x xs → p x ≡ true → any p xs ≡ true
  any_intro p [] x h px = absurd (not-nil h)
  any_intro p (y ∷ ys) x (head e) px = rw (ap p (sym e) ∙ px)
  any_intro p (y ∷ ys) x (tail h) px = ground (arith, any_intro p ys x h px)

  pub any_elim : (p : A → Bool) (xs : List A) → any p xs ≡ true → (x : A) × Memᴰ x xs × (p x ≡ true)
  any_elim p [] h = cc
  any_elim p (y ∷ ys) h = elim (Bool-cases (p y)) [
    | inl hit ↦ (y, head refl, hit)
    | inr miss ↦ let (x, i, px) = any_elim p ys (rw miss at h) in (x, tail i, px)
  ]

  pub find_In : (p : A → Bool) (xs : List A) (x : A) → find p xs ≡ some x → Memᴰ x xs × (p x ≡ true)
  find_In p [] x h = cc
  find_In p (y ∷ ys) x h = elim (Bool-cases (p y)) [
    | inl hit ↦ let same : y ≡ x = cc (h, first hit) in (head (sym same), ap p (sym same) ∙ hit)
    | inr miss ↦ let (i, px) = find_In p ys x (later miss ∙ h) in (tail i, px)
  ]
    where
      first : p y ≡ true → find p (y ∷ ys) ≡ some y
      first e = rw e

      later : p y ≡ false → find p ys ≡ find p (y ∷ ys)
      later e = rw e

  pub In-filter :
      (p : A → Bool) (xs : List A) (x : A) → Memᴰ x (filter p xs) → Memᴰ x xs × (p x ≡ true)
  In-filter p [] x h = absurd (not-nil h)
  In-filter p (y ∷ ys) x h = elim (Bool-cases (p y)) [
    | inl hit ↦ elim (cases_cons (rw hit at h)) [
      | inl e ↦ (head e, ap p e ∙ hit)
      | inr i ↦ let (j, px) = In-filter p ys x i in (tail j, px)
    ]
    | inr miss ↦ let (j, px) = In-filter p ys x (rw miss at h) in (tail j, px)
  ]

  pub filter-In :
      (p : A → Bool) (xs : List A) (x : A) → Memᴰ x xs → p x ≡ true → Memᴰ x (filter p xs)
  filter-In p [] x h px = absurd (not-nil h)
  filter-In p (y ∷ ys) x (head e) px = rw (ap p (sym e) ∙ px) (head e)
  filter-In p (y ∷ ys) x (tail h) px = elim (Bool-cases (p y)) [
    | inl kept ↦ rw kept (tail (filter-In p ys x h px))
    | inr gone ↦ rw gone (filter-In p ys x h px)
  ]

  -- A filter that lets through what another one keeps does not disturb it.
  pub filter-filter :
      (p keep : A → Bool) (xs : List A)
      → ((x : A) → Memᴰ x xs → p x ≡ true → keep x ≡ true)
      → filter p (filter keep xs) ≡ filter p xs
  filter-filter p keep [] h = refl
  filter-filter p keep (y ∷ ys) h =
      let ih = filter-filter p keep ys (λ x i. h x (tail i)) in
      elim (Bool-cases (p y)) [
        | inl hit ↦ rw (h y (head refl) hit, hit) (ap (λ t. y ∷ t) ih)
        | inr miss ↦ elim (Bool-cases (keep y)) [
          | inl kept ↦ rw (kept, miss) ih
          | inr gone ↦ rw (gone, miss) ih
        ]
      ]

  pub any-filter :
      (p keep : A → Bool) (xs : List A)
      → ((x : A) → Memᴰ x xs → p x ≡ true → keep x ≡ true)
      → any p (filter keep xs) ≡ any p xs
  any-filter p keep [] h = refl
  any-filter p keep (y ∷ ys) h =
      let ih = any-filter p keep ys (λ x i. h x (tail i)) in
      elim (Bool-cases (p y)) [
        | inl hit ↦ rw (h y (head refl) hit, hit)
        | inr miss ↦ elim (Bool-cases (keep y)) [
          | inl kept ↦ rw (kept, miss) ih
          | inr gone ↦ rw (gone, miss) ih
        ]
      ]

  pub any-filter-false :
      (p keep : A → Bool) (xs : List A) → any p xs ≡ false → any p (filter keep xs) ≡ false
  any-filter-false p keep [] h = refl
  any-filter-false p keep (y ∷ ys) h = ground (arith, any-filter-false p keep ys)

  -- What a test counts is split between a filter and its complement.
  pub length-filter_split :
      (p q : A → Bool) (xs : List A)
      → length (filter p xs)
        ≡ length (filter p (filter q xs)) + length (filter p (filter (λ x. not (q x)) xs))
  length-filter_split p q [] = omega arith
  length-filter_split p q (y ∷ ys) = ground (arith, length-filter_split p q ys)

  -- Something the filter drops makes the list shorter.
  pub length-filter_lt :
      (keep : A → Bool) (xs : List A) (x : A)
      → Memᴰ x xs
      → keep x ≡ false
      → length (filter keep xs) < length xs
  length-filter_lt keep [] x h gone = absurd (not-nil h)
  length-filter_lt keep (y ∷ ys) x (head e) gone =
      rw (ap keep (sym e) ∙ gone) (omega (arith, length-filter keep ys))
  length-filter_lt keep (y ∷ ys) x (tail h) gone = ground (arith, length-filter_lt keep ys x h gone)

  pub contains-map-filter :
      (name : A → ℕ) (p : A → Bool) (xs : List A) (i : ℕ)
      → contains (map name (filter p xs)) i ≡ any (λ x. p x && (name x == i)) xs
  contains-map-filter name p [] i = refl
  contains-map-filter name p (y ∷ ys) i = ground (arith, contains-map-filter name p ys i)

-- An element of two lists in a row is one of theirs.
pub In-append : {A : Type 0} (xs ys : List A) (x : A) → Memᴰ x (xs ++ ys) → Memᴰ x xs ⊎ Memᴰ x ys
In-append [] ys x i = inr i
In-append (y ∷ xs) ys x i = elim (cases_cons i) [
  | inl e ↦ inl (head e)
  | inr k ↦ elim (In-append xs ys x k) [ inl l ↦ inl (tail l) | inr r ↦ inr r ]
]
