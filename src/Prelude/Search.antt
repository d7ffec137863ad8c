-- ===== src/Prelude/Search.antt =====
-- Iterator chains with Boolean tests: find, filter, any, contains, sort and dedup.
use Prim.Native.Nat.{ℕ, suc, ◌≤◌}
use mathlib.Core.Path.{◌≡◌, refl, sym, ap, ◌∙◌}
use mathlib.Core.Bool.{Bool, true, false, ◌&&◌, ◌||◌}
use mathlib.Core.List.{
  List, [], ◌∷◌, ◌++◌, reverse, reverse-reverse, append_assoc, reverse-append, append-nil,
}
use mathlib.Core.Logic.{◌⊎◌, inl, inr}
use mathlib.Core.Option.{Option, none, some}
use native.Mathlib.Omega.{arith}
use moonclip.Prelude.Tests.{◌==◌, leb, if◌then◌else◌, Bool-cases}
use moonclip.Prelude.Lists.{length, All, length-append}

module _ {ℓ} {A : Type ℓ} (p : A → Bool) where
  abbrev pub find : List A → Option A
  find [] = none
  find (x ∷ xs) = if p x then some x else find xs

  abbrev pub filter : List A → List A
  filter [] = []
  filter (x ∷ xs) = if p x then x ∷ filter xs else filter xs

  abbrev pub any : List A → Bool
  any [] = false
  any (x ∷ xs) = p x || any xs

  abbrev pub all : List A → Bool
  all [] = true
  all (x ∷ xs) = p x && all xs

  -- The number of elements in front of the first that fails.
  abbrev pub count_while : List A → ℕ
  count_while [] = 0
  count_while (x ∷ xs) = if p x then suc (count_while xs) else 0

-- `id` is an element.
abbrev pub contains : List ℕ → ℕ → Bool
contains xs id = any (λ x. x == id) xs

abbrev pub insert_sorted : ℕ → List ℕ → List ℕ
insert_sorted n [] = n ∷ []
insert_sorted n (m ∷ ms) = if leb n m then n ∷ m ∷ ms else m ∷ insert_sorted n ms

unfoldable pub sort : List ℕ → List ℕ
sort [] = []
sort (n ∷ ns) = insert_sorted n (sort ns)

-- Of equal neighbours only the first stays.
unfoldable pub dedup : List ℕ → List ℕ
dedup [] = []
dedup (n ∷ []) = n ∷ []
dedup (n ∷ m ∷ ms) = let rest = dedup (m ∷ ms) in if n == m then rest else n ∷ rest

-- Facts about a list that a search returns.
module _ {ℓ} {A : Type ℓ} (p : A → Bool) where
  -- The element found stands behind others that all fail.
  pub find_split :
      (xs : List A) (x : A)
      → find p xs ≡ some x
      → (front back : List A) × (xs ≡ front ++ (x ∷ back)) × (p x ≡ true) × (any p front ≡ false)
  find_split [] x h = cc
  find_split (y ∷ xs) x h = elim (Bool-cases (p y)) [
    | inl hit ↦
        let same : y ≡ x = cc (h, first hit) in
        ([], xs, ap (λ t. t ∷ xs) same, ap p (sym same) ∙ hit, refl)
    | inr miss ↦
        let (front, back, e, px, others) = find_split xs x (later miss ∙ h) in
        (y ∷ front, back, ap (λ t. y ∷ t) e, px, rw miss others)
  ]
    where
      first : p y ≡ true → find p (y ∷ xs) ≡ some y
      first e = rw e

      later : p y ≡ false → find p xs ≡ find p (y ∷ xs)
      later e = rw e

  pub find-none : (xs : List A) → find p xs ≡ none → any p xs ≡ false
  find-none [] h = refl
  find-none (y ∷ xs) h = ground (arith, find-none xs)

  pub find-any : (xs : List A) → any p xs ≡ true → (x : A) × (find p xs ≡ some x)
  find-any [] h = cc
  find-any (y ∷ xs) h = elim (Bool-cases (p y)) [
    | inl hit ↦ (y, rw hit)
    | inr miss ↦ let (x, e) = find-any xs (rw miss at h) in (x, rw miss e)
  ]

  pub any-append : (xs ys : List A) → any p (xs ++ ys) ≡ (any p xs || any p ys)
  any-append [] ys = refl
  any-append (x ∷ xs) ys = ground (arith, any-append xs ys)

  pub any-reverse : (xs : List A) → any p (reverse xs) ≡ any p xs
  any-reverse [] = refl
  any-reverse (x ∷ xs) =
      ap (any p) (reverse-append (x ∷ []) xs)
      ∙ any-append (reverse xs) (x ∷ [])
      ∙ ground (arith, any-reverse xs)

  pub length-filter : (xs : List A) → length (filter p xs) ≤ length xs
  length-filter [] = omega arith
  length-filter (x ∷ xs) = ground (arith, length-filter xs)

  pub All-filter : (xs : List A) → All (λ x. p x ≡ true) (filter p xs)
  All-filter [] = tt
  All-filter (x ∷ xs) = elim (Bool-cases (p x)) [
    | inl hit ↦ rw hit (hit, All-filter xs)
    | inr miss ↦ rw miss (All-filter xs)
  ]

pub contains-insert_sorted :
    (id n : ℕ) (xs : List ℕ) → contains (insert_sorted n xs) id ≡ ((n == id) || contains xs id)
contains-insert_sorted id n [] = refl
contains-insert_sorted id n (m ∷ ms) = ground (arith, contains-insert_sorted id n ms)

pub contains-sort : (id : ℕ) (xs : List ℕ) → contains (sort xs) id ≡ contains xs id
unfolding sort
contains-sort id [] = refl
contains-sort id (n ∷ ns) =
    contains-insert_sorted id n (sort ns) ∙ ap (λ b. (n == id) || b) (contains-sort id ns)

pub contains-dedup : (id : ℕ) (xs : List ℕ) → contains (dedup xs) id ≡ contains xs id
unfolding dedup
contains-dedup id [] = refl
contains-dedup id (n ∷ []) = refl
contains-dedup id (n ∷ m ∷ ms) = ground (arith, contains-dedup id (m ∷ ms))

module _ {ℓ} {A : Type ℓ} where
  pub reverse_around :
      (xs ys : List A) (x : A) → reverse (xs ++ (x ∷ ys)) ≡ reverse ys ++ (x ∷ reverse xs)
  reverse_around xs ys x =
      reverse-append xs (x ∷ ys)
      ∙ ap (λ t. t ++ reverse xs) (reverse-append (x ∷ []) ys)
      ∙ append_assoc (reverse ys) (x ∷ []) (reverse xs)

  -- A list is read off its reverse.
  pub reverse_swap : (xs ys : List A) → reverse xs ≡ ys → xs ≡ reverse ys
  reverse_swap xs ys e = sym (reverse-reverse xs) ∙ ap reverse e

  pub length-reverse : (xs : List A) → length (reverse xs) ≡ length xs
  length-reverse [] = refl
  length-reverse (x ∷ xs) =
      ap (λ t. length t) (reverse-append (x ∷ []) xs)
      ∙ omega (arith, length-append (reverse xs) (x ∷ []), length-reverse xs)

  pub All-append {κ} : (P : A → Type κ) (xs ys : List A) → All P xs → All P ys → All P (xs ++ ys)
  All-append P [] ys hx hy = hy
  All-append P (x ∷ xs) ys hx hy = (hx.0, All-append P xs ys hx.1 hy)

  pub All-reverse {κ} : (P : A → Type κ) (xs : List A) → All P xs → All P (reverse xs)
  All-reverse P [] h = tt
  All-reverse P (x ∷ xs) h =
      rw (reverse-append (x ∷ []) xs)
        (All-append P (reverse xs) (x ∷ []) (All-reverse P xs h.1) (h.0, tt))

pub filter-append {ℓ} :
    {A : Type ℓ} (p : A → Bool) (xs ys : List A) → filter p (xs ++ ys) ≡ filter p xs ++ filter p ys
filter-append p [] ys = refl
filter-append p (x ∷ xs) ys = ground (arith, filter-append p xs ys)

pub filter-reverse {ℓ} :
    {A : Type ℓ} (p : A → Bool) (xs : List A) → filter p (reverse xs) ≡ reverse (filter p xs)
filter-reverse p [] = refl
filter-reverse p (x ∷ xs) =
    ap (filter p) (reverse-append (x ∷ []) xs)
    ∙ filter-append p (reverse xs) (x ∷ [])
    ∙ ap (λ t. t ++ filter p (x ∷ [])) (filter-reverse p xs)
    ∙ one (Bool-cases (p x))
  where
    one :
        (p x ≡ true) ⊎ (p x ≡ false)
        → reverse (filter p xs) ++ filter p (x ∷ []) ≡ reverse (filter p (x ∷ xs))
    one (inl hit) = rw hit (sym (reverse-append (x ∷ []) (filter p xs)))
    one (inr miss) = rw miss (append-nil (reverse (filter p xs)))

pub filter-none {ℓ} :
    {A : Type ℓ} (p : A → Bool) (xs : List A) → any p xs ≡ false → filter p xs ≡ []
filter-none p [] h = refl
filter-none p (x ∷ xs) h = ground (arith, filter-none p xs)

pub any-length-filter {ℓ} :
    {A : Type ℓ} (p : A → Bool) (xs : List A) → length (filter p xs) ≡ 0 → any p xs ≡ false
any-length-filter p [] h = refl
any-length-filter p (x ∷ xs) h = ground (arith, any-length-filter p xs)

pub find-filter {ℓ} :
    {A : Type ℓ} (p keep : A → Bool) (xs : List A) (x : A)
    → find p xs ≡ some x
    → keep x ≡ true
    → find p (filter keep xs) ≡ some x
find-filter p keep [] x h k = cc
find-filter p keep (y ∷ ys) x h k = elim (Bool-cases (p y)) [
  | inl hit ↦ let same : y ≡ x = cc (h, first hit) in rw (ap keep same ∙ k, hit) (ap some same)
  | inr miss ↦
      let ih = find-filter p keep ys x (later miss ∙ h) k in
      elim (Bool-cases (keep y)) [ inl kept ↦ rw (kept, miss) ih | inr gone ↦ rw gone ih ]
]
  where
    first : p y ≡ true → find p (y ∷ ys) ≡ some y
    first e = rw e

    later : p y ≡ false → find p ys ≡ find p (y ∷ ys)
    later e = rw e

-- Where a run of passing elements ends.
abbrev pub EndsRun {ℓ} : {A : Type ℓ} → (A → Bool) → List A → Type ℓ
EndsRun {A} p xs = (xs ≡ []) ⊎ ((x : A) × (rest : List A) × (xs ≡ x ∷ rest) × (p x ≡ false))

pub count_while_split {ℓ} :
    {A : Type ℓ} (p : A → Bool) (xs : List A)
    → (front back : List A) × (xs ≡ front ++ back)
      × (length front ≡ count_while p xs)
      × All (λ x. p x ≡ true) front
      × EndsRun p back
count_while_split p [] = ([], [], refl, refl, tt, inl refl)
count_while_split p (x ∷ xs) = elim (Bool-cases (p x)) [
  | inl hit ↦
      let (front, back, e, n, passing, ends) = count_while_split p xs in
      (x ∷ front, back, ap (λ t. x ∷ t) e, rw hit (ap suc n), (hit, passing), ends)
  | inr miss ↦ ([], x ∷ xs, refl, rw miss, tt, inr (x, xs, refl, miss))
]
