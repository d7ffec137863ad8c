-- ===== src/Prelude/Chunks.antt =====
-- Slices cut into chunks of one length, the last one shorter, and the lists worked on in pairs.
use Prim.Native.Nat.{ℕ, zero, suc, ◌≤◌, ◌<◌}
use mathlib.Core.Path.{◌≡◌, refl, sym, ap, ◌∙◌}
use mathlib.Core.Bool.{Bool, true, false, ◌&&◌, ◌||◌, not}
use mathlib.Core.List.{List, [], ◌∷◌, ◌++◌}
use mathlib.Core.Logic.{◌↔◌}
use native.Mathlib.Omega.{arith}
use moonclip.Prelude.Lists.{length, take, drop, length-drop, take-append-drop}
use moonclip.Prelude.Tabulate.{concat}
use moonclip.Prelude.Tests.{◌==◌}

module _ {ℓ} {A : Type ℓ} where
  abbrev chunks_within : ℕ → ℕ → List A → List (List A)
  chunks_within zero c xs = []
  chunks_within (suc fuel) c [] = []
  chunks_within (suc fuel) c (x ∷ xs) = take c (x ∷ xs) ∷ chunks_within fuel c (drop c (x ∷ xs))

  -- Every chunk takes an element at least, so `length xs` rounds are enough.
  pub chunks : ℕ → List A → List (List A)
  chunks c xs = chunks_within (length xs) c xs

  concat-chunks_within :
      (fuel c : ℕ) (xs : List A) → 0 < c → length xs ≤ fuel → concat (chunks_within fuel c xs) ≡ xs
  concat-chunks_within zero c [] hc hf = refl
  concat-chunks_within zero c (x ∷ xs) hc hf = absurd (omega arith)
  concat-chunks_within (suc fuel) c [] hc hf = refl
  concat-chunks_within (suc fuel) c (x ∷ xs) hc hf =
      ap (λ t. take c (x ∷ xs) ++ t)
        (concat-chunks_within fuel c (drop c (x ∷ xs)) hc (omega (arith, length-drop c (x ∷ xs))))
      ∙ take-append-drop c (x ∷ xs)

  pub concat-chunks : (c : ℕ) (xs : List A) → 0 < c → concat (chunks c xs) ≡ xs
  unfolding chunks
  concat-chunks c xs hc = concat-chunks_within (length xs) c xs hc (omega arith)

module _ {ℓ} {A B C : Type ℓ} (f : A → B → C) where
  abbrev pub zip_with : List A → List B → List C
  zip_with [] ys = []
  zip_with (x ∷ xs) [] = []
  zip_with (x ∷ xs) (y ∷ ys) = f x y ∷ zip_with xs ys

  pub length-zip_with :
      (xs : List A) (ys : List B) → length xs ≡ length ys → length (zip_with xs ys) ≡ length xs
  length-zip_with [] ys h = refl
  length-zip_with (x ∷ xs) [] h = absurd (omega arith)
  length-zip_with (x ∷ xs) (y ∷ ys) h = ap suc (length-zip_with xs ys (omega arith))

  pub zip_with-split :
      (c : ℕ) (xs : List A) (ys : List B)
      → zip_with (take c xs) (take c ys) ++ zip_with (drop c xs) (drop c ys) ≡ zip_with xs ys
  zip_with-split zero xs ys = refl
  zip_with-split (suc c) [] ys = refl
  zip_with-split (suc c) (x ∷ xs) [] = ends (drop c xs)
    where
      ends : (zs : List A) → zip_with zs [] ≡ []
      ends [] = refl
      ends (z ∷ zs) = refl
  zip_with-split (suc c) (x ∷ xs) (y ∷ ys) = ap (λ t. f x y ∷ t) (zip_with-split c xs ys)

module _ {ℓ} {A B C : Type ℓ} (f : A → B → C) where
  zip_chunks_within :
      (n m c : ℕ) (xs : List A) (ys : List B)
      → 0 < c
      → length xs ≡ length ys
      → length xs ≤ n
      → length ys ≤ m
      → concat (zip_with (zip_with f) (chunks_within n c xs) (chunks_within m c ys))
        ≡ zip_with f xs ys
  zip_chunks_within zero m c [] ys hc e hn hm = refl
  zip_chunks_within zero m c (x ∷ xs) ys hc e hn hm = absurd (omega arith)
  zip_chunks_within (suc n) m c [] ys hc e hn hm = refl
  zip_chunks_within (suc n) m c (x ∷ xs) [] hc e hn hm = absurd (omega arith)
  zip_chunks_within (suc n) zero c (x ∷ xs) (y ∷ ys) hc e hn hm = absurd (omega arith)
  zip_chunks_within (suc n) (suc m) c (x ∷ xs) (y ∷ ys) hc e hn hm =
      ap (λ t. zip_with f (take c (x ∷ xs)) (take c (y ∷ ys)) ++ t)
        (zip_chunks_within n m c (drop c (x ∷ xs)) (drop c (y ∷ ys)) hc
          (omega (arith, length-drop c (x ∷ xs), length-drop c (y ∷ ys)))
          (omega (arith, length-drop c (x ∷ xs))) (omega (arith, length-drop c (y ∷ ys))))
      ∙ zip_with-split f c (x ∷ xs) (y ∷ ys)

  -- Working on the chunks in pairs is working on the elements in pairs.
  pub zip_chunks :
      (c : ℕ) (xs : List A) (ys : List B)
      → 0 < c
      → length xs ≡ length ys
      → concat (zip_with (zip_with f) (chunks c xs) (chunks c ys)) ≡ zip_with f xs ys
  unfolding chunks
  zip_chunks c xs ys hc e =
      zip_chunks_within (length xs) (length ys) c xs ys hc e (omega arith) (omega arith)

-- Equality of byte buffers, as `memcmp` decides it.
abbrev pub bytes_eq : List ℕ → List ℕ → Bool
bytes_eq [] [] = true
bytes_eq [] (y ∷ ys) = false
bytes_eq (x ∷ xs) [] = false
bytes_eq (x ∷ xs) (y ∷ ys) = (x == y) && bytes_eq xs ys

pub bytes_eq_iff : (xs ys : List ℕ) → (bytes_eq xs ys ≡ true) ↔ (xs ≡ ys)
bytes_eq_iff [] [] = ground arith
bytes_eq_iff [] (y ∷ ys) = ground arith
bytes_eq_iff (x ∷ xs) [] = ground arith
bytes_eq_iff (x ∷ xs) (y ∷ ys) = ground (arith, bytes_eq_iff xs ys)

bytes_eq-split :
    (c : ℕ) (xs ys : List ℕ)
    → length xs ≡ length ys
    → bytes_eq xs ys ≡ (bytes_eq (take c xs) (take c ys) && bytes_eq (drop c xs) (drop c ys))
bytes_eq-split zero xs ys h = refl
bytes_eq-split (suc c) [] [] h = refl
bytes_eq-split (suc c) [] (y ∷ ys) h = absurd (omega arith)
bytes_eq-split (suc c) (x ∷ xs) [] h = absurd (omega arith)
bytes_eq-split (suc c) (x ∷ xs) (y ∷ ys) h = ground (arith, bytes_eq-split c xs ys (omega arith))

-- Some pair of chunks differs.
abbrev pub any_differs : List (List ℕ) → List (List ℕ) → Bool
any_differs [] ts = false
any_differs (b ∷ bs) [] = false
any_differs (b ∷ bs) (t ∷ ts) = not (bytes_eq b t) || any_differs bs ts

any_differs_within :
    (n m c : ℕ) (xs ys : List ℕ)
    → 0 < c
    → length xs ≡ length ys
    → length xs ≤ n
    → length ys ≤ m
    → any_differs (chunks_within n c xs) (chunks_within m c ys) ≡ not (bytes_eq xs ys)
any_differs_within zero m c [] [] hc e hn hm = refl
any_differs_within zero m c [] (y ∷ ys) hc e hn hm = absurd (omega arith)
any_differs_within zero m c (x ∷ xs) ys hc e hn hm = absurd (omega arith)
any_differs_within (suc n) m c [] [] hc e hn hm = refl
any_differs_within (suc n) m c [] (y ∷ ys) hc e hn hm = absurd (omega arith)
any_differs_within (suc n) m c (x ∷ xs) [] hc e hn hm = absurd (omega arith)
any_differs_within (suc n) zero c (x ∷ xs) (y ∷ ys) hc e hn hm = absurd (omega arith)
any_differs_within (suc n) (suc m) c (x ∷ xs) (y ∷ ys) hc e hn hm =
    ap (λ b. not (bytes_eq (take c (x ∷ xs)) (take c (y ∷ ys))) || b)
      (any_differs_within n m c (drop c (x ∷ xs)) (drop c (y ∷ ys)) hc
        (omega (arith, length-drop c (x ∷ xs), length-drop c (y ∷ ys)))
        (omega (arith, length-drop c (x ∷ xs))) (omega (arith, length-drop c (y ∷ ys))))
    ∙ or_not _ _
    ∙ ap not (sym (bytes_eq-split c (x ∷ xs) (y ∷ ys) e))
  where
    or_not : (a b : Bool) → (not a || not b) ≡ not (a && b)
    or_not true b = refl
    or_not false b = refl

-- Comparing chunk by chunk is comparing the whole buffers.
pub any_differs-chunks :
    (c : ℕ) (xs ys : List ℕ)
    → 0 < c
    → length xs ≡ length ys
    → any_differs (chunks c xs) (chunks c ys) ≡ not (bytes_eq xs ys)
unfolding chunks
any_differs-chunks c xs ys hc e =
    any_differs_within (length xs) (length ys) c xs ys hc e (omega arith) (omega arith)
