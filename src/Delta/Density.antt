-- ===== src/Delta/Density.antt =====
-- The density scan counts the positions at which base and target differ.
use moonclip.Prelude.{
  ℕ, ◌+◌, ◌<◌, bit_xor, ◌≡◌, refl, ap, ap₂, ◌∙◌, List, [], ◌∷◌, ◌++◌, true, false, some, ◌==◌,
  if◌then◌else◌, length, arith, map, inl, inr, Bool-cases,
}
use moonclip.Prelude.Bits.{xor_self, eq_of_xor}
use moonclip.Prelude.Tabulate.{concat}
use moonclip.Prelude.Chunks.{chunks, bytes_eq, concat-chunks, length-zip_with}
use moonclip.Error.{ok}
use moonclip.Delta.{scan_chunk, nonzero, sum, delta_density, compute_delta}
use moonclip.Delta.RoundTrip.{xor_all, compute_delta_lem, delta_parts}

nonzero-append : (xs ys : List ℕ) → nonzero (xs ++ ys) ≡ nonzero xs + nonzero ys
unfolding nonzero
nonzero-append [] ys = omega arith
nonzero-append (x ∷ xs) ys = omega (arith, nonzero-append xs ys)

sum-nonzero : (xss : List (List ℕ)) → sum (map nonzero xss) ≡ nonzero (concat xss)
unfolding sum nonzero
sum-nonzero [] = refl
sum-nonzero (xs ∷ xss) = omega (arith, sum-nonzero xss, nonzero-append xs (concat xss))

-- The chunked scan counts the bytes of the whole buffer that are not 0.
delta_density_lem : (delta : List ℕ) → delta_density delta ≡ (nonzero delta, length delta)
unfolding delta_density
delta_density_lem delta =
    ap (λ n. (n, length delta))
      (sum-nonzero (chunks scan_chunk delta)
        ∙ ap nonzero (concat-chunks scan_chunk delta (omega arith)))

-- The positions at which two buffers hold different bytes.
abbrev pub differences : List ℕ → List ℕ → ℕ
differences [] ys = 0
differences (x ∷ xs) [] = 0
differences (x ∷ xs) (y ∷ ys) = (if x == y then 0 else 1) + differences xs ys

byte_differs : (x y : ℕ) → (bit_xor x y == 0) ≡ (x == y)
byte_differs x y = elim (Bool-cases (x == y)) [
  | inl same ↦ rw same (ground (arith, xor_self x, ap (bit_xor x) (eq x y same)))
  | inr other ↦ rw other (ground (arith, eq_of_xor x y))
]
  where
    eq : (a b : ℕ) → (a == b) ≡ true → a ≡ b
    eq a b h = ground arith

nonzero-xor_all : (xs ys : List ℕ) → nonzero (xor_all xs ys) ≡ differences xs ys
unfolding nonzero
nonzero-xor_all [] ys = refl
nonzero-xor_all (x ∷ xs) [] = refl
nonzero-xor_all (x ∷ xs) (y ∷ ys) =
    rw byte_differs (ap (λ n. (if x == y then 0 else 1) + n) (nonzero-xor_all xs ys))

differences_pos :
    (xs ys : List ℕ) → length xs ≡ length ys → bytes_eq xs ys ≡ false → 0 < differences xs ys
differences_pos [] [] h d = cc
differences_pos [] (y ∷ ys) h d = absurd (omega arith)
differences_pos (x ∷ xs) [] h d = absurd (omega arith)
differences_pos (x ∷ xs) (y ∷ ys) h d = ground (arith, differences_pos xs ys)

-- The density of a delta that `compute_delta` made: the number of positions at which base and
-- target differ, at least one, out of as many as the base has bytes.
pub delta_density-compute_delta :
    (base target delta : List ℕ)
    → compute_delta base target ≡ ok (some delta)
    → (delta_density delta ≡ (differences base target, length base)) × (0 < differences base target)
delta_density-compute_delta base target delta h =
    let (same, made) = delta_parts base target delta h in
    (
      delta_density_lem delta
          ∙ ap (λ d. (nonzero d, length d)) made
          ∙ ap₂ (λ n k. (n, k)) (nonzero-xor_all base target)
              (length-zip_with bit_xor base target same),
      differences_pos base target same (ground (arith, compute_delta_lem base target, h)),
    )
