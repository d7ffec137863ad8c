-- ===== src/Storage/Padding.antt =====
-- What padding adds, and that the readers take exactly that off again.
use moonclip.Prelude.{
  ℕ, zero, suc, ◌+◌, ◌-◌, ◌*◌, ◌%◌, ◌<◌, min, ◌≡◌, refl, sym, ap, ◌∙◌, List, [], ◌∷◌, ◌++◌, false,
  some, ◌==◌, length, take, drop, replicate, length-append, length-replicate, take-append, take_all,
  arith, Bool-cases, inl, inr, leb, leb→le, lt→ltb, ==_iff, ap₂, drop_all, length-drop, ◌/◌,
}
use native.Mathlib.Nat.{mul-mod_right, div-add-mod, mod-lt, add-zero}
use moonclip.Storage.{join_parts, padding, padded, rposition_nonzero, trim_zeros, get_range_default}

round_up : (page total : ℕ) → 0 < page → (total + (page - total % page)) % page ≡ 0
round_up page total h = ap (λ n. n % page) whole_pages ∙ mul-mod_right page (total / page + 1)
  where
    whole_pages : total + (page - total % page) ≡ page * (total / page + 1)
    whole_pages = omega (arith, div-add-mod total page, mod-lt total h)

padding_round :
    (page total : ℕ)
    → 0 < page
    → (padding page total < page) × ((total + padding page total) % page ≡ 0)
unfolding padding
padding_round page total h = elim (Bool-cases (total % page == 0)) [
  | inl even ↦
      rw (lt→ltb 0 page h, even) (h, ap (λ n. n % page) (add-zero total) ∙ (==_iff _ _).0 even)
  | inr odd ↦
      rw (lt→ltb 0 page h, odd) (omega (arith, less (total % page) odd), round_up page total h)
]
  where
    less : (n : ℕ) → (n == 0) ≡ false → 0 < n
    less n e = ground arith

length-padded :
    (page : ℕ) (parts : List (List ℕ))
    → length (padded page parts)
      ≡ length (join_parts parts) + padding page (length (join_parts parts))
unfolding padded
length-padded page parts =
    length-append (join_parts parts) (replicate (padding page (length (join_parts parts))) 0)
    ∙ ap (λ n. length (join_parts parts) + n)
        (length-replicate (padding page (length (join_parts parts))) 0)

-- A written file is the parts, in order, and fewer zeros than a page; with a page size it is a whole
-- number of pages, and without one nothing is added.
pub padded_shape :
    (page_size : ℕ) (parts : List (List ℕ))
    → (n : ℕ) × (padded page_size parts ≡ join_parts parts ++ replicate n 0)
      × (0 < page_size → (n < page_size) × (length (padded page_size parts) % page_size ≡ 0))
      × (page_size ≡ 0 → n ≡ 0)
padded_shape page_size parts =
    let total = length (join_parts parts) in
    (
      padding page_size total,
      unfold padded in refl,
      λ h.
          let (less, round) = padding_round page_size total h in
          (less, ap (λ n. n % page_size) (length-padded page_size parts) ∙ round),
      λ h. ap (λ p. padding p total) h ∙ (unfold padding in refl),
    )

rposition-append :
    (bytes : List ℕ) (n : ℕ) → rposition_nonzero (bytes ++ replicate n 0) ≡ rposition_nonzero bytes
unfolding rposition_nonzero
rposition-append [] zero = refl
rposition-append [] (suc n) = rw (rposition-append [] n)
rposition-append (b ∷ bs) n = rw (rposition-append bs n)

-- A buffer that does not end in a zero.
abbrev pub EndsNonzero : List ℕ → Type 0
EndsNonzero bytes = (i : ℕ) × (rposition_nonzero bytes ≡ some i) × (i + 1 ≡ length bytes)

-- A text that does not end in a zero byte comes back whole from a file that pads it with zeros.
pub trim_zeros-append :
    (bytes : List ℕ) (n : ℕ) → EndsNonzero bytes → trim_zeros (bytes ++ replicate n 0) ≡ bytes
unfolding trim_zeros
trim_zeros-append bytes n (i, last, all) =
    rw (rposition-append bytes n ∙ last, trim_zeros)
      (ap (λ k. take k (bytes ++ replicate n 0)) all ∙ take-append bytes (replicate n 0))

take-min : (n : ℕ) (xs : List ℕ) → take (min n (length xs)) xs ≡ take n xs
take-min n xs = elim (Bool-cases (leb n (length xs))) [
  | inl short ↦ ap (λ k. take k xs) {x = min n (length xs)} (ground arith)
  | inr long ↦
      ap (λ k. take k xs) {x = min n (length xs)} {y = length xs} (ground arith)
      ∙ take_all (length xs) xs (omega arith)
      ∙ sym (take_all n xs (ground arith))
]

-- The trait's default range read and a seek and a bounded read give the same bytes.
pub get_range_default_lem :
    (bytes : List ℕ) (offset len : ℕ)
    → get_range_default bytes offset len ≡ take len (drop offset bytes)
unfolding get_range_default
get_range_default_lem bytes offset len = elim (Bool-cases (leb offset (length bytes))) [
  | inl inside ↦
      let at_offset : min offset (length bytes) ≡ offset = ground arith in
      let width : min (min offset (length bytes) + len) (length bytes) - min offset (length bytes)
          ≡ min len (length (drop offset bytes)) =
        omega (arith, length-drop offset bytes, leb→le offset (length bytes) inside) in
      ap₂ (λ n m. take n (drop m bytes)) width at_offset ∙ take-min len (drop offset bytes)
  | inr outside ↦
      let at_end : min offset (length bytes) ≡ length bytes = ground arith in
      ap₂ (λ n m. take n (drop m bytes))
        {x = min (min offset (length bytes) + len) (length bytes) - min offset (length bytes)}
        {y = 0} (omega (arith, at_end)) at_end
      ∙ sym (ap (take len) (drop_all offset bytes (ground arith)) ∙ take_nil len)
]
  where
    take_nil : (n : ℕ) → take {A = ℕ} n [] ≡ []
    take_nil zero = refl
    take_nil (suc n) = refl
