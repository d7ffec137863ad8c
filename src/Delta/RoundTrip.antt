-- ===== src/Delta/RoundTrip.antt =====
-- A delta applied to its base gives the target back, and `compute_delta` answers on every input.
use moonclip.Prelude.{
  ℕ, bit_xor, ◌≡◌, ◌≢◌, ◌↔◌, refl, sym, ap, ap₂, ◌∙◌, List, [], ◌∷◌, true, not, ◌&&◌, Option, none,
  some, ◌==◌, leb, if◌then◌else◌, length, arith, inl, inr, Bool-cases, ==_iff,
}
use moonclip.Prelude.Bits.{xor_cancel}
use moonclip.Prelude.Chunks.{
  zip_with, zip_chunks, length-zip_with, bytes_eq, bytes_eq_iff, any_differs-chunks,
}
use moonclip.Error.{ok, err, MoonclipError}
use moonclip.Delta.{
  delta_min_size, scan_chunk, xor_bytes, buffers_equal, compute_delta, apply_delta,
}

-- The exclusive or of two buffers, byte by byte.
abbrev pub xor_all : List ℕ → List ℕ → List ℕ
xor_all = zip_with bit_xor

-- On equal lengths the chunked pass is the exclusive or byte by byte.
pub xor_bytes_lem :
    (base target : List ℕ)
    → length base ≡ length target
    → xor_bytes base target ≡ ok (xor_all base target)
unfolding xor_bytes
xor_bytes_lem base target h =
    rw ((==_iff (length base) (length target)).1 h)
      (ap ok (zip_chunks bit_xor scan_chunk base target (omega arith) h))

xor_all_cancel :
    (base target : List ℕ)
    → length base ≡ length target
    → xor_all base (xor_all base target) ≡ target
xor_all_cancel [] [] h = refl
xor_all_cancel [] (t ∷ ts) h = absurd (omega arith)
xor_all_cancel (b ∷ bs) [] h = absurd (omega arith)
xor_all_cancel (b ∷ bs) (t ∷ ts) h =
    ap₂ (λ x xs. x ∷ xs) (xor_cancel b t) (xor_all_cancel bs ts (omega arith))

-- On every two buffers the parallel comparison is equality.
pub buffers_equal_iff :
    (base target : List ℕ) → (buffers_equal base target ≡ true) ↔ (base ≡ target)
unfolding buffers_equal
buffers_equal_iff base target = elim (Bool-cases (length base == length target)) [
  | inl same ↦
      rw (same, any_differs-chunks scan_chunk base target (omega arith) ((==_iff _ _).0 same))
        (ground (arith, bytes_eq_iff base target))
  | inr other ↦ rw other (
    (λ h. cc),
    λ e. cc ((==_iff (length base) (length target)).1 (ap (λ xs. length xs) e), other),
  )
]

-- What `compute_delta` answers, in terms of the two buffers alone: no delta of buffers of different
-- or small size or of the same bytes, else the exclusive or of the two. It never panics.
abbrev delta_of : List ℕ → List ℕ → Option (List ℕ)
delta_of base target =
    if (length base == length target)
      && leb delta_min_size (length base)
      && not (bytes_eq base target)
    then some (xor_all base target)
    else none

pub compute_delta_lem :
    (base target : List ℕ) → compute_delta base target ≡ ok (delta_of base target)
unfolding compute_delta
compute_delta_lem base target = elim (Bool-cases (length base == length target)) [
  | inl same ↦
      ground
        (arith, xor_bytes_lem base target, buffers_equal_iff base target, bytes_eq_iff base target)
  | inr other ↦ rw other
]

-- A delta that is made is the exclusive or of two buffers of one length.
pub delta_parts :
    (base target delta : List ℕ)
    → compute_delta base target ≡ ok (some delta)
    → (length base ≡ length target) × (delta ≡ xor_all base target)
delta_parts base target delta h = ground (arith, compute_delta_lem base target, h)

-- A delta that `compute_delta` makes against a base gives exactly the target when it is applied to
-- that base.
pub apply_delta-compute_delta :
    (base target delta : List ℕ)
    → compute_delta base target ≡ ok (some delta)
    → apply_delta base delta ≡ ok target
unfolding apply_delta
apply_delta-compute_delta base target delta h =
    let (same, made) = delta_parts base target delta h in
    let long : length base ≡ length delta =
      omega (arith, ap (λ d. length d) made, length-zip_with bit_xor base target same) in
    rw ((==_iff _ _).1 long, xor_bytes_lem base delta long)
      (ap ok (ap (xor_all base) made ∙ xor_all_cancel base target same))

-- `apply_delta` refuses a delta of another length, and otherwise undoes itself: applied to its own
-- result it gives the delta back. It never panics.
pub apply_delta_total :
    (base delta : List ℕ)
    → (length base ≢ length delta → apply_delta base delta ≡ err MoonclipError.delta)
      × (length base ≡ length delta
          → (target : List ℕ) × (apply_delta base delta ≡ ok target)
            × (length target ≡ length base)
            × (apply_delta base target ≡ ok delta))
unfolding apply_delta
apply_delta_total base delta = (
  (λ h. elim (Bool-cases (length base == length delta)) [
    | inl same ↦ absurd (h ((==_iff _ _).0 same))
    | inr other ↦ rw other
  ]),
  λ h.
      let back : length base ≡ length (xor_all base delta) =
        sym (length-zip_with bit_xor base delta h) in
      (
        xor_all base delta,
        rw ((==_iff _ _).1 h, xor_bytes_lem base delta h),
        sym back,
        rw ((==_iff _ _).1 back, xor_bytes_lem base (xor_all base delta) back)
            (ap ok (xor_all_cancel base delta h)),
      ),
)
