-- ===== src/Pack/Header.antt =====
-- The header round trip in both directions.
use moonclip.Prelude.{
  ℕ, zero, suc, ◌+◌, ◌≤◌, ◌<◌, ◌^◌, ◌≡◌, refl, sym, ap, ap₂, ◌∙◌, List, [], ◌∷◌, ◌++◌, Bool, true,
  false, not, Option, none, some, ltb, if◌then◌else◌, length, take, drop, All, arith, drop-drop,
  take-append-drop, length-take, length-drop, ==_iff,
}
use moonclip.Prelude.Chunks.{bytes_eq_iff}
use moonclip.Prelude.Words.{IsByte, to_le, from_le, from_le-to_le, to_le-from_le, from_le_bound}
use moonclip.Pack.{magic, version, header_len, slice, encode_header, decode_header}

-- A header written for any two 64-bit numbers is 32 bytes long and is read back as those numbers,
-- whatever follows it in the file.
pub decode_header-encode_header :
    (offset len : ℕ) (rest : List ℕ)
    → offset < 2 ^ 64
    → len < 2 ^ 64
    → (length (encode_header offset len) ≡ header_len)
      × (decode_header (encode_header offset len ++ rest) ≡ some (offset, len))
unfolding decode_header encode_header
decode_header-encode_header offset len rest ho hl =
    (refl, rw long (ap₂ (λ o l. some (o, l)) (from_le-to_le 8 offset ho) (from_le-to_le 8 len hl)))
  where
    long : ltb (length (encode_header offset len ++ rest)) header_len ≡ false
    long = ground arith

All-take {ℓ κ} : {A : Type ℓ} (P : A → Type κ) (n : ℕ) (xs : List A) → All P xs → All P (take n xs)
All-take P zero xs h = tt
All-take P (suc n) [] h = tt
All-take P (suc n) (x ∷ xs) h = (h.0, All-take P n xs h.1)

All-drop {ℓ κ} : {A : Type ℓ} (P : A → Type κ) (n : ℕ) (xs : List A) → All P xs → All P (drop n xs)
All-drop P zero xs h = h
All-drop P (suc n) [] h = tt
All-drop P (suc n) (x ∷ xs) h = All-drop P n xs h.1

length-slice :
    (lo width : ℕ) (bytes : List ℕ)
    → lo + width ≤ length bytes
    → length (slice lo width bytes) ≡ width
length-slice lo width bytes h =
    omega (arith, length-take width (drop lo bytes), length-drop lo bytes)

-- A field that is long enough is the encoding of the number read from it.
field_back :
    (lo width : ℕ) (bytes : List ℕ)
    → All IsByte bytes
    → lo + width ≤ length bytes
    → slice lo width bytes ≡ to_le width (from_le (slice lo width bytes))
field_back lo width bytes h long =
    sym
      (to_le-from_le (slice lo width bytes) (All-take IsByte width _ (All-drop IsByte lo bytes h)))
    ∙ ap (λ n. to_le n (from_le (slice lo width bytes))) (length-slice lo width bytes long)

field_bound :
    (lo : ℕ) (bytes : List ℕ)
    → All IsByte bytes
    → lo + 8 ≤ length bytes
    → from_le (slice lo 8 bytes) < 2 ^ 64
field_bound lo bytes h long = omega (
  arith,
  from_le_bound (slice lo 8 bytes) (All-take IsByte 8 _ (All-drop IsByte lo bytes h)),
  ap (λ n. 256 ^ n) (length-slice lo 8 bytes long),
)

-- The fields of a buffer, one after the other.
fields :
    (bytes : List ℕ)
    → bytes
      ≡ take 8 bytes
        ++ (slice 8 4 bytes
            ++ (slice 12 4 bytes ++ (slice 16 8 bytes ++ (slice 24 8 bytes ++ drop 32 bytes))))
fields bytes =
    sym (take-append-drop 8 bytes)
    ∙ ap (λ t. take 8 bytes ++ t)
        (cut 8 4 12 refl
          ∙ ap (λ t. slice 8 4 bytes ++ t)
              (cut 12 4 16 refl
                ∙ ap (λ t. slice 12 4 bytes ++ t)
                    (cut 16 8 24 refl ∙ ap (λ t. slice 16 8 bytes ++ t) (cut 24 8 32 refl))))
  where
    cut :
        (lo width hi : ℕ) → lo + width ≡ hi → drop lo bytes ≡ slice lo width bytes ++ drop hi bytes
    cut lo width hi e =
        sym (take-append-drop width (drop lo bytes))
        ∙ ap (λ t. slice lo width bytes ++ t) (drop-drop width lo bytes ∙ ap (λ n. drop n bytes) e)

-- Two tests in a row, passed.
passed :
    (a b : Bool) (found read : Option (ℕ × ℕ)) {p : ℕ × ℕ}
    → read ≡ found
    → (if a then none else if not b then none else read) ≡ some p
    → (a ≡ false) × (b ≡ true) × (found ≡ some p)
passed a b found read e h = ground arith

-- What the three tests of `decode_header` say of a buffer that passes them.
decode_tests :
    (bytes : List ℕ) (offset len : ℕ)
    → decode_header bytes ≡ some (offset, len)
    → (32 ≤ length bytes)
      × (take 8 bytes ≡ magic)
      × (from_le (slice 8 4 bytes) ≡ version)
      × (from_le (slice 16 8 bytes) ≡ offset)
      × (from_le (slice 24 8 bytes) ≡ len)
unfolding decode_header
decode_tests bytes offset len h =
    let (in_front, is_version, read) =
      passed _ _ (some (from_le (slice 16 8 bytes), from_le (slice 24 8 bytes))) _ refl h in
    (
      (ground arith),
      (bytes_eq_iff (take 8 bytes) magic).0 (ground arith),
      (==_iff (from_le (slice 8 4 bytes)) version).0 is_version,
      cc read,
      cc read,
    )

-- A buffer of bytes from which `decode_header` reads two numbers is a header that `encode_header`
-- writes for them, up to the four reserved bytes, followed by anything; both fit 64 bits.
pub encode_header-decode_header :
    (bytes : List ℕ) (offset len : ℕ)
    → All IsByte bytes
    → decode_header bytes ≡ some (offset, len)
    → (bytes
        ≡ magic
          ++ (to_le 4 version
              ++ (slice 12 4 bytes ++ (to_le 8 offset ++ (to_le 8 len ++ drop 32 bytes)))))
      × (offset < 2 ^ 64)
      × (len < 2 ^ 64)
encode_header-decode_header bytes offset len h e =
    let (long, is_magic, is_version, is_offset, is_len) = decode_tests bytes offset len e in
    let field : (lo width v : ℕ)
        → lo + width ≤ length bytes
        → from_le (slice lo width bytes) ≡ v
        → slice lo width bytes ≡ to_le width v =
      λ lo width v fits is. field_back lo width bytes h fits ∙ ap (to_le width) is in
    (
      fields bytes
          ∙ ap₂ (λ a b. a ++ b) is_magic
              (ap₂ (λ a b. a ++ b) (field 8 4 version (omega arith) is_version)
                (ap (λ t. slice 12 4 bytes ++ t)
                  (ap₂ (λ a b. a ++ b) (field 16 8 offset (omega arith) is_offset)
                    (ap (λ t. t ++ drop 32 bytes) (field 24 8 len (omega arith) is_len))))),
      omega (arith, field_bound 16 bytes h (omega arith), is_offset),
      omega (arith, field_bound 24 bytes h (omega arith), is_len),
    )
