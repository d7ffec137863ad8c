-- ===== src/Compression/Stored.antt =====
-- A compressor that stores a buffer behind its length keeps the laws of zstd.
use moonclip.Prelude.{
  ℕ, suc, ◌<◌, List, [], ◌∷◌, ◌++◌, ◌≡◌, refl, Option, none, some, length, arith, take, take_all,
  ap,
}
use moonclip.Compression.{Zstd, ZstdLaws}

abbrev first_number : List ℕ → Option ℕ
first_number [] = none
first_number (n ∷ rest) = some n

abbrev frame_length : List ℕ → Option ℕ
frame_length [] = none
frame_length (n ∷ rest) = some (suc n)

abbrev content_of : List ℕ → Option (List ℕ)
content_of [] = none
content_of (n ∷ rest) = some (take n rest)

abbrev pub stored : Zstd
stored = record {
  bulk_compress = λ level x. some (length x ∷ x);
  find_frame_compressed_size = frame_length;
  get_frame_content_size = first_number;
  decompress_to_buffer = λ f n. content_of f;
  decode_all = content_of;
}

pub stored-ZstdLaws : ZstdLaws stored
stored-ZstdLaws = record {
  frame_pos = λ level x f h. pos x f h;
  frame_size = λ level x f rest h. size x f rest h;
  content_size = λ level x f h. content_size x f h;
  content = λ level x f h. content x f h;
}
  where
    framed : (x f : List ℕ) → some (length x ∷ x) ≡ some f → length x ∷ x ≡ f
    framed x f h = cc

    pos : (x f : List ℕ) → some (length x ∷ x) ≡ some f → 0 < length f
    pos x f h = rw (← framed x f h) (omega arith)

    size :
        (x f rest : List ℕ)
        → some (length x ∷ x) ≡ some f
        → frame_length (f ++ rest) ≡ some (length f)
    size x f rest h = rw (← framed x f h) refl

    content_size : (x f : List ℕ) → some (length x ∷ x) ≡ some f → first_number f ≡ some (length x)
    content_size x f h = rw (← framed x f h) refl

    content : (x f : List ℕ) → some (length x ∷ x) ≡ some f → content_of f ≡ some x
    content x f h = rw (← framed x f h) (ap some (take_all (length x) x (omega arith)))
