-- ===== src/Pack/Tests.antt =====
-- A pack header at concrete numbers.
use moonclip.Prelude.{ℕ, List, [], ◌∷◌, ◌++◌, ◌≡◌, refl, some, length, All, arith}
use moonclip.Prelude.Words.{IsByte}
use moonclip.Pack.{magic, header_len, encode_header, decode_header}
use moonclip.Pack.Header.{decode_header-encode_header}

decode_header-encode_header_example :
    (length (encode_header 4096 200) ≡ header_len)
    × (decode_header (encode_header 4096 200 ++ (1 ∷ 2 ∷ [])) ≡ some (4096, 200))
decode_header-encode_header_example =
    decode_header-encode_header 4096 200 (1 ∷ 2 ∷ []) (omega arith) (omega arith)

-- A header with reserved bytes that are not zero, and a byte behind it.
abbrev header_bytes : List ℕ
header_bytes =
    magic
    ++ (1 ∷ 0 ∷ 0 ∷ 0 ∷ 9 ∷ 9 ∷ 9 ∷ 9 ∷ 0 ∷ 16 ∷ 0 ∷ 0 ∷ 0 ∷ 0 ∷ 0 ∷ 0 ∷ 200 ∷ 0 ∷ 0 ∷ 0 ∷ 0 ∷ 0 ∷ 0
        ∷ 0 ∷ 77 ∷ [])

header_bytes-IsByte : All IsByte header_bytes
header_bytes-IsByte = ground arith

header_bytes_read : decode_header header_bytes ≡ some (4096, 200)
unfolding decode_header
header_bytes_read = refl
