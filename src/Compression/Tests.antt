-- ===== src/Compression/Tests.antt =====
-- Buffers through a compressor that stores them, and a decoder that gives a byte at a time.
use moonclip.Prelude.{ℕ, List, [], ◌∷◌, ◌≡◌, refl, Option, some, arith}
use moonclip.Error.{ok}
use moonclip.Manifest.{zstd}
use moonclip.Compression.{compress, decompress}
use moonclip.Compression.Stored.{stored, stored-ZstdLaws}
use moonclip.Compression.RoundTrip.{decompress-compress}
use moonclip.Compression.Prefix.{Stream, IsBounded, read_prefix, decompress_prefix}

compressed : compress stored (5 ∷ 6 ∷ 7 ∷ []) (zstd 3) ≡ ok (3 ∷ 5 ∷ 6 ∷ 7 ∷ [])
unfolding compress
compressed = refl

decompress-compress_example : decompress stored (3 ∷ 5 ∷ 6 ∷ 7 ∷ []) (zstd 3) ≡ ok (5 ∷ 6 ∷ 7 ∷ [])
decompress-compress_example =
    decompress-compress stored stored-ZstdLaws (5 ∷ 6 ∷ 7 ∷ []) (3 ∷ 5 ∷ 6 ∷ 7 ∷ []) (zstd 3)
      compressed

-- A decoder of stored bytes, which gives one at a read.
abbrev one_byte : List ℕ → ℕ → Option (List ℕ × List ℕ)
one_byte (x ∷ rest) (ℕ.suc n) = some (x ∷ [], rest)
one_byte rest n = some ([], rest)

abbrev bytewise : Stream (List ℕ)
bytewise = record { new = λ bytes. some bytes; read = one_byte }

bytewise-IsBounded : IsBounded bytewise
unfolding IsBounded
bytewise-IsBounded [] n bytes rest h = let same : [] ≡ bytes = cc h in rw (← same) (omega arith)
bytewise-IsBounded (x ∷ d) ℕ.zero bytes rest h =
    let same : [] ≡ bytes = cc h in rw (← same) (omega arith)
bytewise-IsBounded (x ∷ d) (ℕ.suc n) bytes rest h =
    let same : x ∷ [] ≡ bytes = cc h in rw (← same) (omega arith)

two_read : decompress_prefix bytewise (7 ∷ 8 ∷ 9 ∷ []) (zstd 3) 2 ≡ ok (7 ∷ 8 ∷ [])
unfolding decompress_prefix read_prefix
two_read = refl
