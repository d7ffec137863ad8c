-- ===== src/Compression.antt =====
-- src/compression.rs: buffers as concatenated zstd frames. The zstd library is a parameter.
pub mod RoundTrip
pub mod Prefix
pub mod Stored
mod Tests
use moonclip.Prelude.{
  ℕ, zero, suc, ◌+◌, ◌*◌, ◌≤◌, ◌<◌, ◌≡◌, List, [], ◌∷◌, ◌++◌, Bool, true, false, not, ◌||◌, Option,
  none, some, ◌==◌, ltb, leb, if◌then◌else◌, length, take, drop, map,
}
use moonclip.Prelude.Chunks.{chunks}
use moonclip.Error.{MoonclipError, Result, ok, err, panic, ◌>>=◌}
use moonclip.Manifest.{CompressionAlgo, uncompressed, zstd}

-- `PARALLEL_CHUNK`
abbrev pub parallel_chunk : ℕ
parallel_chunk = 4194304

-- What compression.rs calls of the zstd library: `bulk::compress`, `find_frame_compressed_size`,
-- `get_frame_content_size`, `bulk::decompress_to_buffer` (what it wrote into a buffer of the given
-- length) and `decode_all`.
pub record Zstd : Type 0 where
  pub bulk_compress : ℕ → List ℕ → Option (List ℕ)
  pub find_frame_compressed_size : List ℕ → Option ℕ
  pub get_frame_content_size : List ℕ → Option ℕ
  pub decompress_to_buffer : List ℕ → ℕ → Option (List ℕ)
  pub decode_all : List ℕ → Option (List ℕ)

-- What zstd documents of a frame that `bulk::compress` writes: its size is found from its front,
-- whatever follows it; its header carries the content size; and it decompresses to the content.
pub record ZstdLaws (z : Zstd) : Type 0 where
  pub frame_pos : (level : ℕ) (x f : List ℕ) → z.bulk_compress level x ≡ some f → 0 < length f
  pub frame_size :
      (level : ℕ) (x f rest : List ℕ)
      → z.bulk_compress level x ≡ some f
      → z.find_frame_compressed_size (f ++ rest) ≡ some (length f)
  pub content_size :
      (level : ℕ) (x f : List ℕ)
      → z.bulk_compress level x ≡ some f
      → z.get_frame_content_size f ≡ some (length x)
  pub content :
      (level : ℕ) (x f : List ℕ)
      → z.bulk_compress level x ≡ some f
      → z.decompress_to_buffer f (length x) ≡ some x

-- `map_err(Compression)`
abbrev or_compression {ℓ} : {A : Type ℓ} → Option A → Result A
or_compression none = err MoonclipError.compression
or_compression (some a) = ok a

module _ (z : Zstd) where
  open z use {
    bulk_compress, find_frame_compressed_size, get_frame_content_size, decompress_to_buffer,
    decode_all,
  }

  -- The frames of all chunks, one after the other, or the first failure.
  compress_chunks : ℕ → List (List ℕ) → Result (List ℕ)
  compress_chunks level [] = ok []
  compress_chunks level (chunk ∷ rest) = do
    frame ← or_compression (bulk_compress level chunk)
    frames ← compress_chunks level rest
    ok (frame ++ frames)

  unfoldable pub compress : List ℕ → CompressionAlgo → Result (List ℕ)
  unfolding compress_chunks
  compress bytes uncompressed = ok bytes
  compress bytes (zstd level) =
      if leb (length bytes) parallel_chunk
      then or_compression (bulk_compress level bytes)
      else compress_chunks level (chunks parallel_chunk bytes)

  -- One frame of the layout: its bytes and the length of its content. The offsets of the source are
  -- those of consecutive frames, so a frame is kept as its bytes.
  abbrev Frame : Type 0
  Frame = List ℕ × ℕ

  frame_at : List ℕ → Option Frame
  frame_at rest = elim (find_frame_compressed_size rest) [
    | none ↦ none
    | some csize ↦
        if (csize == 0) || ltb (length rest) csize
        then none
        else elim (get_frame_content_size (take csize rest)) [
          | none ↦ none
          | some dsize ↦ some (take csize rest, dsize)
        ]
  ]

  -- `fuel` bounds the number of frames; each takes a byte at least.
  frame_layout_within : ℕ → List ℕ → Option (List Frame)
  frame_layout_within fuel [] = some []
  frame_layout_within zero (b ∷ bs) = none
  frame_layout_within (suc fuel) (b ∷ bs) = elim (frame_at (b ∷ bs)) [
    | none ↦ none
    | some frame ↦ elim (frame_layout_within fuel (drop (length frame.0) (b ∷ bs))) [
      | none ↦ none
      | some frames ↦ some (frame ∷ frames)
    ]
  ]

  pub frame_layout : List ℕ → Option (List Frame)
  unfolding frame_layout_within frame_at
  frame_layout bytes = frame_layout_within (length bytes) bytes

  -- Every frame into its slice of the output; an empty slice is left alone.
  decompress_frames : List Frame → Result (List ℕ)
  decompress_frames [] = ok []
  decompress_frames (frame ∷ frames) =
      let rest = decompress_frames frames in
      if frame.1 == 0 then rest else do
        content ← or_compression (decompress_to_buffer frame.0 frame.1)
        if length content == frame.1
            then (do contents ← rest; ok (content ++ contents))
            else err MoonclipError.compression

  unfoldable pub decompress : List ℕ → CompressionAlgo → Result (List ℕ)
  unfolding frame_layout decompress_frames
  decompress bytes uncompressed = ok bytes
  decompress [] (zstd level) = ok []
  decompress (b ∷ bs) (zstd level) = elim (frame_layout (b ∷ bs)) [
    | none ↦ or_compression (decode_all (b ∷ bs))
    | some frames ↦ decompress_frames frames
  ]
