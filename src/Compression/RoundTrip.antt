-- ===== src/Compression/RoundTrip.antt =====
-- What `compress` wrote, `decompress` reads, in one frame or in many.
use moonclip.Prelude.{
  ℕ, zero, suc, ◌≤◌, ◌≡◌, refl, ap, ◌∙◌, List, [], ◌∷◌, ◌++◌, append-nil, Option, none, some, leb,
  length, length-append, take-append, drop-append, inl, inr, Bool-cases, ==_refl, ==_zero_pos,
  arith,
}
use moonclip.Prelude.Tabulate.{concat}
use moonclip.Prelude.Chunks.{chunks, concat-chunks}
use moonclip.Error.{ok, >>=-eq-ok}
use moonclip.Manifest.{CompressionAlgo, uncompressed, zstd}
use moonclip.Compression.{
  Zstd, ZstdLaws, parallel_chunk, or_compression, compress_chunks, compress, frame_at,
  frame_layout_within, frame_layout, decompress_frames, decompress,
}

or_compression-eq-ok : {A : Type 0} (o : Option A) {a : A} → or_compression o ≡ ok a → o ≡ some a
or_compression-eq-ok none h = cc
or_compression-eq-ok (some a) h = cc

module _ (z : Zstd) (laws : ZstdLaws z) (level : ℕ) where
  -- A frame that `bulk_compress` wrote is found at the front of whatever follows it.
  frame_at_lem :
      (x f rest : List ℕ)
      → z.bulk_compress level x ≡ some f
      → frame_at z (f ++ rest) ≡ some (f, length x)
  unfolding frame_at
  frame_at_lem x f rest h = ground (
    arith,
    laws.frame_size level x f rest h,
    laws.frame_pos level x f h,
    length-append f rest,
    take-append f rest,
    laws.content_size level x f h,
  )

  decompress_frames_step :
      (x f : List ℕ) (frames : List (List ℕ × ℕ)) (rest : List ℕ)
      → z.bulk_compress level x ≡ some f
      → decompress_frames z frames ≡ ok rest
      → decompress_frames z ((f, length x) ∷ frames) ≡ ok (x ++ rest)
  unfolding decompress_frames
  decompress_frames_step [] f frames rest h e = rw e
  decompress_frames_step (b ∷ x) f frames rest h e = rw (
    ==_zero_pos (suc (length x)) (omega arith),
    laws.content level (b ∷ x) f h,
    ==_refl (suc (length x)),
    e,
  )

  layout_step :
      (fuel : ℕ) (x f rest : List ℕ) (frames : List (List ℕ × ℕ))
      → z.bulk_compress level x ≡ some f
      → frame_layout_within z fuel rest ≡ some frames
      → frame_layout_within z (suc fuel) (f ++ rest) ≡ some ((f, length x) ∷ frames)
  layout_step fuel x [] rest frames h e = absurd (omega (arith, laws.frame_pos level x [] h))
  layout_step fuel x (b ∷ f) rest frames h e =
      unfold frame_layout_within in
      ground (arith, frame_at_lem x (b ∷ f) rest h, drop-append (b ∷ f) rest, e)

  -- A layout, within some number of rounds, that decompresses to `x`.
  abbrev ReadsAs : ℕ → List ℕ → List ℕ → Type 0
  ReadsAs fuel c x =
      (frames : List (List ℕ × ℕ)) × (frame_layout_within z fuel c ≡ some frames)
      × (decompress_frames z frames ≡ ok x)

  ReadsAs-append :
      (fuel : ℕ) (x f c rest xs : List ℕ)
      → z.bulk_compress level x ≡ some f
      → f ++ rest ≡ c
      → length c ≤ fuel
      → ((n : ℕ) → length rest ≤ n → ReadsAs n rest xs)
      → ReadsAs fuel c (x ++ xs)
  ReadsAs-append zero x f c rest xs h e hc back = absurd (
      omega
        (arith, laws.frame_pos level x f h, length-append f rest, ap (λ (t : List ℕ). length t) e))
  ReadsAs-append (suc fuel) x f c rest xs h e hc back =
      let (frames, layout, content) = back fuel (
        omega (
          arith,
          laws.frame_pos level x f h,
          length-append f rest,
          ap (λ (t : List ℕ). length t) e,
        )) in
      (
        (f, length x) ∷ frames,
        rw (← e) (layout_step fuel x f rest frames h layout),
        decompress_frames_step x f frames xs h content,
      )

  ReadsAs-nil : (fuel : ℕ) → ReadsAs fuel [] []
  unfolding frame_layout_within decompress_frames
  ReadsAs-nil fuel = ([], refl, refl)

  -- All frames of a compressed list of chunks, and what they decompress to.
  chunks_back :
      (cs : List (List ℕ)) (c : List ℕ) (fuel : ℕ)
      → compress_chunks z level cs ≡ ok c
      → length c ≤ fuel
      → ReadsAs fuel c (concat cs)
  unfolding compress_chunks
  chunks_back [] c fuel h hf = let nil : [] ≡ c = cc in rw (← nil) (ReadsAs-nil fuel)
  chunks_back (x ∷ cs) c fuel h hf =
      let (f, hf', h') = >>=-eq-ok (or_compression (z.bulk_compress level x)) _ h in
      let (rest, hr, hc) = >>=-eq-ok (compress_chunks z level cs) _ h' in
      ReadsAs-append fuel x f c rest (concat cs) (or_compression-eq-ok _ hf') (cc hc) hf
        (λ n hn. chunks_back cs rest n hr hn)

  one_back :
      (x c : List ℕ) → or_compression (z.bulk_compress level x) ≡ ok c → ReadsAs (length c) c x
  one_back x c h = rw (append-nil x) at (
      ReadsAs-append (length c) x c c [] [] (or_compression-eq-ok _ h) (append-nil c) (omega arith)
        (λ n _. ReadsAs-nil n))

  decompress_back : (c x : List ℕ) → ReadsAs (length c) c x → decompress z c (zstd level) ≡ ok x
  unfolding decompress frame_layout
  decompress_back [] x (frames, layout, content) =
      let none_read : [] ≡ frames = cc in ap (decompress_frames z) none_read ∙ content
  decompress_back (b ∷ bs) x (frames, layout, content) = rw (layout, decompress) content

  compress_back :
      (bytes c : List ℕ) → compress z bytes (zstd level) ≡ ok c → ReadsAs (length c) c bytes
  unfolding compress
  compress_back bytes c h = elim (Bool-cases (leb (length bytes) parallel_chunk)) [
    | inl small ↦ one_back bytes c (rw small at h)
    | inr large ↦
        rw (concat-chunks parallel_chunk bytes (omega arith)) at
          (chunks_back (chunks parallel_chunk bytes) c (length c) (rw large at h) (omega arith))
  ]

-- With any algorithm, what `compress` produced decompresses to the bytes it was given, whether they
-- fitted one frame or were cut into many.
pub decompress-compress :
    (z : Zstd) (laws : ZstdLaws z) (bytes c : List ℕ) (algo : CompressionAlgo)
    → compress z bytes algo ≡ ok c
    → decompress z c algo ≡ ok bytes
decompress-compress z laws bytes c uncompressed h = unfold compress decompress in cc h
decompress-compress z laws bytes c (zstd level) h =
    decompress_back z laws level c bytes (compress_back z laws level bytes c h)
