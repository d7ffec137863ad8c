-- ===== src/Merger/Layout.antt =====
-- Every tensor of a merged pack stands where its entry says, and loads as the bytes it was merged from.
use moonclip.Prelude.{
  ℕ, ◌+◌, ◌≤◌, ◌<◌, ◌^◌, ◌≡◌, refl, sym, ap, ◌∙◌, List, [], ◌∷◌, ◌++◌, append_assoc, false, inl,
  inr, Bool-cases, length, length-append, take, drop, take-append, drop-append, arith,
}
use moonclip.Prelude.Member.{Memᴰ}
use moonclip.Error.{Result, ok, ◌>>=◌, >>=-eq-ok}
use moonclip.Manifest.{CompressionAlgo, TensorEntry, Snapshot}
use moonclip.Storage.{StorageBackend, join_parts}
use moonclip.Compression.{ZstdLaws, compress}
use moonclip.Compression.RoundTrip.{decompress-compress}
use moonclip.ManifestIo.{ManifestJson}
use moonclip.Compression.Prefix.{Stream}
use moonclip.Cast.Convert.{FloatOps}
use moonclip.Pack.{encode_header, header_len}
use moonclip.Tensor.{Externals}
use moonclip.Tensor.Extract.{extract_whole}
use moonclip.Tensor.Load.{whole, load_full}
use moonclip.Merger.Read.{current_data}
use moonclip.Merger.Write.{
  MergedTensors, MergeExternals, is_alias, merged_entry, with_alias, with_blob, merge_tensors,
  pack_bytes,
}
use mathlib.Core.List.Memᴰ.{head, tail, not-nil, cases_cons}
use text.Mathlib.TextEquality.{eq_iff}

-- A merge and a load call the same zstd and the same hash.
abbrev pub as_externals : {D : Type 0} → Stream D → FloatOps → MergeExternals → Externals D
as_externals stream floats x = record {
  zstd = x.zstd;
  stream = stream;
  floats = floats;
  hash_hex = x.hash_hex;
}

module _ {S : Type 0} (b : StorageBackend S) (j : ManifestJson) (x : MergeExternals)
    (algo : CompressionAlgo) (source_snap base_snap : Snapshot) (rank : ℕ) (s : S) where
  -- An entry of a merged rank: the entry it came from, the bytes that one stood for, and their blob,
  -- which is at the entry's offset in `pack`.
  abbrev pub StandsAt : List ℕ → List TensorEntry → TensorEntry → Type 0
  StandsAt pack sources t =
      (entry : TensorEntry) × (raw : List ℕ) × (compressed : List ℕ) × Memᴰ entry sources
      × (current_data b x.zstd s entry source_snap base_snap rank algo ≡ ok raw)
      × (compress x.zstd raw algo ≡ ok compressed)
      × (t ≡ merged_entry b j x algo entry raw compressed t.offset)
      × (take (length compressed) (drop t.offset pack) ≡ compressed)
      × (t.offset + length compressed ≤ length pack)

  blob_here :
      (front compressed back : List ℕ)
      → take (length compressed) (drop (length front) (front ++ (compressed ++ back))) ≡ compressed
  blob_here front compressed back =
      rw (drop-append front (compressed ++ back)) (take-append compressed back)

  StandsAt-tail :
      (entry : TensorEntry) (sources : List TensorEntry) (t : TensorEntry) (pack : List ℕ)
      → StandsAt pack sources t
      → StandsAt pack (entry ∷ sources) t
  StandsAt-tail entry sources t pack (source, raw, compressed, i, hd, hc, ht, hp, hl) =
      (source, raw, compressed, tail i, hd, hc, ht, hp, hl)

  StandsAt-here :
      (entry : TensorEntry) (sources : List TensorEntry) (front raw compressed back : List ℕ)
      (t : TensorEntry)
      → current_data b x.zstd s entry source_snap base_snap rank algo ≡ ok raw
      → compress x.zstd raw algo ≡ ok compressed
      → t ≡ merged_entry b j x algo entry raw compressed (length front)
      → StandsAt (front ++ (compressed ++ back)) (entry ∷ sources) t
  StandsAt-here entry sources front raw compressed back t hd hc ht =
      let at_front : t.offset ≡ length front = ap (λ u. u.offset) ht in
      (
        entry,
        raw,
        compressed,
        head refl,
        hd,
        hc,
        ht ∙ ap (merged_entry b j x algo entry raw compressed) (sym at_front),
        rw at_front (blob_here front compressed back),
        omega (
          arith,
          at_front,
          length-append front (compressed ++ back),
          length-append compressed back,
        ),
      )

  -- The steps of one tensor that is no alias.
  stored_parts :
      (entry : TensorEntry) (sources : List TensorEntry) (offset : ℕ) (m : MergedTensors)
      → is_alias entry ≡ false
      → merge_tensors b j x algo offset (entry ∷ sources) source_snap base_snap rank s ≡ ok m
      → (raw : List ℕ) × (compressed : List ℕ) × (others : MergedTensors) × (current_data b x.zstd s
            entry source_snap base_snap rank algo
          ≡ ok raw)
        × (compress x.zstd raw algo ≡ ok compressed)
        × (merge_tensors b j x algo
              (offset + length compressed)
              sources
              source_snap
              base_snap
              rank
              s
            ≡ ok others)
        × (with_blob b j x algo
              (merged_entry b j x algo entry raw compressed offset)
              raw
              compressed
              others
            ≡ m)
  unfolding merge_tensors
  stored_parts entry sources offset m own h =
      let step : (do
        raw ← current_data b x.zstd s entry source_snap base_snap rank algo
        compressed ← compress x.zstd raw algo
        others ←
            merge_tensors b j x algo (offset + length compressed) sources source_snap base_snap rank
              s
        ok (
            with_blob b j x algo (merged_entry b j x algo entry raw compressed offset) raw
              compressed others))
          ≡ ok m =
        rw (merge_tensors, own) at h in
      let (raw, hd, h1) =
        >>=-eq-ok (current_data b x.zstd s entry source_snap base_snap rank algo) _ step in
      let (compressed, hc, h2) = >>=-eq-ok (compress x.zstd raw algo) _ h1 in
      let (others, ho, h3) =
        >>=-eq-ok
          (merge_tensors b j x algo (offset + length compressed) sources source_snap base_snap rank
            s)
          _ h2 in
      (raw, compressed, others, hd, hc, ho, cc h3)

  merge_tensors-StandsAt :
      (sources : List TensorEntry) (front : List ℕ) (back : List (List ℕ)) (m : MergedTensors)
      → merge_tensors b j x algo (length front) sources source_snap base_snap rank s ≡ ok m
      → (t : TensorEntry) → Memᴰ t m.tensors
      → is_alias t ≡ false
      → StandsAt (front ++ join_parts (m.blobs ++ back)) sources t
  unfolding merge_tensors join_parts
  merge_tensors-StandsAt [] front back m h t i stored =
      let none_there : [] ≡ m.tensors =
        ap (λ (r : Result MergedTensors). elim r [ ok n ↦ n.tensors | _ ↦ [] ]) h in
      absurd (not-nil (rw (← none_there) at i))
  merge_tensors-StandsAt (entry ∷ sources) front back m h t i stored =
      elim (Bool-cases (is_alias entry)) [
        | inl other_name ↦
            let (others, ho, hm) =
              >>=-eq-ok
                (merge_tensors b j x algo (length front) sources source_snap base_snap rank s)
                (λ others. ok (with_alias b j x algo entry others))
                (rw (merge_tensors, other_name) at h) in
            let same : with_alias b j x algo entry others ≡ m = cc hm in
            elim (cases_cons (rw (← same) at i)) [
              | inl e ↦ absurd cc (ap is_alias e, other_name, stored)
              | inr k ↦ rw (← same) (
                  StandsAt-tail entry sources t _
                    (merge_tensors-StandsAt sources front back others ho t k stored))
            ]
        | inr own ↦
            let (raw, compressed, others, hd, hc, ho, same) =
              stored_parts entry sources (length front) m own h in
            elim (cases_cons (rw (← same) at i)) [
              | inl e ↦ rw (← same) (
                  StandsAt-here entry sources front raw compressed
                    (join_parts (others.blobs ++ back)) t hd hc e)
              | inr k ↦
                  let further : merge_tensors b j x algo (length (front ++ compressed)) sources
                        source_snap base_snap rank s
                      ≡ ok others =
                    rw (length-append front compressed) ho in
                  rw (← same) (
                    StandsAt-tail entry sources t _ (
                      rw (append_assoc front compressed (join_parts (others.blobs ++ back))) at (
                        merge_tensors-StandsAt sources (front ++ compressed) back others further t k
                          stored)))
            ]
      ]

  -- A merged entry whose blob stands at its offset loads as the bytes that were compressed.
  loads_blob :
      {D : Type 0} (stream : Stream D) (floats : FloatOps) (t : S) (laws : ZstdLaws x.zstd)
      (entry : TensorEntry) (raw compressed pack : List ℕ) (offset : ℕ)
      → compress x.zstd raw algo ≡ ok compressed
      → take (length compressed) (drop offset pack) ≡ compressed
      → offset + length compressed ≤ length pack
      → length pack < 2 ^ 64
      → load_full b
          (as_externals stream floats x)
          t
          (merged_entry b j x algo entry raw compressed offset)
          algo
          (whole pack)
        ≡ ok raw
  unfolding load_full
  loads_blob stream floats t laws entry raw compressed pack offset hc hp hl small =
      rw
        (
          extract_whole b (as_externals stream floats x) t
              (merged_entry b j x algo entry raw compressed offset) pack small hl,
          hp,
          (eq_iff (x.hash_hex compressed) (x.hash_hex compressed)).1 refl,
        )
        (decompress-compress x.zstd laws raw compressed algo hc)

  -- Every tensor of a merged rank that is no alias loads from the rank's pack, and what it loads as are
  -- the bytes that the merge read of a tensor of the newest delta.
  pub load_full-merge_tensors :
      {D : Type 0} (stream : Stream D) (floats : FloatOps) (u : S) (laws : ZstdLaws x.zstd)
      (sources : List TensorEntry) (m : MergedTensors) (encoded : List ℕ) (t : TensorEntry)
      → merge_tensors b j x algo header_len sources source_snap base_snap rank s ≡ ok m
      → Memᴰ t m.tensors
      → is_alias t ≡ false
      → length (pack_bytes b j x algo m encoded) < 2 ^ 64
      → (entry : TensorEntry) × (raw : List ℕ) × Memᴰ entry sources
        × (t.name ≡ entry.name)
        × (current_data b x.zstd s entry source_snap base_snap rank algo ≡ ok raw)
        × (load_full b
              (as_externals stream floats x)
              u
              t
              algo
              (whole (pack_bytes b j x algo m encoded))
            ≡ ok raw)
  unfolding join_parts encode_header
  load_full-merge_tensors stream floats u laws sources m encoded t h i stored small =
      let (entry, raw, compressed, source, hd, hc, ht, hp, hl) =
        merge_tensors-StandsAt sources (encode_header m.blobs_end (length encoded)) (encoded ∷ []) m
          h t i stored in
      (
        entry,
        raw,
        source,
        ap (λ e. e.name) ht,
        hd,
        ap
              (λ e.
                load_full b (as_externals stream floats x) u e algo
                  (whole (pack_bytes b j x algo m encoded)))
              ht
            ∙ loads_blob stream floats u laws entry raw compressed (pack_bytes b j x algo m encoded)
                t.offset hc hp hl small,
      )
