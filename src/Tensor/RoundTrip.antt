-- ===== src/Tensor/RoundTrip.antt =====
-- A tensor that was processed loads as it was stored.
use moonclip.Prelude.{
  ℕ, ◌≡◌, refl, sym, ap, ◌∙◌, List, Bool, false, ltb, Option, none, some, if◌then◌else◌, ◌⊎◌, inl,
  inr, Bool-cases, arith,
}
use moonclip.Prelude.Assoc.{lookup}
use moonclip.Error.{MoonclipError, Result, ok, err}
use moonclip.Manifest.{Uuid, CompressionAlgo, TensorEntry}
use moonclip.Storage.{StorageBackend}
use moonclip.Compression.{ZstdLaws, compress}
use moonclip.Compression.RoundTrip.{decompress-compress}
use moonclip.Cast.Policy.{DTypePolicy, for_tensor, unchanged, is_castable_float}
use moonclip.Cast.Convert.{Stored, uncast_tensor}
use moonclip.Shuffle.{unshuffle, element_size}
use moonclip.Shuffle.RoundTrip.{unshuffle-shuffle}
use moonclip.Delta.{compute_delta}
use moonclip.Delta.RoundTrip.{apply_delta-compute_delta}
use moonclip.Tensor.{
  TensorData, ProcessedTensor, BaseCache, Externals, base_bytes, working_of, full_entry,
  skipped_entry, in_planes, delta_entry, process_tensor,
}
use moonclip.Tensor.Outcome.{
  Outcome, stored_whole, same_as_base, delta_on_base, process_tensor-Outcome,
}
use moonclip.Tensor.Load.{
  PackSource, BaseEntry, extract_compressed, load_full, load_delta, load_on_base, load_base,
  load_tensor_raw, load_tensor,
}
use Prim.Native.String.{String}
use text.Mathlib.Text.{◌==◌ as str_eq}
use text.Mathlib.TextEquality.{eq_iff}

-- The base that a tensor was compared with is the one that the load finds: the tensor of that name
-- loads from it, to bytes of the hash in its entry, which are those that the comparison read, and
-- another content would have another hash.
pub record BaseAgrees {S D : Type 0} (b : StorageBackend S) (x : Externals D)
    (find_base_entry : Uuid → String → Result BaseEntry) (s t : S) (name : String)
    (working : List ℕ) (cache : BaseCache) (base_entry : TensorEntry) (base_id : Uuid)
    : Type 0 where
  pub content : List ℕ
  pub loads : load_base b x t find_base_entry base_id name ≡ ok content
  pub has_hash : x.hash_hex content ≡ base_entry.hash_raw
  pub was_read :
      (bytes : List ℕ) → base_bytes b x cache base_entry s ≡ ok (some bytes) → bytes ≡ content
  pub no_collision : x.hash_hex content ≡ x.hash_hex working → content ≡ working

-- The entry as the coordinator completes it, once the tensor has its place in the pack.
abbrev pub placed : TensorEntry → Option String → ℕ → TensorEntry
placed entry filename offset = record entry { filename = filename; offset = offset }

-- What the entry of a tensor restores of its working bytes.
abbrev pub restored : {D : Type 0} → Externals D → TensorData → Stored → Result (List ℕ)
restored x tensor (bytes, dtype, scale) =
    if str_eq dtype tensor.dtype
    then ok bytes
    else uncast_tensor x.floats bytes dtype tensor.dtype scale

module _ {S D : Type 0} (b : StorageBackend S) (x : Externals D) (zstd_laws : ZstdLaws x.zstd)
    (algo : CompressionAlgo) (tensor : TensorData) (t : S) (filename : Option String) (offset : ℕ)
    (pack : PackSource) where
  full_loads :
      (working : Stored) (compressed : List ℕ) (base : Result (List ℕ))
      → compress x.zstd working.0 algo ≡ ok compressed
      → extract_compressed b x t
          (placed (full_entry b x tensor working compressed).entry filename offset)
          pack
        ≡ ok compressed
      → load_on_base b x t
          (placed (full_entry b x tensor working compressed).entry filename offset)
          algo
          pack
          base
        ≡ ok working.0
  unfolding load_on_base load_full
  full_loads working compressed base hc he =
      rw (he, (eq_iff (x.hash_hex compressed) (x.hash_hex compressed)).1 refl)
        (decompress-compress x.zstd zstd_laws working.0 compressed algo hc)

  -- The planes are put back in order, or were never taken apart.
  planes_back :
      (itemsize : ℕ) (xor : List ℕ)
      → (if ltb 1 itemsize
          then unshuffle (in_planes b x itemsize xor) itemsize
          else in_planes b x itemsize xor)
        ≡ xor
  planes_back itemsize xor = elim (Bool-cases (ltb 1 itemsize)) [
    | inl wide ↦ rw wide (unshuffle-shuffle xor itemsize)
    | inr narrow ↦ rw narrow
  ]

  delta_loads :
      (working : Stored) (base_raw xor compressed : List ℕ) (base : Result (List ℕ))
      → compute_delta base_raw working.0 ≡ ok (some xor)
      → compress x.zstd (in_planes b x (element_size working.1) xor) algo ≡ ok compressed
      → base ≡ ok base_raw
      → extract_compressed b x t
          (placed (delta_entry b x tensor working compressed).entry filename offset)
          pack
        ≡ ok compressed
      → load_on_base b x t
          (placed (delta_entry b x tensor working compressed).entry filename offset)
          algo
          pack
          base
        ≡ ok working.0
  unfolding load_on_base load_delta
  delta_loads working base_raw xor compressed base hx hc hb he = rw (
    he,
    decompress-compress x.zstd zstd_laws (in_planes b x (element_size working.1) xor) compressed
        algo hc,
    hb,
    planes_back (element_size working.1) xor,
    apply_delta-compute_delta base_raw working.0 xor hx,
    (eq_iff (x.hash_hex working.0) (x.hash_hex working.0)).1 refl,
  )

  module _ (find_base_entry : Uuid → String → Result BaseEntry) (snap_base_id : Option Uuid) where
    skipped_loads :
        (working : Stored) (base : Result (List ℕ))
        → base ≡ ok working.0
        → load_on_base b x t
            (placed (skipped_entry b x tensor working).entry filename offset)
            algo
            pack
            base
          ≡ ok working.0
    unfolding load_on_base skipped_entry
    skipped_loads working base h = h

    skipped_name : (working : Stored) → (skipped_entry b x tensor working).entry.name ≡ tensor.name
    unfolding skipped_entry
    skipped_name working = refl

    -- What the base holds under the name of the entry.
    on_base :
        (base_id : Uuid) (name : String) (content : List ℕ)
        → snap_base_id ≡ some base_id
        → name ≡ tensor.name
        → load_base b x t find_base_entry base_id tensor.name ≡ ok content
        → (elim snap_base_id [
          | none ↦ err MoonclipError.delta
          | some base_id ↦ load_base b x t find_base_entry base_id name
        ])
          ≡ ok content
    on_base base_id name content is same loads = rw (is, same) loads

    Outcome-loads :
        (s : S) (base_cache : Option BaseCache) (working : Stored) (p : ProcessedTensor)
        → ((cache : BaseCache) (base_entry : TensorEntry)
            → base_cache ≡ some cache
            → lookup tensor.name cache.entries ≡ some base_entry
            → (base_id : Uuid) × (snap_base_id ≡ some base_id)
              × BaseAgrees b x find_base_entry s t tensor.name working.0 cache base_entry base_id)
        → ((compressed : List ℕ)
            → p.write_data ≡ some compressed
            → extract_compressed b x t (placed p.entry filename offset) pack ≡ ok compressed)
        → (wins : ℕ → ℕ → Bool) → Outcome b x algo wins tensor s base_cache working p
        → load_tensor_raw b x t find_base_entry
            (placed p.entry filename offset)
            snap_base_id
            algo
            pack
          ≡ ok working.0
    unfolding load_tensor_raw
    Outcome-loads s base_cache working p agrees stored wins (stored_whole compressed hc hp) =
        rw hp (
          full_loads working compressed _ hc
            (rw hp at (stored compressed (ap (λ q. q.write_data) hp))))
    Outcome-loads s base_cache working p agrees stored wins
          (same_as_base cache base_entry has found same hp) =
        let (base_id, is, agree) = agrees cache base_entry has found in
        rw hp (
          skipped_loads working _ (
            on_base base_id p.entry.name agree.content is
              (ap (λ q. q.entry.name) hp ∙ skipped_name working) agree.loads
            ∙ ap ok (agree.no_collision (agree.has_hash ∙ (eq_iff _ _).0 same))))
    Outcome-loads s base_cache working p agrees stored wins
          (delta_on_base cache base_entry base_raw xor compressed has found hb hx hc hp) =
        let (base_id, is, agree) = agrees cache base_entry has found in
        rw hp (
          delta_loads working base_raw xor compressed _ hx hc
            (on_base base_id p.entry.name agree.content is (ap (λ q. q.entry.name) hp) agree.loads
              ∙ ap ok (sym (agree.was_read base_raw hb)))
            (rw hp at (stored compressed (ap (λ q. q.write_data) hp))))

  -- What the entry says of the cast, whichever way the tensor was stored.
  abbrev CastAs : Stored → TensorEntry → Type 0
  CastAs working entry =
      (entry.dtype ≡ working.1)
      × (entry.original_dtype ≡ (if str_eq working.1 tensor.dtype then none else some tensor.dtype))
      × (entry.quant_scale ≡ working.2)

  Outcome-CastAs :
      (wins : ℕ → ℕ → Bool) (s : S) (base_cache : Option BaseCache) (working : Stored)
      (p : ProcessedTensor)
      → Outcome b x algo wins tensor s base_cache working p
      → CastAs working p.entry
  unfolding skipped_entry
  Outcome-CastAs wins s base_cache working p (stored_whole compressed hc hp) =
      rw hp (refl, refl, refl)
  Outcome-CastAs wins s base_cache working p (same_as_base cache base_entry has found same hp) =
      rw hp (refl, refl, refl)
  Outcome-CastAs wins s base_cache working p
        (delta_on_base cache base_entry base_raw xor compressed has found hb hx hc hp) =
      rw hp (refl, refl, refl)

  uncast :
      (find_base_entry : Uuid → String → Result BaseEntry) (snap_base_id : Option Uuid)
      (working : Stored) (entry : TensorEntry)
      → CastAs working entry
      → load_tensor_raw b x t find_base_entry entry snap_base_id algo pack ≡ ok working.0
      → load_tensor b x t find_base_entry entry snap_base_id algo pack ≡ restored x tensor working
  unfolding load_tensor
  uncast find_base_entry snap_base_id working entry (hd, ho, hs) h =
      elim (Bool-cases (str_eq working.1 tensor.dtype)) [
        | inl same ↦ rw (h, ho, same) refl
        | inr other ↦ rw (h, ho, other, hd, hs, flipped other) refl
      ]
    where
      flipped : str_eq working.1 tensor.dtype ≡ false → str_eq tensor.dtype working.1 ≡ false
      flipped other = ground (arith, eq_iff working.1 tensor.dtype, eq_iff tensor.dtype working.1)

-- A tensor that was saved, on its own, as a delta or not at all, and whose stored bytes are found at
-- its place, loads as what its cast to the dtype of the snapshot and back gives, when its base is the
-- one it was compared with.
pub load_tensor-process_tensor :
    {S D : Type 0} (b : StorageBackend S) (x : Externals D) (zstd_laws : ZstdLaws x.zstd)
    (algo : CompressionAlgo) (wins : ℕ → ℕ → Bool) (tensor : TensorData)
    (base_cache : Option BaseCache) (policy : DTypePolicy) (s t : S) (p : ProcessedTensor)
    (working : Stored) (filename : Option String) (offset : ℕ) (pack : PackSource)
    (find_base_entry : Uuid → String → Result BaseEntry) (snap_base_id : Option Uuid)
    → process_tensor b x algo wins tensor base_cache policy s ≡ ok p
    → working_of b x tensor policy ≡ ok working
    → ((cache : BaseCache) (base_entry : TensorEntry)
        → base_cache ≡ some cache
        → lookup tensor.name cache.entries ≡ some base_entry
        → (base_id : Uuid) × (snap_base_id ≡ some base_id)
          × BaseAgrees b x find_base_entry s t tensor.name working.0 cache base_entry base_id)
    → ((compressed : List ℕ)
        → p.write_data ≡ some compressed
        → extract_compressed b x t (placed p.entry filename offset) pack ≡ ok compressed)
    → load_tensor b x t find_base_entry (placed p.entry filename offset) snap_base_id algo pack
      ≡ restored x tensor working
load_tensor-process_tensor b x zstd_laws algo wins tensor base_cache policy s t p working filename
      offset pack find_base_entry snap_base_id hp hw agrees stored =
    let (working', hw', outcome) =
      process_tensor-Outcome b x algo wins tensor s base_cache policy p hp in
    let same : working' ≡ working = cc (hw, hw') in
    let outcome : Outcome b x algo wins tensor s base_cache working p = rw same at outcome in
    uncast b x zstd_laws algo tensor t filename offset pack find_base_entry snap_base_id working
      (placed p.entry filename offset)
      (Outcome-CastAs b x zstd_laws algo tensor t filename offset pack wins s base_cache working p
        outcome)
      (Outcome-loads b x zstd_laws algo tensor t filename offset pack find_base_entry snap_base_id s
        base_cache working p agrees stored wins outcome)

working_unchanged :
    {S D : Type 0} (b : StorageBackend S) (x : Externals D) (tensor : TensorData)
    (policy : DTypePolicy)
    → (for_tensor policy tensor.name ≡ unchanged) ⊎ (is_castable_float tensor.dtype ≡ false)
    → working_of b x tensor policy ≡ ok (tensor.bytes, tensor.dtype, none)
unfolding working_of
working_unchanged b x tensor policy (inl left_alone) = rw left_alone
working_unchanged b x tensor policy (inr other) = ground (arith, other)

-- A tensor that was saved under a dtype that the policy leaves alone loads as exactly the bytes that
-- were saved, on its own, as a delta or not at all. That is so where its stored bytes, if it has any,
-- are found at its place, and its base, if it had one, is the snapshot's: the tensor of its name loads
-- from it to the bytes it was compared with, which have the hash in its entry, a hash that the
-- tensor's bytes do not have unless they are those bytes.
pub load_tensor-process_tensor_exact :
    {S D : Type 0} (b : StorageBackend S) (x : Externals D) (zstd_laws : ZstdLaws x.zstd)
    (algo : CompressionAlgo) (wins : ℕ → ℕ → Bool) (tensor : TensorData)
    (base_cache : Option BaseCache) (policy : DTypePolicy) (s t : S) (p : ProcessedTensor)
    (filename : Option String) (offset : ℕ) (pack : PackSource)
    (find_base_entry : Uuid → String → Result BaseEntry) (snap_base_id : Option Uuid)
    → process_tensor b x algo wins tensor base_cache policy s ≡ ok p
    → (for_tensor policy tensor.name ≡ unchanged) ⊎ (is_castable_float tensor.dtype ≡ false)
    → ((cache : BaseCache) (base_entry : TensorEntry)
        → base_cache ≡ some cache
        → lookup tensor.name cache.entries ≡ some base_entry
        → (base_id : Uuid) × (snap_base_id ≡ some base_id)
          × BaseAgrees b x find_base_entry s t tensor.name tensor.bytes cache base_entry base_id)
    → ((compressed : List ℕ)
        → p.write_data ≡ some compressed
        → extract_compressed b x t (placed p.entry filename offset) pack ≡ ok compressed)
    → load_tensor b x t find_base_entry (placed p.entry filename offset) snap_base_id algo pack
      ≡ ok tensor.bytes
load_tensor-process_tensor_exact b x zstd_laws algo wins tensor base_cache policy s t p filename
      offset pack find_base_entry snap_base_id hp hu agrees stored =
    load_tensor-process_tensor b x zstd_laws algo wins tensor base_cache policy s t p
      (tensor.bytes, tensor.dtype, none) filename offset pack find_base_entry snap_base_id hp
      (working_unchanged b x tensor policy hu) agrees stored
    ∙ rw ((eq_iff tensor.dtype tensor.dtype).1 refl) refl
