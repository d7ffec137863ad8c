-- ===== src/Merger/Resolve.antt =====
-- The base's tensors are found by a full merge where a load finds them.
use moonclip.Prelude.{
  ℕ, zero, suc, ◌≡◌, ◌≢◌, refl, sym, ap, ◌∙◌, List, Option, none, some, if◌then◌else◌, ◌⊎◌, inl,
  inr, Option-cases, arith,
}
use moonclip.Prelude.Member.{Memᴰ, find_In}
use moonclip.Prelude.Search.{find}
use moonclip.Error.{MoonclipError, Result, ok, err, ◌>>=◌, >>=-eq-ok}
use moonclip.Error.MoonclipError.{not_found}
use moonclip.Manifest.{
  Uuid, CompressionAlgo, TensorStorage, TensorEntry, RankEntry, Snapshot, full, delta_xor, skipped,
  alias,
}
use moonclip.Storage.{StorageBackend, FilePath}
use moonclip.Compression.{decompress}
use moonclip.Shuffle.{unshuffle, element_size}
use moonclip.Delta.{apply_delta}
use moonclip.Tensor.{Externals}
use moonclip.Tensor.Load.{
  PackSource, BaseEntry, ranged, extract_compressed, load_full, load_delta, load_on_base,
  resolve_within, resolve_base_entry, load_base,
}
use moonclip.Merger.{rank_of}
use moonclip.Merger.Read.{load_compressed_data, load_tensor_data, base_within, base_tensor_data}
use Prim.Native.String.{String}
use text.Mathlib.Text.{◌==◌ as str_eq}

-- A rank of a snapshot with a pack, none of whose tensors has a file of its own.
pub record IsPacked (snap : Snapshot) (rank : ℕ) : Type 0 where
  pub entry : RankEntry
  pub is_rank : rank_of rank snap ≡ some entry
  pub path : FilePath
  pub has_pack : entry.pack_file ≡ some path
  pub no_files : (t : TensorEntry) → Memᴰ t entry.tensors → t.filename ≡ none

-- The base's tensors, as a load that reads spans of its pack finds them.
abbrev pub find_in_rank :
    {snap : Snapshot} {rank : ℕ}
    → IsPacked snap rank
    → CompressionAlgo
    → Uuid
    → String
    → Result BaseEntry
find_in_rank packed algo base_id name = elim (find (λ t. str_eq t.name name) packed.entry.tensors) [
  | none ↦ err (not_found name)
  | some t ↦ ok (t, algo, ranged packed.path)
]

module _ {S D : Type 0} (b : StorageBackend S) (x : Externals D) (s : S) (algo : CompressionAlgo)
    (rank : ℕ) where
  pub same_compressed :
      (snap : Snapshot) (packed : IsPacked snap rank) (t : TensorEntry) (compressed : List ℕ)
      → t.filename ≡ none
      → extract_compressed b x s t (ranged packed.path) ≡ ok compressed
      → load_compressed_data b x.zstd s t snap rank ≡ ok compressed
  unfolding extract_compressed load_compressed_data
  same_compressed snap packed t compressed no_file h =
      let (bytes, got, h1) = >>=-eq-ok (b.get_range packed.path t.offset t.compressed_size s) _ h in
      rw (load_compressed_data, no_file, packed.is_rank, packed.has_pack, got) (ground (arith, h1))

  -- A load that succeeds decompressed what it read, whether it checked the hash or not.
  pub load_full_parts :
      (t : TensorEntry) (pack : PackSource) (raw : List ℕ)
      → load_full b x s t algo pack ≡ ok raw
      → (compressed : List ℕ) × (extract_compressed b x s t pack ≡ ok compressed)
        × (decompress x.zstd compressed algo ≡ ok raw)
  unfolding load_full
  load_full_parts t pack raw h =
      let (compressed, got, h1) = >>=-eq-ok (extract_compressed b x s t pack) _ h in
      (compressed, got, checked t.hash_compressed compressed h1)
    where
      checked :
          (expected : Option String) (compressed : List ℕ)
          → (elim expected as (λ _. Result (List ℕ)) [
            | none ↦ decompress x.zstd compressed algo
            | some hash ↦
                if str_eq (x.hash_hex compressed) hash
                then decompress x.zstd compressed algo
                else err (MoonclipError.integrity_error hash (x.hash_hex compressed))
          ])
            ≡ ok raw
          → decompress x.zstd compressed algo ≡ ok raw
      checked none compressed e = e
      checked (some hash) compressed e = ground (arith, e)

  open_full :
      (snap : Snapshot) (t : TensorEntry)
      → t.storage ≡ full
      → load_tensor_data b x.zstd s t snap rank algo ≡ (
          load_compressed_data b x.zstd s t snap rank >>= λ compressed.
          decompress x.zstd compressed algo)
  unfolding load_tensor_data
  open_full snap t is = ap by_storage is
    where
      by_storage : TensorStorage → Result (List ℕ)
      by_storage storage = elim storage [
        | full ↦ load_compressed_data b x.zstd s t snap rank >>= λ compressed.
            decompress x.zstd compressed algo
        | _ ↦ err MoonclipError.delta
      ]

  pub same_full :
      (snap : Snapshot) (packed : IsPacked snap rank) (t : TensorEntry) (raw : List ℕ)
      → t.filename ≡ none
      → t.storage ≡ full
      → load_full b x s t algo (ranged packed.path) ≡ ok raw
      → load_tensor_data b x.zstd s t snap rank algo ≡ ok raw
  same_full snap packed t raw no_file is h =
      let (compressed, got, content) = load_full_parts t (ranged packed.path) raw h in
      open_full snap t is ∙ rw (same_compressed snap packed t compressed no_file got) content

  -- A load by the storage of the entry.
  pub open_on_base :
      (t : TensorEntry) (pack : PackSource) (base : Result (List ℕ)) (st : TensorStorage)
      → t.storage ≡ st
      → load_on_base b x s t algo pack base ≡ (elim st as (λ _. Result (List ℕ)) [
        | full ↦ load_full b x s t algo pack
        | delta_xor ↦ load_delta b x s t algo pack base
        | skipped ↦ base
        | alias ↦ err (not_found t.name)
      ])
  unfolding load_on_base
  open_on_base t pack base st is =
      ap
        (λ storage. elim storage as (λ _. Result (List ℕ)) [
          | full ↦ load_full b x s t algo pack
          | delta_xor ↦ load_delta b x s t algo pack base
          | skipped ↦ base
          | alias ↦ err (not_found t.name)
        ])
        is

  pub load_delta_parts :
      (t : TensorEntry) (pack : PackSource) (base : Result (List ℕ)) (raw : List ℕ)
      → load_delta b x s t algo pack base ≡ ok raw
      → (compressed : List ℕ) × (planes : List ℕ) × (base_raw : List ℕ) × (extract_compressed b x s
            t pack
          ≡ ok compressed)
        × (decompress x.zstd compressed algo ≡ ok planes)
        × (base ≡ ok base_raw)
        × (apply_delta base_raw
              (if t.shuffled then unshuffle planes (element_size t.dtype) else planes)
            ≡ ok raw)
  unfolding load_delta
  load_delta_parts t pack base raw h =
      let (compressed, hc, h1) = >>=-eq-ok (extract_compressed b x s t pack) _ h in
      let (planes, hp, h2) = >>=-eq-ok (decompress x.zstd compressed algo) _ h1 in
      let (base_raw, hb, h3) = >>=-eq-ok base _ h2 in
      let (made, hm, h4) =
        >>=-eq-ok
          (apply_delta base_raw
            (if t.shuffled then unshuffle planes (element_size t.dtype) else planes))
          _ h3 in
      (compressed, planes, base_raw, hc, hp, hb, hm ∙ ground (arith, h4))

  module _ (base_snap : Snapshot) (base : IsPacked base_snap rank) (base_id : Uuid) where
    open_resolve :
        (fuel : ℕ) (name : String) (t : TensorEntry) (st : TensorStorage)
        → find (λ u. str_eq u.name name) base.entry.tensors ≡ some t
        → t.storage ≡ st
        → resolve_within b x s (find_in_rank base algo) (suc fuel) base_id name
          ≡ (elim st as (λ _. Result BaseEntry) [
            | alias ↦ elim t.alias_of as (λ _. Result BaseEntry) [
              | none ↦ err (not_found name)
              | some target ↦ resolve_within b x s (find_in_rank base algo) fuel base_id target
            ]
            | _ ↦ ok (t, algo, ranged base.path)
          ])
    unfolding resolve_within
    open_resolve fuel name t st found is =
        let got : find_in_rank base algo base_id name ≡ ok (t, algo, ranged base.path) =
          rw (find_in_rank, found) refl in
        rw (resolve_within, got)
          (ap
            (λ storage. elim storage as (λ _. Result BaseEntry) [
              | alias ↦ elim t.alias_of as (λ _. Result BaseEntry) [
                | none ↦ err (not_found name)
                | some target ↦ resolve_within b x s (find_in_rank base algo) fuel base_id target
              ]
              | _ ↦ ok (t, algo, ranged base.path)
            ])
            is)

    open_within :
        (fuel : ℕ) (name : String) (t : TensorEntry) (st : TensorStorage)
        → find (λ u. str_eq u.name name) base.entry.tensors ≡ some t
        → t.storage ≡ st
        → base_within b x.zstd s (suc fuel) base_snap base.entry rank name algo
          ≡ (elim st as (λ _. Result (List ℕ)) [
            | alias ↦ elim t.alias_of as (λ _. Result (List ℕ)) [
              | none ↦ err (not_found name)
              | some target ↦ base_within b x.zstd s fuel base_snap base.entry rank target algo
            ]
            | _ ↦ load_tensor_data b x.zstd s t base_snap rank algo
          ])
    unfolding base_within
    open_within fuel name t st found is =
        rw (base_within, found)
          (ap
            (λ storage. elim storage as (λ _. Result (List ℕ)) [
              | alias ↦ elim t.alias_of as (λ _. Result (List ℕ)) [
                | none ↦ err (not_found name)
                | some target ↦ base_within b x.zstd s fuel base_snap base.entry rank target algo
              ]
              | _ ↦ load_tensor_data b x.zstd s t base_snap rank algo
            ])
            is)

    -- The entry that the base's name stands for, loaded as of a snapshot without a base.
    abbrev load_found : Result BaseEntry → Result (List ℕ)
    load_found resolved =
        resolved >>= λ found. load_on_base b x s found.0 found.1 found.2 (err MoonclipError.delta)

    stored_same :
        (t : TensorEntry) (raw : List ℕ) (st : TensorStorage)
        → t.filename ≡ none
        → t.storage ≡ st
        → st ≢ alias
        → load_on_base b x s t algo (ranged base.path) (err MoonclipError.delta) ≡ ok raw
        → load_tensor_data b x.zstd s t base_snap rank algo ≡ ok raw
    stored_same t raw full no_file is own h =
        same_full base_snap base t raw no_file is (sym (open_on_base t _ _ full is) ∙ h)
    stored_same t raw delta_xor no_file is own h =
        let (compressed, planes, base_raw, hc, hp, hb, hd) =
          load_delta_parts t (ranged base.path) (err MoonclipError.delta) raw
            (sym (open_on_base t _ _ delta_xor is) ∙ h) in
        absurd cc hb
    stored_same t raw skipped no_file is own h =
        absurd cc (sym (open_on_base t (ranged base.path) _ skipped is) ∙ h)
    stored_same t raw alias no_file is own h = absurd (own refl)

    -- A name that stands for a tensor with bytes, or refers on to another name.
    resolve_stored :
        (fuel : ℕ) (name : String) (t : TensorEntry) (st : TensorStorage)
        → find (λ u. str_eq u.name name) base.entry.tensors ≡ some t
        → t.storage ≡ st
        → st ≢ alias
        → (resolve_within b x s (find_in_rank base algo) (suc fuel) base_id name
            ≡ ok (t, algo, ranged base.path))
          × (base_within b x.zstd s (suc fuel) base_snap base.entry rank name algo
              ≡ load_tensor_data b x.zstd s t base_snap rank algo)
    resolve_stored fuel name t full found is own =
        (open_resolve fuel name t full found is, open_within fuel name t full found is)
    resolve_stored fuel name t delta_xor found is own =
        (open_resolve fuel name t delta_xor found is, open_within fuel name t delta_xor found is)
    resolve_stored fuel name t skipped found is own =
        (open_resolve fuel name t skipped found is, open_within fuel name t skipped found is)
    resolve_stored fuel name t alias found is own = absurd (own refl)

    alias_cases : (st : TensorStorage) → (st ≡ alias) ⊎ (st ≢ alias)
    alias_cases full = inr (λ e. cc e)
    alias_cases delta_xor = inr (λ e. cc e)
    alias_cases skipped = inr (λ e. cc e)
    alias_cases alias = inl refl

    base_same :
        (fuel : ℕ) (name : String) (raw : List ℕ)
        → load_found (resolve_within b x s (find_in_rank base algo) fuel base_id name) ≡ ok raw
        → base_within b x.zstd s fuel base_snap base.entry rank name algo ≡ ok raw
    unfolding resolve_within
    base_same zero name raw h = absurd cc h
    base_same (suc fuel) name raw h =
        elim (Option-cases (find (λ u. str_eq u.name name) base.entry.tensors)) [
          | inl missing ↦
              let got : find_in_rank base algo base_id name ≡ err (not_found name) =
                rw (find_in_rank, missing) refl in
              absurd cc (rw (resolve_within, got) at h)
          | inr (t, found) ↦ elim (alias_cases t.storage) [
            | inr own ↦
                let (resolved, within) = resolve_stored fuel name t t.storage found refl own in
                let no_file : t.filename ≡ none =
                  base.no_files t (find_In _ base.entry.tensors t found).0 in
                within
                ∙ stored_same t raw t.storage no_file refl own (ap load_found (sym resolved) ∙ h)
            | inl is ↦ elim (Option-cases t.alias_of) [
              | inl lost ↦
                  absurd cc
                    (rw lost at (ap load_found (sym (open_resolve fuel name t alias found is)) ∙ h))
              | inr (target, refers) ↦
                  let further : load_found
                        (resolve_within b x s (find_in_rank base algo) fuel base_id target)
                      ≡ ok raw =
                    rw refers at
                      (ap load_found (sym (open_resolve fuel name t alias found is)) ∙ h) in
                  open_within fuel name t alias found is
                  ∙ rw refers (base_same fuel target raw further)
            ]
          ]
        ]

    pub base_data :
        (name : String) (raw : List ℕ)
        → load_base b x s (find_in_rank base algo) base_id name ≡ ok raw
        → base_tensor_data b x.zstd s base_snap rank name algo ≡ ok raw
    unfolding load_base base_tensor_data resolve_base_entry
    base_data name raw h = rw (base_tensor_data, base.is_rank) (base_same 8 name raw h)
