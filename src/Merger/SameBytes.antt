-- ===== src/Merger/SameBytes.antt =====
-- What a full merge reads of a tensor is what a load of the newest delta gives.
use moonclip.Prelude.{ℕ, ◌≡◌, refl, sym, ap, ◌∙◌, List, none, some, if◌then◌else◌}
use moonclip.Prelude.Member.{Memᴰ}
use moonclip.Error.{Result, ok, panic, ◌>>=◌}
use moonclip.Manifest.{
  Uuid, CompressionAlgo, TensorStorage, TensorEntry, Snapshot, full, delta_xor, skipped, alias,
}
use moonclip.Storage.{StorageBackend}
use moonclip.Compression.{decompress}
use moonclip.Shuffle.{unshuffle, element_size}
use moonclip.Delta.{apply_delta}
use moonclip.Tensor.{Externals}
use moonclip.Tensor.Load.{ranged, load_on_base, load_base, load_tensor_raw}
use moonclip.Merger.Read.{load_compressed_data, load_tensor_data, base_tensor_data, current_data}
use moonclip.Merger.Resolve.{
  IsPacked, find_in_rank, same_compressed, same_full, open_on_base, load_delta_parts, base_data,
}

module _ {S D : Type 0} (b : StorageBackend S) (x : Externals D) (s : S) (algo : CompressionAlgo)
    (rank : ℕ) (base_snap : Snapshot) (base : IsPacked base_snap rank) (base_id : Uuid)
    (source_snap : Snapshot) (source : IsPacked source_snap rank) where
  open_current :
      (t : TensorEntry) (st : TensorStorage)
      → t.storage ≡ st
      → current_data b x.zstd s t source_snap base_snap rank algo
        ≡ (elim st as (λ _. Result (List ℕ)) [
          | full ↦ load_tensor_data b x.zstd s t source_snap rank algo
          | skipped ↦ base_tensor_data b x.zstd s base_snap rank t.name algo
          | delta_xor ↦ do
            base_raw ← base_tensor_data b x.zstd s base_snap rank t.name algo
            compressed ← load_compressed_data b x.zstd s t source_snap rank
            planes ← decompress x.zstd compressed algo
            apply_delta base_raw
                (if t.shuffled then unshuffle planes (element_size t.dtype) else planes)
          | alias ↦ panic
        ])
  unfolding current_data
  open_current t st is =
      ap
        (λ storage. elim storage as (λ _. Result (List ℕ)) [
          | full ↦ load_tensor_data b x.zstd s t source_snap rank algo
          | skipped ↦ base_tensor_data b x.zstd s base_snap rank t.name algo
          | delta_xor ↦ do
            base_raw ← base_tensor_data b x.zstd s base_snap rank t.name algo
            compressed ← load_compressed_data b x.zstd s t source_snap rank
            planes ← decompress x.zstd compressed algo
            apply_delta base_raw
                (if t.shuffled then unshuffle planes (element_size t.dtype) else planes)
          | alias ↦ panic
        ])
        is

  current_same :
      (t : TensorEntry) (raw : List ℕ) (st : TensorStorage)
      → t.filename ≡ none
      → t.storage ≡ st
      → load_on_base b x s t algo
          (ranged source.path)
          (load_base b x s (find_in_rank base algo) base_id t.name)
        ≡ ok raw
      → current_data b x.zstd s t source_snap base_snap rank algo ≡ ok raw
  current_same t raw full no_file is h =
      open_current t full is
      ∙ same_full b x s algo rank source_snap source t raw no_file is
          (sym (open_on_base b x s algo rank t _ _ full is) ∙ h)
  current_same t raw skipped no_file is h =
      open_current t skipped is
      ∙ base_data b x s algo rank base_snap base base_id t.name raw
          (sym (open_on_base b x s algo rank t (ranged source.path) _ skipped is) ∙ h)
  current_same t raw alias no_file is h =
      absurd cc (sym (open_on_base b x s algo rank t (ranged source.path) _ alias is) ∙ h)
  current_same t raw delta_xor no_file is h =
      let (compressed, planes, base_raw, hc, hp, hb, hd) =
        load_delta_parts b x s algo rank t (ranged source.path) _ raw
          (sym (open_on_base b x s algo rank t _ _ delta_xor is) ∙ h) in
      open_current t delta_xor is
      ∙ rw
          (
            base_data b x s algo rank base_snap base base_id t.name base_raw hb,
            same_compressed b x s algo rank source_snap source t compressed no_file hc,
            hp,
          )
          hd

-- Of a snapshot in packs and its base, both compressed as the merger compresses, every tensor that a
-- load reads is read by a full merge as the same bytes.
pub current_data-load_tensor_raw :
    {S D : Type 0} (b : StorageBackend S) (x : Externals D) (s : S) (algo : CompressionAlgo)
    (rank : ℕ) (base_snap source_snap : Snapshot) (base : IsPacked base_snap rank)
    (source : IsPacked source_snap rank) (base_id : Uuid) (t : TensorEntry) (raw : List ℕ)
    → Memᴰ t source.entry.tensors
    → load_tensor_raw b x s (find_in_rank base algo) t (some base_id) algo (ranged source.path)
      ≡ ok raw
    → current_data b x.zstd s t source_snap base_snap rank algo ≡ ok raw
unfolding load_tensor_raw
current_data-load_tensor_raw b x s algo rank base_snap source_snap base source base_id t raw i h =
    current_same b x s algo rank base_snap base base_id source_snap source t raw t.storage
      (source.no_files t i) refl h
