-- ===== src/Merger/Read.antt =====
-- src/merger.rs: what a full merge reads of one tensor.
use moonclip.Prelude.{ℕ, zero, suc, List, none, some, ◌==◌, if◌then◌else◌, length}
use moonclip.Prelude.Search.{find}
use moonclip.Error.{MoonclipError, Result, ok, err, panic, ◌>>=◌}
use moonclip.Error.MoonclipError.{not_found}
use moonclip.Manifest.{
  CompressionAlgo, TensorEntry, RankEntry, Snapshot, full, delta_xor, skipped, alias,
}
use moonclip.Storage.{StorageBackend}
use moonclip.Compression.{Zstd, decompress}
use moonclip.Shuffle.{unshuffle, element_size}
use moonclip.Delta.{apply_delta}
use moonclip.Tensor.{truncate_to}
use moonclip.Merger.{rank_of}
use Prim.Native.String.{String}
use text.Mathlib.Text.{◌==◌ as str_eq}

module _ {S : Type 0} (b : StorageBackend S) (z : Zstd) (s : S) where
  unfoldable pub load_compressed_data : TensorEntry → Snapshot → ℕ → Result (List ℕ)
  load_compressed_data entry snap rank = elim entry.filename [
    | some filename ↦ do bytes ← b.get filename s; ok (truncate_to entry.compressed_size bytes)
    | none ↦ elim (rank_of rank snap) [
      | none ↦ err (not_found entry.name)
      | some re ↦ elim re.pack_file [
        | none ↦ err (not_found entry.name)
        | some pack ↦ do
          bytes ← b.get_range pack entry.offset entry.compressed_size s
          if length bytes == entry.compressed_size then ok bytes else err (not_found entry.name)
      ]
    ]
  ]

  -- The algorithm is the merger's own, whatever the snapshot was written with.
  unfoldable pub load_tensor_data : TensorEntry → Snapshot → ℕ → CompressionAlgo → Result (List ℕ)
  load_tensor_data entry snap rank algo = elim entry.storage [
    | full ↦ do compressed ← load_compressed_data entry snap rank; decompress z compressed algo
    | _ ↦ err MoonclipError.delta
  ]

  -- `for _ in 0..8`
  unfoldable pub base_within :
      ℕ → Snapshot → RankEntry → ℕ → String → CompressionAlgo → Result (List ℕ)
  base_within zero base_snap base_rank rank current algo = err MoonclipError.delta
  base_within (suc fuel) base_snap base_rank rank current algo =
      elim (find (λ t. str_eq t.name current) base_rank.tensors) [
        | none ↦ err (not_found current)
        | some entry ↦ elim entry.storage [
          | alias ↦ elim entry.alias_of [
            | none ↦ err (not_found current)
            | some target ↦ base_within fuel base_snap base_rank rank target algo
          ]
          | _ ↦ load_tensor_data entry base_snap rank algo
        ]
      ]

  unfoldable pub base_tensor_data : Snapshot → ℕ → String → CompressionAlgo → Result (List ℕ)
  base_tensor_data base_snap rank name algo = elim (rank_of rank base_snap) [
    | none ↦ err (not_found name)
    | some base_rank ↦ base_within 8 base_snap base_rank rank name algo
  ]

  -- The bytes of a tensor of the newest delta; an alias is not asked for.
  unfoldable pub current_data :
      TensorEntry → Snapshot → Snapshot → ℕ → CompressionAlgo → Result (List ℕ)
  current_data entry source_snap base_snap rank algo = elim entry.storage [
    | full ↦ load_tensor_data entry source_snap rank algo
    | skipped ↦ base_tensor_data base_snap rank entry.name algo
    | delta_xor ↦ do
      base_raw ← base_tensor_data base_snap rank entry.name algo
      compressed ← load_compressed_data entry source_snap rank
      planes ← decompress z compressed algo
      apply_delta base_raw
          (if entry.shuffled then unshuffle planes (element_size entry.dtype) else planes)
    | alias ↦ panic
  ]
