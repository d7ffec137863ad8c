-- ===== src/Merger/Tests.antt =====
-- Merges of snapshots with one tensor of a few bytes.
use moonclip.Prelude.{
  ℕ, ◌<◌, ◌^◌, ◌≡◌, refl, ap, List, [], ◌∷◌, true, false, Option, none, some, inl, inr, arith,
  length,
}
use moonclip.Prelude.Search.{contains}
use moonclip.Prelude.Member.{Memᴰ}
use moonclip.Prelude.Assoc.{lookup}
use moonclip.Error.{ok}
use moonclip.Manifest.{
  Uuid, TensorEntry, RankEntry, Snapshot, Manifest, default_manifest, uncompressed, full,
  pending_delta_count,
}
use moonclip.Storage.{Disk, local_storage, join_parts}
use moonclip.Storage.Local.{local_storage-StorageLaws}
use moonclip.Compression.{compress, decompress}
use moonclip.Compression.Stored.{stored, stored-ZstdLaws}
use moonclip.Compression.Prefix.{Stream}
use moonclip.Cast.Convert.{FloatOps}
use moonclip.Pack.{encode_header, header_len}
use moonclip.InFlight.{empty_state}
use moonclip.ManifestIo.{ranks_path}
use moonclip.ManifestIo.Numbers.{numbers}
use moonclip.Tensor.Load.{
  ranged, whole, load_full, load_on_base, extract_compressed, load_tensor_raw,
}
use moonclip.Merger.{MergerConfig, PendingDeletes, unlink_snapshots, to_fold}
use moonclip.Merger.Read.{current_data, load_tensor_data, load_compressed_data}
use moonclip.Merger.Write.{MergedTensors, MergeExternals, merged_entry, merge_tensors, pack_bytes}
use moonclip.InFlight.{empty_system, start}
use moonclip.Merger.Unlink.{IsOf, unlink_snapshots_lem}
use moonclip.Merger.Stride.{IsFolded, to_fold_lem}
use moonclip.Merger.Layout.{as_externals, load_full-merge_tensors}
use moonclip.Merger.Resolve.{IsPacked, find_in_rank}
use moonclip.Merger.SameBytes.{current_data-load_tensor_raw}
use Prim.Native.String.{String}
use mathlib.Core.List.Memᴰ.{head, tail, not-nil, cases_cons}

abbrev no_floats : FloatOps
no_floats = record {
  add = λ a c. 0;
  mul = λ a c. 0;
  div = λ a c. 0;
  gt = λ a c. false;
  is_normal = λ a. false;
  of_ℕ = λ a. 0;
  two_powi = λ a c. 0;
  f64_to_f32 = λ a. 0;
  f32_to_f64 = λ a. 0;
}

abbrev no_stream : Stream (Unit {0})
no_stream = record { new = λ bytes. none; read = λ d n. none }

abbrev coarse_hash : List ℕ → String
coarse_hash [] = "empty"
coarse_hash (b ∷ bs) = "full"

abbrev weights : TensorEntry
weights = record {
  name = "w";
  shape = 1 ∷ [];
  dtype = "int32";
  original_dtype = none;
  quant_scale = none;
  storage = full;
  alias_of = none;
  filename = none;
  offset = 2;
  compressed_size = 4;
  raw_size = 4;
  hash_raw = "full";
  hash_compressed = some "full";
  shuffled = false;
}

abbrev rank_0 : RankEntry
rank_0 = record {
  rank = 0;
  tensors = weights ∷ [];
  pack_file = some "rank_0.pack";
  total_compressed = 4;
  total_raw = 4;
  skipped_count = 0;
  delta_count = 0;
  full_count = 1;
}

abbrev snapshot : ℕ → Option Uuid → Snapshot
snapshot id base = record {
  id = id;
  step = id;
  created_at = 0;
  ranks = (0, rank_0) ∷ [];
  base_snapshot_id = base;
  metadata = [];
  compression = uncompressed;
  finalized = true;
  pinned = false;
}

abbrev disk : Disk
disk = record {
  files = ("rank_0.pack", 9 ∷ 9 ∷ 1 ∷ 2 ∷ 3 ∷ 4 ∷ []) ∷ ("keep", 5 ∷ []) ∷ [];
  partial = none;
  locked = λ p. false;
  refusals = [];
}

abbrev externals : MergeExternals
externals = record {
  zstd = stored;
  hash_hex = coarse_hash;
  descriptor_to_vec = λ d. some (1 ∷ []);
  number_text = λ n. "0";
}

abbrev packed : (id : ℕ) (base : Option Uuid) → IsPacked (snapshot id base) 0
packed id base = record {
  entry = rank_0;
  is_rank = refl;
  path = "rank_0.pack";
  has_pack = refl;
  no_files = no_files;
}
  where
    no_files : (t : TensorEntry) → Memᴰ t (weights ∷ []) → t.filename ≡ none
    no_files t i = elim (cases_cons i) [
      | inl e ↦ ap (λ u. u.filename) e
      | inr k ↦ absurd (not-nil k)
    ]

loaded :
    load_tensor_raw
      (local_storage 8)
      (as_externals no_stream no_floats externals)
      disk
      (find_in_rank (packed 1 none) uncompressed)
      weights
      (some 1)
      uncompressed
      (ranged "rank_0.pack")
    ≡ ok (1 ∷ 2 ∷ 3 ∷ 4 ∷ [])
unfolding load_tensor_raw load_on_base load_full extract_compressed decompress local_storage lookup
loaded = refl

current_data-load_tensor_raw_example :
    current_data
      (local_storage 8)
      stored
      disk
      weights
      (snapshot 2 (some 1))
      (snapshot 1 none)
      0
      uncompressed
    ≡ ok (1 ∷ 2 ∷ 3 ∷ 4 ∷ [])
current_data-load_tensor_raw_example =
    current_data-load_tensor_raw (local_storage 8) (as_externals no_stream no_floats externals) disk
      uncompressed 0 (snapshot 1 none) (snapshot 2 (some 1)) (packed 1 none) (packed 2 (some 1)) 1
      weights (1 ∷ 2 ∷ 3 ∷ 4 ∷ []) (head refl) loaded

abbrev merged_weights : TensorEntry
merged_weights =
    merged_entry (local_storage 8) numbers externals uncompressed weights (1 ∷ 2 ∷ 3 ∷ 4 ∷ [])
      (1 ∷ 2 ∷ 3 ∷ 4 ∷ []) 32

abbrev merged : MergedTensors
merged = record {
  tensors = merged_weights ∷ [];
  blobs = (1 ∷ 2 ∷ 3 ∷ 4 ∷ []) ∷ [];
  blobs_end = 36;
  total_compressed = 4;
  total_raw = 4;
}

merged_there :
    merge_tensors
      (local_storage 8)
      numbers
      externals
      uncompressed
      header_len
      (weights ∷ [])
      (snapshot 2 (some 1))
      (snapshot 1 none)
      0
      disk
    ≡ ok merged
unfolding merge_tensors current_data load_tensor_data load_compressed_data compress decompress
    local_storage lookup
merged_there = refl

short_pack :
    length (pack_bytes (local_storage 8) numbers externals uncompressed merged (7 ∷ [])) < 2 ^ 64
unfolding join_parts encode_header
short_pack = omega arith

load_full-merge_tensors_example :
    (entry : TensorEntry) × (raw : List ℕ) × Memᴰ entry (weights ∷ [])
    × (merged_weights.name ≡ entry.name)
    × (current_data
          (local_storage 8)
          stored
          disk
          entry
          (snapshot 2 (some 1))
          (snapshot 1 none)
          0
          uncompressed
        ≡ ok raw)
    × (load_full
          (local_storage 8)
          (as_externals no_stream no_floats externals)
          disk
          merged_weights
          uncompressed
          (whole (pack_bytes (local_storage 8) numbers externals uncompressed merged (7 ∷ [])))
        ≡ ok raw)
load_full-merge_tensors_example =
    load_full-merge_tensors (local_storage 8) numbers externals uncompressed (snapshot 2 (some 1))
      (snapshot 1 none) 0 disk no_stream no_floats disk stored-ZstdLaws (weights ∷ []) merged
      (7 ∷ []) merged_weights merged_there (head refl) refl short_pack

abbrev no_deletes : PendingDeletes
no_deletes = record { keys = []; collecting = true }

others_kept :
    (snap : Snapshot)
    → Memᴰ snap (snapshot 1 none ∷ [])
    → ¬ (IsOf (local_storage 8) (local_storage-StorageLaws 8) numbers snap "keep")
unfolding ranks_path
others_kept snap i of = elim (cases_cons i) [
  | inr none_left ↦ absurd (not-nil none_left)
  | inl e ↦ elim (rw e at of) [
    | inl own ↦ absurd cc own
    | inr (r, k, named) ↦ elim (cases_cons k) [
      | inr none_left ↦ absurd (not-nil none_left)
      | inl same ↦ elim (rw same at named) [
        | inl pack ↦ absurd cc pack
        | inr (t, l, file) ↦ elim (cases_cons l) [
          | inr none_left ↦ absurd (not-nil none_left)
          | inl is ↦ absurd cc (rw is at file)
        ]
      ]
    ]
  ]
]

unlink_snapshots_example :
    (local_storage 8).get "keep"
      (unlink_snapshots
        (local_storage 8)
        numbers
        (snapshot 1 none ∷ [])
        empty_state
        []
        (disk, no_deletes)).0
    ≡ (local_storage 8).get "keep" disk
unlink_snapshots_example =
    unlink_snapshots_lem (local_storage 8) (local_storage-StorageLaws 8) numbers "keep"
      (snapshot 1 none ∷ []) empty_system [] (disk, no_deletes) start tt (inr others_kept)

abbrev three_snapshots : Manifest
three_snapshots = record default_manifest {
  snapshots = snapshot 1 none ∷ snapshot 2 (some 1) ∷ snapshot 3 (some 1) ∷ [];
}

abbrev every_second : MergerConfig
every_second = record { stride = 2; max_chain_depth = 10 }

older_folded : contains (to_fold (local_storage 8) numbers every_second three_snapshots) 2 ≡ true
unfolding to_fold pending_delta_count
older_folded = refl

to_fold_example :
    IsFolded
      (local_storage 8)
      numbers
      (to_fold (local_storage 8) numbers every_second three_snapshots)
      three_snapshots.snapshots
      (snapshot 2 (some 1))
to_fold_example =
    to_fold_lem (local_storage 8) numbers every_second three_snapshots (snapshot 2 (some 1)) refl
      (tail (head refl)) older_folded
