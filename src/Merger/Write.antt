-- ===== src/Merger/Write.antt =====
-- src/merger.rs: the packs of a full merge. serde_json, the text of a number and the hash are
-- parameters.
use moonclip.Prelude.{
  ℕ, ◌+◌, ◌-◌, List, [], ◌∷◌, ◌++◌, Bool, true, false, Option, none, some, length,
}
use moonclip.Prelude.Search.{filter}
use moonclip.Error.{Result, ok, err, panic, ◌>>=◌}
use moonclip.Error.MoonclipError.{serialization}
use moonclip.Manifest.{Uuid, CompressionAlgo, TensorEntry, RankEntry, Snapshot, full, alias}
use moonclip.Storage.{StorageBackend, FilePath, join_parts}
use moonclip.Compression.{Zstd, compress}
use moonclip.Pack.{PackDescriptor, encode_header, header_len}
use moonclip.ManifestIo.{ManifestJson}
use moonclip.Merger.{rank_of}
use moonclip.Merger.Read.{current_data}
use Prim.Native.String.{String, ◌++◌ as ◌+++◌}

-- The tensors of a rank as they are written, their blobs, and where these end.
pub record MergedTensors : Type 0 where
  pub tensors : List TensorEntry
  pub blobs : List (List ℕ)
  pub blobs_end : ℕ
  pub total_compressed : ℕ
  pub total_raw : ℕ

abbrev pub is_alias : TensorEntry → Bool
is_alias entry = elim entry.storage [ alias ↦ true | _ ↦ false ]

-- What a merge calls of other libraries.
pub record MergeExternals : Type 0 where
  pub zstd : Zstd
  pub hash_hex : List ℕ → String
  pub descriptor_to_vec : PackDescriptor → Option (List ℕ)
  pub number_text : ℕ → String

module _ {S : Type 0} (b : StorageBackend S) (j : ManifestJson) (x : MergeExternals)
    (algo : CompressionAlgo) where
  abbrev pub merged_entry : TensorEntry → List ℕ → List ℕ → ℕ → TensorEntry
  merged_entry entry raw compressed offset = record entry {
    storage = full;
    alias_of = none;
    filename = none;
    offset = offset;
    compressed_size = length compressed;
    raw_size = length raw;
    hash_raw = x.hash_hex raw;
    hash_compressed = some (x.hash_hex compressed);
    shuffled = false;
  }

  abbrev pub with_alias : TensorEntry → MergedTensors → MergedTensors
  with_alias entry m = record m {
    tensors = entry ∷ m.tensors;
    total_raw = entry.raw_size + m.total_raw;
  }

  abbrev pub with_blob : TensorEntry → List ℕ → List ℕ → MergedTensors → MergedTensors
  with_blob entry raw compressed m = record m {
    tensors = entry ∷ m.tensors;
    blobs = compressed ∷ m.blobs;
    total_compressed = length compressed + m.total_compressed;
    total_raw = length raw + m.total_raw;
  }

  -- The tensors from `offset` on.
  unfoldable pub merge_tensors :
      ℕ → List TensorEntry → Snapshot → Snapshot → ℕ → S → Result MergedTensors
  merge_tensors offset [] source_snap base_snap rank s =
      ok
        record { tensors = []; blobs = []; blobs_end = offset; total_compressed = 0; total_raw = 0 }
  merge_tensors offset (entry ∷ rest) source_snap base_snap rank s = elim (is_alias entry) [
    | true ↦ do
      others ← merge_tensors offset rest source_snap base_snap rank s
      ok (with_alias entry others)
    | false ↦ do
      raw ← current_data b x.zstd s entry source_snap base_snap rank algo
      compressed ← compress x.zstd raw algo
      others ← merge_tensors (offset + length compressed) rest source_snap base_snap rank s
      ok (with_blob (merged_entry entry raw compressed offset) raw compressed others)
  ]

  -- What every rank's descriptor repeats.
  pub record Merge : Type 0 where
    pub merged_id : Uuid
    pub merged_step : ℕ
    pub merged_created_at : ℕ
    pub merged_metadata : List (String × String)
    pub world_size : ℕ

  abbrev pub pack_path : Uuid → ℕ → FilePath
  pack_path id rank =
      ("snapshots/" +++ j.uuid_text id) +++ ("/rank_" +++ (x.number_text rank +++ ".pack"))

  abbrev pub rank_entry_of : Merge → ℕ → MergedTensors → RankEntry
  rank_entry_of merge rank m =
      let alias_count = length (filter is_alias m.tensors) in
      record {
        rank = rank;
        tensors = m.tensors;
        pack_file = some (pack_path merge.merged_id rank);
        total_compressed = m.total_compressed;
        total_raw = m.total_raw;
        skipped_count = alias_count;
        delta_count = 0;
        full_count = length m.tensors - alias_count;
      }

  abbrev pub descriptor_of : Merge → RankEntry → PackDescriptor
  descriptor_of merge entry = record {
    snapshot_id = merge.merged_id;
    step = merge.merged_step;
    created_at = merge.merged_created_at;
    base_snapshot_id = none;
    metadata = merge.merged_metadata;
    compression = algo;
    world_size = merge.world_size;
    rank = entry;
  }

  -- The header, the blobs and the descriptor.
  abbrev pub pack_bytes : MergedTensors → List ℕ → List ℕ
  pack_bytes m encoded =
      join_parts (encode_header m.blobs_end (length encoded) ∷ (m.blobs ++ (encoded ∷ [])))

  abbrev pub and_entry : RankEntry → Result (Unit {0}) × S → Result RankEntry × S
  and_entry entry (ok done, t) = (ok entry, t)
  and_entry entry (err e, t) = (err e, t)
  and_entry entry (panic, t) = (panic, t)

  unfoldable pub write_rank : Merge → ℕ → MergedTensors → S → Result RankEntry × S
  write_rank merge rank m s =
      let entry = rank_entry_of merge rank m in
      elim (x.descriptor_to_vec (descriptor_of merge entry)) [
        | none ↦ (err serialization, s)
        | some encoded ↦
            and_entry entry (b.put (pack_path merge.merged_id rank) (pack_bytes m encoded) s)
      ]

  -- The entry of a rank in the newest delta, or in the base where the delta has none.
  abbrev pub source_of : Snapshot → Snapshot → ℕ → Option (RankEntry × Snapshot)
  source_of last_delta base_snap rank = elim (rank_of rank last_delta) [
    | some entry ↦ some (entry, last_delta)
    | none ↦ elim (rank_of rank base_snap) [ none ↦ none | some entry ↦ some (entry, base_snap) ]
  ]

  unfoldable pub merge_rank : Merge → Snapshot → Snapshot → ℕ → S → Result (Option RankEntry) × S
  merge_rank merge last_delta base_snap rank s = elim (source_of last_delta base_snap rank) [
    | none ↦ (ok none, s)
    | some source ↦ elim (merge_tensors header_len source.0.tensors source.1 base_snap rank s) [
      | err e ↦ (err e, s)
      | panic ↦ (panic, s)
      | ok m ↦
          let (written, t) = write_rank merge rank m s in (do entry ← written; ok (some entry), t)
    ]
  ]

  abbrev pub prepend : ℕ → Option RankEntry → List (ℕ × RankEntry) → List (ℕ × RankEntry)
  prepend rank none ranks = ranks
  prepend rank (some entry) ranks = (rank, entry) ∷ ranks

  -- One rank after the other, or the first failure.
  unfoldable pub merge_ranks :
      Merge → Snapshot → Snapshot → List ℕ → S → Result (List (ℕ × RankEntry)) × S
  merge_ranks merge last_delta base_snap [] s = (ok [], s)
  merge_ranks merge last_delta base_snap (rank ∷ ranks) s =
      let (entry, t) = merge_rank merge last_delta base_snap rank s in
      let (others, u) = merge_ranks merge last_delta base_snap ranks t in
      elim entry [
        | err e ↦ (err e, t)
        | panic ↦ (panic, t)
        | ok found ↦ (do entries ← others; ok (prepend rank found entries), u)
      ]

  abbrev pub merged_snapshot : Merge → List (ℕ × RankEntry) → Snapshot
  merged_snapshot merge ranks = record {
    id = merge.merged_id;
    step = merge.merged_step;
    created_at = merge.merged_created_at;
    ranks = ranks;
    base_snapshot_id = none;
    metadata = merge.merged_metadata;
    compression = algo;
    finalized = true;
    pinned = false;
  }
