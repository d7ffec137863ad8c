-- ===== src/Manifest/Types.antt =====
-- The data of src/manifest.rs. A UUID and a timestamp are opaque numbers, a map is an association
-- list in no particular order, and an f32 is its bit pattern.
use moonclip.Prelude.{ℕ, List, [], Option, none, Bool}
use Prim.Native.String.{String}

abbrev pub Uuid : Type 0
Uuid = ℕ

pub data TensorStorage : Type 0 where
  full delta_xor skipped alias : TensorStorage

pub record TensorEntry : Type 0 where
  pub name : String
  pub shape : List ℕ
  pub dtype : String
  pub original_dtype : Option String
  pub quant_scale : Option ℕ
  pub storage : TensorStorage
  pub alias_of : Option String
  pub filename : Option String
  pub offset : ℕ
  pub compressed_size : ℕ
  pub raw_size : ℕ
  pub hash_raw : String
  pub hash_compressed : Option String
  pub shuffled : Bool

pub record RankEntry : Type 0 where
  pub rank : ℕ
  pub tensors : List TensorEntry
  pub pack_file : Option String
  pub total_compressed : ℕ
  pub total_raw : ℕ
  pub skipped_count : ℕ
  pub delta_count : ℕ
  pub full_count : ℕ

-- `uncompressed` is `CompressionAlgo::None`; a level is its 32-bit pattern.
pub data CompressionAlgo : Type 0 where
  uncompressed : CompressionAlgo
  zstd : ℕ → CompressionAlgo

pub record Snapshot : Type 0 where
  pub id : Uuid
  pub step : ℕ
  pub created_at : ℕ
  pub ranks : List (ℕ × RankEntry)
  pub base_snapshot_id : Option Uuid
  pub metadata : List (String × String)
  pub compression : CompressionAlgo
  pub finalized : Bool
  pub pinned : Bool

pub record LineageConfig : Type 0 where
  pub rollback_interval_steps : ℕ
  pub max_rollback_snapshots : ℕ

pub record RetentionPolicy : Type 0 where
  pub max_full_snapshots : ℕ
  pub max_deltas_per_full : ℕ
  pub full_snapshot_every_steps : ℕ
  pub max_total_snapshots : Option ℕ

pub record Manifest : Type 0 where
  pub format_version : ℕ
  pub world_size : ℕ
  pub snapshots : List Snapshot
  pub retention : RetentionPolicy
  pub lineage : LineageConfig
  pub ranks_written : List Uuid

-- The defaults of the configuration types and of the manifest.
abbrev pub default_compression : CompressionAlgo
default_compression = zstd 3

abbrev pub default_lineage : LineageConfig
default_lineage = record { rollback_interval_steps = 10000; max_rollback_snapshots = 3 }

abbrev pub default_retention : RetentionPolicy
default_retention = record {
  max_full_snapshots = 5;
  max_deltas_per_full = 10;
  full_snapshot_every_steps = 5000;
  max_total_snapshots = none;
}

abbrev pub default_manifest : Manifest
default_manifest = record {
  format_version = 2;
  world_size = 1;
  snapshots = [];
  retention = default_retention;
  lineage = default_lineage;
  ranks_written = [];
}
