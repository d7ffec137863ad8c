-- ===== src/Loading/Tests.antt =====
-- A skipped tensor and its alias, over a base of one full tensor.
use moonclip.Prelude.{ℕ, ◌≡◌, refl, List, [], ◌∷◌, true, false, Option, none, some}
use moonclip.Prelude.Assoc.{lookup, insert, remove}
use moonclip.Error.{ok}
use moonclip.Manifest.{
  TensorEntry, RankEntry, Snapshot, Manifest, default_manifest, find_snapshot, full, skipped, alias,
  uncompressed,
}
use moonclip.Storage.{Disk, local_storage}
use moonclip.Compression.{decompress}
use moonclip.Compression.Stored.{stored}
use moonclip.Tensor.{Externals}
use moonclip.Tensor.Load.{
  PackSource, whole, load_tensor, load_tensor_raw, load_base, load_on_base, resolve_base_entry,
  resolve_within, load_full, extract_compressed,
}
use moonclip.Loading.{
  BaseContext, base_context, resolver, find_base_tensor_entry_with_pack, load_entries, load_stored,
  load_aliases, load_in_pool,
}
use moonclip.Loading.Prefetch.{base_distinct, load_entries-base_context}
use Prim.Native.String.{String}

abbrev coarse_hash : List ℕ → String
coarse_hash [] = "empty"
coarse_hash (b ∷ bs) = "full"

abbrev simple : Externals (Unit {0})
simple = record {
  zstd = stored;
  stream = record { new = λ bytes. none; read = λ d n. none };
  floats = record {
    add = λ a c. 0;
    mul = λ a c. 0;
    div = λ a c. 0;
    gt = λ a c. false;
    is_normal = λ a. false;
    of_ℕ = λ a. 0;
    two_powi = λ a c. 0;
    f64_to_f32 = λ a. 0;
    f32_to_f64 = λ a. 0;
  };
  hash_hex = coarse_hash;
}

abbrev weights : TensorEntry
weights = record {
  name = "w";
  shape = 1 ∷ [];
  dtype = "int32";
  original_dtype = none;
  quant_scale = none;
  storage = full;
  alias_of = none;
  filename = none;
  offset = 0;
  compressed_size = 4;
  raw_size = 4;
  hash_raw = "full";
  hash_compressed = some "full";
  shuffled = false;
}

abbrev rank_0 : RankEntry
rank_0 = record {
  rank = 0;
  tensors = weights ∷ [];
  pack_file = some "snapshots/a/rank_0.pack";
  total_compressed = 4;
  total_raw = 4;
  skipped_count = 0;
  delta_count = 0;
  full_count = 1;
}

abbrev base : Snapshot
base = record {
  id = 1;
  step = 10;
  created_at = 0;
  ranks = (0, rank_0) ∷ [];
  base_snapshot_id = none;
  metadata = [];
  compression = uncompressed;
  finalized = true;
  pinned = false;
}

abbrev same_weights : TensorEntry
same_weights = record weights { storage = skipped; hash_compressed = none }

abbrev tied : TensorEntry
tied = record weights { name = "v"; storage = alias; alias_of = some "w"; hash_compressed = none }

abbrev delta : Snapshot
delta = record base {
  id = 2;
  step = 20;
  ranks = (0, record rank_0 { tensors = tied ∷ same_weights ∷ []; pack_file = none }) ∷ [];
  base_snapshot_id = some 1;
}

abbrev manifest : Manifest
manifest = record default_manifest { snapshots = base ∷ delta ∷ [] }

abbrev disk : Disk
disk = record {
  files = ("snapshots/a/rank_0.pack", 1 ∷ 2 ∷ 3 ∷ 4 ∷ 0 ∷ []) ∷ [];
  partial = none;
  locked = λ p. false;
  refusals = [];
}

loaded :
    load_in_pool (local_storage 8) simple disk manifest 0 2
    ≡ ok (("v", 1 ∷ 2 ∷ 3 ∷ 4 ∷ []) ∷ ("w", 1 ∷ 2 ∷ 3 ∷ 4 ∷ []) ∷ [])
unfolding load_in_pool find_snapshot base_context resolver find_base_tensor_entry_with_pack
    load_stored load_aliases load_tensor load_tensor_raw load_base resolve_base_entry resolve_within
    load_full extract_compressed local_storage lookup insert remove decompress load_on_base
loaded = refl

abbrev context : Option BaseContext
context = some (1, ("w", weights) ∷ [], uncompressed, whole (1 ∷ 2 ∷ 3 ∷ 4 ∷ 0 ∷ []))

base-distinct : base_distinct (local_storage 8) simple disk manifest 0 (some 1) ≡ true
unfolding base_distinct find_snapshot
base-distinct = refl

base-read : base_context (local_storage 8) simple disk manifest 0 true (some 1) ≡ ok context
unfolding base_context find_snapshot local_storage lookup
base-read = refl

load_entries-base_context_example :
    load_entries
      (local_storage 8)
      simple
      disk
      manifest
      0
      (resolver (local_storage 8) simple disk manifest 0 context)
      delta
      PackSource.per_file
      (tied ∷ same_weights ∷ [])
    ≡ load_entries
        (local_storage 8)
        simple
        disk
        manifest
        0
        (find_base_tensor_entry_with_pack (local_storage 8) simple disk manifest 0 true)
        delta
        PackSource.per_file
        (tied ∷ same_weights ∷ [])
load_entries-base_context_example =
    load_entries-base_context (local_storage 8) simple disk manifest 0 true (some 1) context delta
      PackSource.per_file (tied ∷ same_weights ∷ []) base-distinct base-read
