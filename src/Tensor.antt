-- ===== src/Tensor.antt =====
-- src/tensor.rs: one tensor on its way into a snapshot, cast, compared with its base and stored whole,
-- as a delta or not at all. Reading it back is in Tensor/Load.antt.
pub mod Load
pub mod Outcome
pub mod Extract
pub mod Dedup
pub mod RoundTrip
mod Tests
use moonclip.Prelude.{
  ℕ, List, [], ◌∷◌, map, Bool, true, false, not, ◌&&◌, Option, none, some, ◌==◌, ltb, leb,
  if◌then◌else◌, length, min, take,
}
use moonclip.Prelude.Assoc.{lookup}
use moonclip.Error.{MoonclipError, Result, ok, err, panic, ◌>>=◌}
use moonclip.Manifest.{
  CompressionAlgo, TensorStorage, TensorEntry, full, delta_xor, skipped, alias, is_some,
}
use moonclip.Storage.{StorageBackend, FilePath}
use moonclip.Compression.{Zstd, compress, decompress}
use moonclip.Compression.Prefix.{Stream, decompress_prefix}
use moonclip.Cast.Policy.{DType, DTypePolicy, for_tensor, is_unchanged, is_castable_float}
use moonclip.Cast.Convert.{FloatOps, Stored, cast_tensor}
use moonclip.Shuffle.{shuffle, element_size}
use moonclip.Delta.{compute_delta, pays_off, delta_min_size}
use Prim.Native.String.{String}
use text.Mathlib.Text.{◌==◌ as str_eq}

-- `SAMPLE_RAW`, `SAMPLE_WINDOW` and `SAMPLE_MIN`; the constant for small tensors is that of the deltas.
abbrev pub sample_raw : ℕ
sample_raw = 65536

abbrev pub sample_window : ℕ
sample_window = 262144

abbrev pub sample_min : ℕ
sample_min = 8192

pub record TensorData : Type 0 where
  pub name : String
  pub shape : List ℕ
  pub dtype : String
  pub bytes : List ℕ

pub record ProcessedTensor : Type 0 where
  pub entry : TensorEntry
  pub write_data : Option (List ℕ)

-- The base snapshot; its storage is that of the section.
pub record BaseCache : Type 0 where
  pub pack_file : Option FilePath
  pub entries : List (String × TensorEntry)
  pub algo : CompressionAlgo
  pub raw : Option (List (String × List ℕ))

-- What tensor.rs calls of other libraries: zstd, at once and as a stream, the arithmetic of floats,
-- and the hash.
pub record Externals (D : Type 0) : Type 0 where
  pub zstd : Zstd
  pub stream : Stream D
  pub floats : FloatOps
  pub hash_hex : List ℕ → String

-- `storage == TensorStorage::Full`
abbrev pub is_stored_full : TensorStorage → Bool
is_stored_full full = true
is_stored_full _ = false

-- `.ok()`
abbrev pub attempt {ℓ} : {A : Type ℓ} → Result A → Result (Option A)
attempt (ok a) = ok (some a)
attempt (err e) = ok none
attempt panic = panic

-- `truncate` to a length that is not 0.
abbrev pub truncate_to : ℕ → List ℕ → List ℕ
truncate_to expected bytes =
    if ltb 0 expected && ltb expected (length bytes) then take expected bytes else bytes

-- An entry of a tensor of the given bytes, dtype and scale, before it is packed.
abbrev pub entry_for :
    TensorData → Stored → String → TensorStorage → ℕ → Option String → Bool → TensorEntry
entry_for tensor (bytes, dtype, scale) raw_hash storage size compressed_hash is_shuffled = record {
  name = tensor.name;
  shape = tensor.shape;
  dtype = dtype;
  original_dtype = if str_eq dtype tensor.dtype then none else some tensor.dtype;
  quant_scale = scale;
  storage = storage;
  alias_of = none;
  filename = none;
  offset = 0;
  compressed_size = size;
  raw_size = length bytes;
  hash_raw = raw_hash;
  hash_compressed = compressed_hash;
  shuffled = is_shuffled;
}

unfoldable pub make_alias_entry : TensorData → TensorEntry → TensorEntry
make_alias_entry tensor target = record {
  name = tensor.name;
  shape = tensor.shape;
  dtype = target.dtype;
  original_dtype = target.original_dtype;
  quant_scale = target.quant_scale;
  storage = alias;
  alias_of = some target.name;
  filename = none;
  offset = 0;
  compressed_size = 0;
  raw_size = target.raw_size;
  hash_raw = target.hash_raw;
  hash_compressed = none;
  shuffled = false;
}

module _ {S D : Type 0} (b : StorageBackend S) (x : Externals D) where
  unfoldable pub read_compressed : BaseCache → TensorEntry → S → Result (Option (List ℕ))
  read_compressed cache entry s = elim cache.pack_file [
    | some pack ↦ do
      bytes ← b.get_range pack entry.offset entry.compressed_size s
      ok (if length bytes == entry.compressed_size then some bytes else none)
    | none ↦ elim entry.filename [
      | none ↦ ok none
      | some filename ↦ elim (b.get filename s) [
        | ok bytes ↦ ok (some (truncate_to entry.compressed_size bytes))
        | err e ↦ ok none
        | panic ↦ panic
      ]
    ]
  ]

  -- The window of the base's compressed bytes.
  unfoldable pub sample_bytes : BaseCache → TensorEntry → S → Result (Option (List ℕ))
  sample_bytes cache entry s =
      let window = min entry.compressed_size sample_window in
      elim cache.pack_file [
        | some pack ↦ attempt (b.get_range pack entry.offset window s)
        | none ↦ elim entry.filename [
          | none ↦ ok none
          | some filename ↦ attempt (do bytes ← b.get filename s; ok (take window bytes))
        ]
      ]

  unfoldable pub sample_prefix : BaseCache → TensorEntry → ℕ → S → Result (Option (List ℕ))
  sample_prefix cache entry max_raw s = if not (is_stored_full entry.storage) then ok none else do
    read ← sample_bytes cache entry s
    elim read [
      | none ↦ ok none
      | some compressed ↦ attempt (decompress_prefix x.stream compressed cache.algo max_raw)
    ]

  -- The bytes of a name in the memory of the base.
  abbrev pub raw_of : BaseCache → String → Option (List ℕ)
  raw_of cache name = elim cache.raw [ none ↦ none | some raw ↦ lookup name raw ]

  unfoldable pub base_bytes : BaseCache → TensorEntry → S → Result (Option (List ℕ))
  base_bytes cache entry s =
      if not (is_stored_full entry.storage) then ok none else elim (raw_of cache entry.name) [
        | some bytes ↦ ok (some bytes)
        | none ↦ do
          read ← read_compressed cache entry s
          elim read [
            | none ↦ ok none
            | some compressed ↦ do bytes ← decompress x.zstd compressed cache.algo; ok (some bytes)
          ]
      ]

  -- The bytes that are stored, their dtype, and the scale of a float8.
  unfoldable pub working_of : TensorData → DTypePolicy → Result Stored
  working_of tensor policy =
      let save_dtype = for_tensor policy tensor.name in
      if not (is_unchanged save_dtype) && is_castable_float tensor.dtype
      then cast_tensor x.floats tensor.bytes tensor.dtype save_dtype
      else ok (tensor.bytes, tensor.dtype, none)

  abbrev pub full_entry : TensorData → Stored → List ℕ → ProcessedTensor
  full_entry tensor working compressed = record {
    entry =
        entry_for tensor working (x.hash_hex working.0) full (length compressed)
          (some (x.hash_hex compressed)) false;
    write_data = some compressed;
  }

  unfoldable pub make_full_entry : TensorData → Stored → CompressionAlgo → Result ProcessedTensor
  make_full_entry tensor working algo = do
    compressed ← compress x.zstd working.0 algo
    ok (full_entry tensor working compressed)

  unfoldable pub skipped_entry : TensorData → Stored → ProcessedTensor
  skipped_entry tensor working = record {
    entry = entry_for tensor working (x.hash_hex working.0) skipped 0 none false;
    write_data = none;
  }

  -- The delta in byte planes, for elements of more than a byte.
  abbrev pub in_planes : ℕ → List ℕ → List ℕ
  in_planes itemsize xor = if ltb 1 itemsize then shuffle xor itemsize else xor

  abbrev pub delta_entry : TensorData → Stored → List ℕ → ProcessedTensor
  delta_entry tensor working compressed = record {
    entry =
        entry_for tensor working (x.hash_hex working.0) delta_xor (length compressed)
          (some (x.hash_hex compressed)) (ltb 1 (element_size working.1));
    write_data = some compressed;
  }

  unfoldable pub make_delta_entry :
      TensorData → Stored → List ℕ → CompressionAlgo → Result ProcessedTensor
  make_delta_entry tensor working xor algo = do
    compressed ← compress x.zstd (in_planes (element_size working.1) xor) algo
    ok (delta_entry tensor working compressed)

  module _ (algo : CompressionAlgo) (wins : ℕ → ℕ → Bool) where
    -- `wins` is the comparison under `delta_max_ratio`.
    abbrev pub worth_it : List ℕ → Stored → Bool
    worth_it base working =
        pays_off (λ bytes. compress x.zstd bytes algo) wins base working.0 (element_size working.1)

    unfoldable pub sampled_verdict :
        BaseCache → TensorEntry → String → Stored → S → Result (Option Bool)
    sampled_verdict cache base_entry name working s =
        if is_some (raw_of cache name) then ok none else do
          sample ← sample_prefix cache base_entry sample_raw s
          elim sample [
            | none ↦ ok none
            | some prefix ↦
                ok (if leb sample_min (length prefix) then some (worth_it prefix working) else none)
          ]

    -- The delta against base bytes, if there is one.
    unfoldable pub stored_delta : TensorData → Stored → List ℕ → Result (Option ProcessedTensor)
    stored_delta tensor working base_raw = do
      made ← compute_delta base_raw working.0
      elim made [
        | none ↦ ok none
        | some xor ↦ do processed ← make_delta_entry tensor working xor algo; ok (some processed)
      ]

    -- The sampled verdict, or the one on the whole base.
    abbrev pub is_worth_it : Stored → Option Bool → List ℕ → Bool
    is_worth_it working (some sampled) base_raw = sampled
    is_worth_it working none base_raw = worth_it base_raw working

    unfoldable pub delta_against :
        TensorData → Stored → Option Bool → List ℕ → Result (Option ProcessedTensor)
    delta_against tensor working verdict base_raw =
        if is_worth_it working verdict base_raw
        then stored_delta tensor working base_raw
        else ok none

    unfoldable pub try_delta :
        TensorData → Stored → BaseCache → TensorEntry → S → Result (Option ProcessedTensor)
    try_delta tensor working cache base_entry s = do
      verdict ← sampled_verdict cache base_entry tensor.name working s
      if elim verdict [ some sampled ↦ not sampled | none ↦ false ] then ok none else (do
        base ← base_bytes cache base_entry s
        elim base [
          | none ↦ ok none
          | some base_raw ↦ delta_against tensor working verdict base_raw
        ])

    -- A base of the size of the tensor, stored whole, and a tensor that is not small.
    abbrev pub may_delta : Stored → TensorEntry → Bool
    may_delta working base_entry =
        (base_entry.raw_size == length working.0)
        && (is_stored_full base_entry.storage && leb delta_min_size (length working.0))

    unfoldable pub process_against :
        TensorData → Stored → BaseCache → TensorEntry → S → Result ProcessedTensor
    process_against tensor working cache base_entry s =
        if str_eq base_entry.hash_raw (x.hash_hex working.0)
        then ok (skipped_entry tensor working)
        else do
          made ←
              if may_delta working base_entry
              then try_delta tensor working cache base_entry s
              else ok none
          elim made [ some processed ↦ ok processed | none ↦ make_full_entry tensor working algo ]

    unfoldable pub process_tensor :
        TensorData → Option BaseCache → DTypePolicy → S → Result ProcessedTensor
    process_tensor tensor base_cache policy s = do
      working ← working_of tensor policy
      elim base_cache [
        | none ↦ make_full_entry tensor working algo
        | some cache ↦ elim (lookup tensor.name cache.entries) [
          | none ↦ make_full_entry tensor working algo
          | some base_entry ↦ process_against tensor working cache base_entry s
        ]
      ]

    -- In the order of the tensors, or the first failure.
    unfoldable pub process_tensors_parallel :
        List TensorData → Option BaseCache → DTypePolicy → S → Result (List ProcessedTensor)
    process_tensors_parallel [] base_cache policy s = ok []
    process_tensors_parallel (tensor ∷ tensors) base_cache policy s = do
      processed ← process_tensor tensor base_cache policy s
      others ← process_tensors_parallel tensors base_cache policy s
      ok (processed ∷ others)
