-- ===== src/Tensor/Load.antt =====
-- src/tensor.rs: reading a tensor back from a snapshot and the snapshot that it was taken against.
use moonclip.Prelude.{
  ℕ, zero, suc, ◌+◌, ◌-◌, List, Option, none, some, ◌==◌, leb, if◌then◌else◌, length, take, drop,
}
use moonclip.Error.{MoonclipError, Result, ok, err, panic, ◌>>=◌}
use moonclip.Error.MoonclipError.{not_found, integrity_error}
use moonclip.Manifest.{Uuid, CompressionAlgo, TensorEntry, full, delta_xor, skipped, alias, usize}
use moonclip.Storage.{StorageBackend, FilePath}
use moonclip.Compression.{decompress}
use moonclip.Cast.Convert.{uncast_tensor}
use moonclip.Shuffle.{unshuffle, element_size}
use moonclip.Delta.{apply_delta}
use moonclip.Tensor.{Externals, truncate_to}
use Prim.Native.String.{String}
use text.Mathlib.Text.{◌==◌ as str_eq}

-- `PackSource`, and `OwnedPack`, which differs in who owns the bytes.
pub data PackSource : Type 0 where
  whole : List ℕ → PackSource
  ranged : FilePath → PackSource
  per_file : PackSource

abbrev pub BaseEntry : Type 0
BaseEntry = TensorEntry × CompressionAlgo × PackSource

-- The name of an entry that has no file or no target stands for the message of the error.
module _ {S D : Type 0} (b : StorageBackend S) (x : Externals D) (s : S) where
  unfoldable pub extract_file : TensorEntry → Result (List ℕ)
  extract_file entry = elim entry.filename [
    | none ↦ err (not_found entry.name)
    | some filename ↦ do bytes ← b.get filename s; ok (truncate_to entry.compressed_size bytes)
  ]

  -- The end wraps around; a slice that ends before it starts panics.
  unfoldable pub extract_compressed : TensorEntry → PackSource → Result (List ℕ)
  unfolding extract_file
  extract_compressed entry (whole bytes) =
      let start = entry.offset in
      let end = usize (start + entry.compressed_size) in
      if leb end (length bytes)
      then (if leb start end then ok (take (end - start) (drop start bytes)) else panic)
      else extract_file entry
  extract_compressed entry (ranged path) = do
    bytes ← b.get_range path entry.offset entry.compressed_size s
    if length bytes == entry.compressed_size then ok bytes else err MoonclipError.storage
  extract_compressed entry per_file = extract_file entry

  -- The stored bytes, decompressed, when they have the hash that the entry names.
  unfoldable pub load_full : TensorEntry → CompressionAlgo → PackSource → Result (List ℕ)
  load_full entry algo pack = do
    compressed ← extract_compressed entry pack
    elim entry.hash_compressed [
      | none ↦ decompress x.zstd compressed algo
      | some expected ↦
          if str_eq (x.hash_hex compressed) expected
          then decompress x.zstd compressed algo
          else err (integrity_error expected (x.hash_hex compressed))
    ]

  unfoldable pub load_delta :
      TensorEntry → CompressionAlgo → PackSource → Result (List ℕ) → Result (List ℕ)
  load_delta entry algo pack base = do
    compressed ← extract_compressed entry pack
    planes ← decompress x.zstd compressed algo
    base_raw ← base
    raw ←
        apply_delta base_raw
          (if entry.shuffled then unshuffle planes (element_size entry.dtype) else planes)
    if str_eq (x.hash_hex raw) entry.hash_raw
        then ok raw
        else err (integrity_error entry.hash_raw (x.hash_hex raw))

  -- `load_tensor_raw`, given what loading the tensor of that name in the base answers.
  unfoldable pub load_on_base :
      TensorEntry → CompressionAlgo → PackSource → Result (List ℕ) → Result (List ℕ)
  load_on_base entry algo pack base = elim entry.storage [
    | full ↦ load_full entry algo pack
    | delta_xor ↦ load_delta entry algo pack base
    | skipped ↦ base
    | alias ↦ err (not_found entry.name)
  ]

  module _ (find_base_entry : Uuid → String → Result BaseEntry) where
    -- `for _ in 0..8`
    unfoldable pub resolve_within : ℕ → Uuid → String → Result BaseEntry
    resolve_within zero base_id current = err MoonclipError.delta
    resolve_within (suc fuel) base_id current = do
      found ← find_base_entry base_id current
      elim found.0.storage [
        | alias ↦ elim found.0.alias_of [
          | none ↦ err (not_found current)
          | some target ↦ resolve_within fuel base_id target
        ]
        | _ ↦ ok found
      ]

    unfoldable pub resolve_base_entry : Uuid → String → Result BaseEntry
    resolve_base_entry base_id name = resolve_within 8 base_id name

    -- The tensor of a name in the base, which is read as of a snapshot that has no base.
    unfoldable pub load_base : Uuid → String → Result (List ℕ)
    load_base base_id name = do
      found ← resolve_base_entry base_id name
      load_on_base found.0 found.1 found.2 (err MoonclipError.delta)

    unfoldable pub load_tensor_raw :
        TensorEntry → Option Uuid → CompressionAlgo → PackSource → Result (List ℕ)
    load_tensor_raw entry snap_base_id algo pack = load_on_base entry algo pack (elim snap_base_id [
      | none ↦ err MoonclipError.delta
      | some base_id ↦ load_base base_id entry.name
    ])

    unfoldable pub load_tensor :
        TensorEntry → Option Uuid → CompressionAlgo → PackSource → Result (List ℕ)
    load_tensor entry snap_base_id algo pack = do
      raw ← load_tensor_raw entry snap_base_id algo pack
      elim entry.original_dtype [
        | none ↦ ok raw
        | some original ↦
            if str_eq original entry.dtype
            then ok raw
            else uncast_tensor x.floats raw entry.dtype original entry.quant_scale
      ]
