-- ===== src/Tensor/Tests.antt =====
-- Tensors of a few bytes, stored whole and found in their base.
use moonclip.Prelude.{ℕ, ◌≡◌, refl, List, [], ◌∷◌, Bool, false, Option, none, some, inl}
use moonclip.Prelude.Assoc.{lookup}
use moonclip.Error.{Result, ok}
use moonclip.Manifest.{uncompressed, TensorEntry, Uuid, full}
use moonclip.Storage.{Disk, local_storage}
use moonclip.Compression.{compress, decompress}
use moonclip.Compression.Stored.{stored, stored-ZstdLaws}
use moonclip.Compression.Prefix.{Stream}
use moonclip.Cast.Policy.{for_tensor, is_castable_float, unchanged}
use moonclip.Cast.Convert.{FloatOps}
use moonclip.Tensor.{
  TensorData, BaseCache, Externals, base_bytes, working_of, full_entry, skipped_entry,
  make_full_entry, process_against, process_tensor,
}
use moonclip.Tensor.Load.{
  whole, BaseEntry, extract_compressed, load_full, load_on_base, resolve_within, resolve_base_entry,
  load_base, load_tensor,
}
use moonclip.Tensor.RoundTrip.{
  BaseAgrees, placed, restored, load_tensor-process_tensor, load_tensor-process_tensor_exact,
}
use moonclip.Tensor.Dedup.{dedup_plan, owners, dedup_plan_lem}
use Prim.Native.String.{String}

abbrev no_floats : FloatOps
no_floats = record {
  add = λ a c. 0;
  mul = λ a c. 0;
  div = λ a c. 0;
  gt = λ a c. false;
  is_normal = λ a. false;
  of_ℕ = λ a. 0;
  two_powi = λ a c. 0;
  f64_to_f32 = λ a. 0;
  f32_to_f64 = λ a. 0;
}

abbrev no_stream : Stream (Unit {0})
no_stream = record { new = λ bytes. none; read = λ d n. none }

-- A hash that tells only an empty buffer from the others.
abbrev coarse_hash : List ℕ → String
coarse_hash [] = "empty"
coarse_hash (x ∷ xs) = "full"

abbrev simple : Externals (Unit {0})
simple = record { zstd = stored; stream = no_stream; floats = no_floats; hash_hex = coarse_hash }

abbrev weights : TensorData
weights = record { name = "w"; shape = 1 ∷ []; dtype = "int32"; bytes = 1 ∷ 2 ∷ 3 ∷ 4 ∷ [] }

abbrev empty_disk : Disk
empty_disk = record { files = []; partial = none; locked = λ p. false; refusals = [] }

abbrev base_weights : TensorEntry
base_weights = record {
  name = "w";
  shape = 1 ∷ [];
  dtype = "int32";
  original_dtype = none;
  quant_scale = none;
  storage = full;
  alias_of = none;
  filename = none;
  offset = 2;
  compressed_size = 4;
  raw_size = 4;
  hash_raw = "full";
  hash_compressed = some "full";
  shuffled = false;
}

abbrev base_cache : BaseCache
base_cache = record {
  pack_file = none;
  entries = ("w", base_weights) ∷ [];
  algo = uncompressed;
  raw = some (("w", 1 ∷ 2 ∷ 3 ∷ 4 ∷ []) ∷ []);
}

abbrev base_pack : List ℕ
base_pack = 9 ∷ 9 ∷ 1 ∷ 2 ∷ 3 ∷ 4 ∷ []

abbrev in_base : Uuid → String → Result BaseEntry
in_base id name = ok (base_weights, uncompressed, whole base_pack)

abbrev never : ℕ → ℕ → Bool
never a c = false

processed_again :
    process_tensor
      (local_storage 8)
      simple
      uncompressed
      never
      weights
      (some base_cache)
      []
      empty_disk
    ≡ ok (skipped_entry (local_storage 8) simple weights (1 ∷ 2 ∷ 3 ∷ 4 ∷ [], "int32", none))
unfolding process_tensor process_against working_of lookup for_tensor is_castable_float
processed_again = refl

base_loads : load_base (local_storage 8) simple empty_disk in_base 7 "w" ≡ ok (1 ∷ 2 ∷ 3 ∷ 4 ∷ [])
unfolding load_base resolve_base_entry resolve_within load_on_base load_full extract_compressed
    decompress
base_loads = refl

base_was_read :
    (bytes : List ℕ)
    → base_bytes (local_storage 8) simple base_cache base_weights empty_disk ≡ ok (some bytes)
    → bytes ≡ 1 ∷ 2 ∷ 3 ∷ 4 ∷ []
unfolding base_bytes lookup
base_was_read bytes h = cc

weights_agree :
    (cache : BaseCache) (base_entry : TensorEntry)
    → ◌≡◌ {A = Option BaseCache} (some base_cache) (some cache)
    → lookup "w" cache.entries ≡ some base_entry
    → (base_id : Uuid) × (◌≡◌ {A = Option Uuid} (some 7) (some base_id))
      × BaseAgrees
          (local_storage 8)
          simple
          in_base
          empty_disk
          empty_disk
          "w"
          (1 ∷ 2 ∷ 3 ∷ 4 ∷ [])
          cache
          base_entry
          base_id
unfolding lookup
weights_agree cache base_entry h found =
    let same : base_cache ≡ cache = cc h in
    let same_entry : base_weights ≡ base_entry = cc (rw (← same) at found) in
    rw (← same, ← same_entry)
      (
        7,
        refl,
        record {
          content = 1 ∷ 2 ∷ 3 ∷ 4 ∷ [];
          loads = base_loads;
          has_hash = refl;
          was_read = base_was_read;
          no_collision = λ e. refl;
        },
      )

unchanged_there : for_tensor [] "w" ≡ unchanged
unfolding for_tensor
unchanged_there = refl

load_tensor-process_tensor_exact_example :
    load_tensor
      (local_storage 8)
      simple
      empty_disk
      in_base
      (placed
        (skipped_entry (local_storage 8) simple weights (1 ∷ 2 ∷ 3 ∷ 4 ∷ [], "int32", none)).entry
        none
        0)
      (some 7)
      uncompressed
      (whole [])
    ≡ ok (1 ∷ 2 ∷ 3 ∷ 4 ∷ [])
unfolding skipped_entry
load_tensor-process_tensor_exact_example =
    load_tensor-process_tensor_exact (local_storage 8) simple stored-ZstdLaws uncompressed never
      weights (some base_cache) [] empty_disk empty_disk
      (skipped_entry (local_storage 8) simple weights (1 ∷ 2 ∷ 3 ∷ 4 ∷ [], "int32", none)) none 0
      (whole []) in_base (some 7) processed_again (inl unchanged_there) weights_agree
      (λ compressed h. absurd cc h)

-- Stored whole, behind two bytes of a pack.
processed_first :
    process_tensor (local_storage 8) simple uncompressed never weights none [] empty_disk
    ≡ ok (
        full_entry
          (local_storage 8)
          simple
          weights
          (1 ∷ 2 ∷ 3 ∷ 4 ∷ [], "int32", none)
          (1 ∷ 2 ∷ 3 ∷ 4 ∷ []))
unfolding process_tensor make_full_entry working_of for_tensor is_castable_float compress
processed_first = refl

worked_first :
    working_of (local_storage 8) simple weights [] ≡ ok (1 ∷ 2 ∷ 3 ∷ 4 ∷ [], "int32", none)
unfolding working_of for_tensor is_castable_float
worked_first = refl

found_first :
    (compressed : List ℕ)
    → ◌≡◌ {A = Option (List ℕ)} (some (1 ∷ 2 ∷ 3 ∷ 4 ∷ [])) (some compressed)
    → extract_compressed
        (local_storage 8)
        simple
        empty_disk
        (placed
          (full_entry
            (local_storage 8)
            simple
            weights
            (1 ∷ 2 ∷ 3 ∷ 4 ∷ [], "int32", none)
            (1 ∷ 2 ∷ 3 ∷ 4 ∷ [])).entry
          none
          2)
        (whole base_pack)
      ≡ ok compressed
unfolding extract_compressed
found_first compressed h = let same : 1 ∷ 2 ∷ 3 ∷ 4 ∷ [] ≡ compressed = cc h in rw (← same) refl

load_tensor-process_tensor_example :
    load_tensor
      (local_storage 8)
      simple
      empty_disk
      in_base
      (placed
        (full_entry
          (local_storage 8)
          simple
          weights
          (1 ∷ 2 ∷ 3 ∷ 4 ∷ [], "int32", none)
          (1 ∷ 2 ∷ 3 ∷ 4 ∷ [])).entry
        none
        2)
      none
      uncompressed
      (whole base_pack)
    ≡ restored simple weights (1 ∷ 2 ∷ 3 ∷ 4 ∷ [], "int32", none)
load_tensor-process_tensor_example =
    load_tensor-process_tensor (local_storage 8) simple stored-ZstdLaws uncompressed never weights
      none [] empty_disk empty_disk
      (full_entry (local_storage 8) simple weights (1 ∷ 2 ∷ 3 ∷ 4 ∷ [], "int32", none)
        (1 ∷ 2 ∷ 3 ∷ 4 ∷ []))
      (1 ∷ 2 ∷ 3 ∷ 4 ∷ [], "int32", none) none 2 (whole base_pack) in_base none processed_first
      worked_first (λ cache base_entry h found. absurd cc h) found_first

abbrev packed_disk : Disk
packed_disk = record {
  files = ("rank_0.pack", base_pack) ∷ [];
  partial = none;
  locked = λ p. false;
  refusals = [];
}

pack_there : (local_storage 8).get "rank_0.pack" packed_disk ≡ ok base_pack
unfolding local_storage lookup
pack_there = refl

dedup_plan_example :
    dedup_plan coarse_hash (weights ∷ weights ∷ []) ≡ owners coarse_hash [] (weights ∷ weights ∷ [])
dedup_plan_example = dedup_plan_lem coarse_hash (weights ∷ weights ∷ [])
