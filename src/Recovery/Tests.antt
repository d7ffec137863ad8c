-- ===== src/Recovery/Tests.antt =====
-- A pack that no manifest names, beside a manifest of one snapshot.
use moonclip.Prelude.{ℕ, ◌≡◌, refl, ap, List, [], ◌∷◌, ◌++◌, true, false, none, some, ◌⊎◌, inl, inr}
use moonclip.Prelude.Member.{Memᴰ}
use moonclip.Prelude.Assoc.{lookup, insert}
use moonclip.Error.{MoonclipError, Result, ok, err}
use moonclip.Manifest.{
  TensorEntry, RankEntry, Snapshot, Manifest, default_manifest, uncompressed, full, Uuid,
}
use moonclip.Storage.{Disk, local_storage}
use moonclip.Compression.{decompress}
use moonclip.Compression.Stored.{stored}
use moonclip.Pack.{PackDescriptor, encode_header, decode_header}
use moonclip.Tensor.{Externals}
use moonclip.Tensor.Load.{BaseEntry, ranged, extract_compressed, load_tensor_raw}
use moonclip.Recovery.{
  RecoveryExternals, tensor_is_intact, snapshot_data_is_intact, recover_or_reclaim_orphans,
  rebuild_from_packs, read_descriptor, base_present,
}
use moonclip.Merger.Full.{sort_by_step}
use moonclip.Recovery.Admits.{IsBased, IsWhole, recover_lem}
use moonclip.Recovery.Intact.{snapshot_data_is_intact-loads}
use Prim.Native.String.{String}
use mathlib.Core.List.Memᴰ.{head, not-nil, cases_cons}

abbrev coarse_hash : List ℕ → String
coarse_hash [] = "empty"
coarse_hash (b ∷ bs) = "full"

abbrev simple : Externals (Unit {0})
simple = record {
  zstd = stored;
  stream = record { new = λ bytes. none; read = λ d n. none };
  floats = record {
    add = λ a c. 0;
    mul = λ a c. 0;
    div = λ a c. 0;
    gt = λ a c. false;
    is_normal = λ a. false;
    of_ℕ = λ a. 0;
    two_powi = λ a c. 0;
    f64_to_f32 = λ a. 0;
    f32_to_f64 = λ a. 0;
  };
  hash_hex = coarse_hash;
}

abbrev weights : TensorEntry
weights = record {
  name = "w";
  shape = 1 ∷ [];
  dtype = "int32";
  original_dtype = none;
  quant_scale = none;
  storage = full;
  alias_of = none;
  filename = none;
  offset = 32;
  compressed_size = 4;
  raw_size = 4;
  hash_raw = "full";
  hash_compressed = some "full";
  shuffled = false;
}

abbrev rank_0 : RankEntry
rank_0 = record {
  rank = 0;
  tensors = weights ∷ [];
  pack_file = some "snapshots/b/rank_0.pack";
  total_compressed = 4;
  total_raw = 4;
  skipped_count = 0;
  delta_count = 0;
  full_count = 1;
}

abbrev lost : Snapshot
lost = record {
  id = 2;
  step = 20;
  created_at = 0;
  ranks = (0, rank_0) ∷ [];
  base_snapshot_id = some 1;
  metadata = [];
  compression = uncompressed;
  finalized = true;
  pinned = false;
}

abbrev known : Snapshot
known = record lost { id = 1; step = 10; ranks = []; base_snapshot_id = none }

abbrev manifest : Manifest
manifest = record default_manifest { snapshots = known ∷ [] }

abbrev descriptor : PackDescriptor
descriptor = record {
  snapshot_id = 2;
  step = 20;
  created_at = 0;
  base_snapshot_id = some 1;
  metadata = [];
  compression = uncompressed;
  world_size = 1;
  rank = rank_0;
}

abbrev disk : Disk
disk = record {
  files = ("snapshots/b/rank_0.pack", encode_header 36 1 ++ (1 ∷ 2 ∷ 3 ∷ 4 ∷ 9 ∷ [])) ∷ [];
  partial = none;
  locked = λ p. false;
  refusals = [];
}

abbrev listing : RecoveryExternals Disk
listing = record {
  list = λ s. some ("snapshots/b/rank_0.pack" ∷ []);
  descriptor_from_slice = λ bytes. some descriptor;
  hash_hex = coarse_hash;
  uuid_text = λ id. elim id [ ℕ.zero ↦ "zero" | ℕ.suc n ↦ elim n [ ℕ.zero ↦ "a" | ℕ.suc m ↦ "b" ] ];
  parse_uuid = λ text. some 2;
}

known-IsBased : IsBased (local_storage 8) listing disk (known ∷ [])
known-IsBased u i = elim (cases_cons i) [
  | inl e ↦ based u (ap (λ v. v.base_snapshot_id) e)
  | inr k ↦ absurd (not-nil k)
]
  where
    based :
        (u : Snapshot)
        → u.base_snapshot_id ≡ none
        → base_present (local_storage 8) listing disk (known ∷ []) u ≡ true
    based u e = rw (base_present, e) refl

recover_example :
    IsBased
      (local_storage 8)
      listing
      disk
      (recover_or_reclaim_orphans (local_storage 8) listing disk manifest).1.snapshots
    × ((u : Snapshot)
        → Memᴰ u (recover_or_reclaim_orphans (local_storage 8) listing disk manifest).1.snapshots
        → Memᴰ u (known ∷ []) ⊎ IsWhole (local_storage 8) listing disk u)
recover_example = recover_lem (local_storage 8) listing disk manifest known-IsBased

-- The orphan is put back.
lost_recovered : (recover_or_reclaim_orphans (local_storage 8) listing disk manifest).0 ≡ true
unfolding recover_or_reclaim_orphans snapshot_data_is_intact tensor_is_intact rebuild_from_packs
    read_descriptor lookup insert local_storage encode_header decode_header sort_by_step
lost_recovered = refl

lost_intact : snapshot_data_is_intact (local_storage 8) listing disk lost ≡ true
unfolding snapshot_data_is_intact tensor_is_intact local_storage lookup encode_header
lost_intact = refl

abbrev no_base : Uuid → String → Result BaseEntry
no_base id name = err (MoonclipError.not_found name)

snapshot_data_is_intact-loads_example :
    (bytes : List ℕ) × (extract_compressed
        (local_storage 8)
        simple
        disk
        weights
        (ranged "snapshots/b/rank_0.pack")
      ≡ ok bytes)
    × (load_tensor_raw
          (local_storage 8)
          simple
          disk
          no_base
          weights
          (some 1)
          uncompressed
          (ranged "snapshots/b/rank_0.pack")
        ≡ decompress stored bytes uncompressed)
snapshot_data_is_intact-loads_example =
    snapshot_data_is_intact-loads (local_storage 8) listing simple disk (λ bytes. refl) lost 0
      rank_0 weights "snapshots/b/rank_0.pack" "full" no_base (some 1) uncompressed lost_intact
      (head refl) refl (head refl) refl refl
