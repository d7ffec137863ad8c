-- ===== src/Recovery.antt =====
-- src/coordinator/recovery.rs: snapshots that no manifest names, rebuilt from their packs or deleted.
-- The listing of the storage, serde_json, the hash and the texts of UUIDs are parameters.
pub mod Admits
pub mod Intact
pub mod Reachable
mod Tests
use moonclip.Prelude.{
  ℕ, ◌%◌, ◌^◌, List, [], ◌∷◌, ◌++◌, map, Bool, true, false, not, ◌&&◌, ◌||◌, Option, none, some,
  ◌==◌, if◌then◌else◌, length,
}
use moonclip.Prelude.Search.{filter, any, all}
use moonclip.Prelude.Assoc.{lookup, insert}
use moonclip.Error.{MoonclipError, Result, ok, err, panic}
use moonclip.Manifest.{
  Uuid, TensorEntry, RankEntry, Snapshot, Manifest, RetentionPolicy, LineageConfig,
  default_manifest,
}
use moonclip.Storage.{StorageBackend, FilePath}
use moonclip.Pack.{PackDescriptor, decode_header, header_len}
use moonclip.ManifestIo.{ManifestJson, load}
use moonclip.Retention.{with_snapshots}
use moonclip.Merger.Full.{sort_by_step}
use Prim.Native.String.{String, ◌++◌ as ◌+++◌}
use Prim.Native.Char.{Char}
use text.Mathlib.Text.{◌==◌ as str_eq}

-- `strip_prefix`, and the part before the first slash.
abbrev pub strip_prefix : String → String → Option String
strip_prefix String.[] s = some s
strip_prefix (String.◌∷◌ c p) String.[] = none
strip_prefix (String.◌∷◌ c p) (String.◌∷◌ d s) =
    let rest = strip_prefix p s in
    if str_eq (String.◌∷◌ c String.[]) (String.◌∷◌ d String.[]) then rest else none

abbrev pub until_slash : String → String
until_slash String.[] = String.[]
until_slash (String.◌∷◌ c s) =
    let rest = until_slash s in
    if str_eq (String.◌∷◌ c String.[]) "/" then String.[] else String.◌∷◌ c rest

abbrev pub ends_with : String → String → Bool
ends_with end String.[] = str_eq String.[] end
ends_with end (String.◌∷◌ c s) = str_eq (String.◌∷◌ c s) end || ends_with end s

-- What recovery calls beside the storage interface.
pub record RecoveryExternals (S : Type 0) : Type 0 where
  -- None for a listing that fails.
  pub list : S → Option (List FilePath)
  pub descriptor_from_slice : List ℕ → Option PackDescriptor
  pub hash_hex : List ℕ → String
  pub uuid_text : Uuid → String
  pub parse_uuid : String → Option Uuid

-- `.ok()?`
abbrev pub or_none {ℓ} : {A : Type ℓ} → Result A → Option A
or_none (ok a) = some a
or_none (err e) = none
or_none panic = none

module _ {S : Type 0} (b : StorageBackend S) (x : RecoveryExternals S) (s : S) where
  abbrev pub of_its_snapshot : String → Option PackDescriptor → Option PackDescriptor
  of_its_snapshot id none = none
  of_its_snapshot id (some d) = if str_eq (x.uuid_text d.snapshot_id) id then some d else none

  -- The descriptor that a pack's header points at.
  unfoldable pub read_descriptor : String → FilePath → Option PackDescriptor
  read_descriptor id file = elim (or_none (b.get_range file 0 header_len s)) [
    | none ↦ none
    | some header ↦ elim (decode_header header) [
      | none ↦ none
      | some span ↦ elim (or_none (b.get_range file span.0 span.1 s)) [
        | none ↦ none
        | some encoded ↦
            if length encoded == span.1
            then of_its_snapshot id (x.descriptor_from_slice encoded)
            else none
      ]
    ]
  ]

  unfoldable pub read_descriptors : String → List FilePath → Option (List PackDescriptor)
  read_descriptors id [] = some []
  read_descriptors id (file ∷ files) = elim (read_descriptor id file) [
    | none ↦ none
    | some d ↦ elim (read_descriptors id files) [ none ↦ none | some ds ↦ some (d ∷ ds) ]
  ]

  -- A map from the ranks, where a later entry of a rank replaces an earlier one.
  abbrev pub collect_ranks : List PackDescriptor → List (ℕ × RankEntry)
  collect_ranks [] = []
  collect_ranks (d ∷ ds) =
      let rest = collect_ranks ds in
      if any (λ r. r.0 == d.rank.rank) rest then rest else (d.rank.rank, d.rank) ∷ rest

  abbrev pub described : PackDescriptor → List (ℕ × RankEntry) → Snapshot
  described first ranks = record {
    id = first.snapshot_id;
    step = first.step;
    created_at = first.created_at;
    ranks = ranks;
    base_snapshot_id = first.base_snapshot_id;
    metadata = first.metadata;
    compression = first.compression;
    finalized = true;
    pinned = false;
  }

  unfoldable pub rebuild_from_packs : String → List FilePath → Option Snapshot
  unfolding read_descriptors
  rebuild_from_packs id files = elim (read_descriptors id (filter (ends_with ".pack") files)) [
    | none ↦ none
    | some descriptors ↦ elim descriptors [
      | [] ↦ none
      | first ∷ rest ↦
          let ranks = collect_ranks (first ∷ rest) in
          if length ranks % 2 ^ 32 == first.world_size then some (described first ranks) else none
    ]
  ]

  -- The stored bytes of a tensor, where it has a place.
  abbrev pub stored_bytes : RankEntry → TensorEntry → Option (List ℕ)
  stored_bytes entry t = elim entry.pack_file [
    | some pack ↦ or_none (b.get_range pack t.offset t.compressed_size s)
    | none ↦ elim t.filename [ none ↦ none | some file ↦ or_none (b.get file s) ]
  ]

  unfoldable pub tensor_is_intact : RankEntry → TensorEntry → Bool
  tensor_is_intact entry t = elim t.hash_compressed [
    | none ↦ true
    | some expected ↦ elim (stored_bytes entry t) [
      | none ↦ false
      | some bytes ↦ (length bytes == t.compressed_size) && str_eq (x.hash_hex bytes) expected
    ]
  ]

  unfoldable pub snapshot_data_is_intact : Snapshot → Bool
  snapshot_data_is_intact snapshot =
      all (λ r. all (tensor_is_intact r.1) r.1.tensors) snapshot.ranks

  -- The directory of a file that belongs to no known snapshot but is named by a UUID.
  abbrev pub orphan_of : List String → FilePath → Option String
  orphan_of known file = elim (strip_prefix "snapshots/" file) [
    | none ↦ none
    | some rest ↦
        if any (str_eq (until_slash rest)) known
        then none
        else elim (x.parse_uuid (until_slash rest)) [
          | none ↦ none
          | some id ↦ some (until_slash rest)
        ]
  ]

  abbrev pub or_empty : Option (List FilePath) → List FilePath
  or_empty none = []
  or_empty (some files) = files

  -- The files of each orphan, by its directory.
  unfoldable pub orphans_of : List String → List FilePath → List (String × List FilePath)
  orphans_of known [] = []
  orphans_of known (file ∷ files) =
      let rest = orphans_of known files in
      elim (orphan_of known file) [
        | none ↦ rest
        | some id ↦ insert id (file ∷ or_empty (lookup id rest)) rest
      ]

  -- The orphans that can be put back, and the directories of the others.
  unfoldable pub judge_orphans : List (String × List FilePath) → List Snapshot × List String
  judge_orphans [] = ([], [])
  judge_orphans ((id, files) ∷ orphans) =
      let (candidates, rejects) = judge_orphans orphans in
      elim (rebuild_from_packs id files) [
        | none ↦ (candidates, id ∷ rejects)
        | some snapshot ↦
            if snapshot_data_is_intact snapshot
            then (snapshot ∷ candidates, rejects)
            else (candidates, id ∷ rejects)
      ]

  abbrev pub base_present : List Snapshot → Snapshot → Bool
  base_present snapshots snapshot = elim snapshot.base_snapshot_id [
    | none ↦ true
    | some base ↦ any (λ u. u.id == base) snapshots
  ]

  -- The candidates in order, onto the snapshots there are; and the rejected directories.
  unfoldable pub admit : List Snapshot → List Snapshot → List Snapshot × List String
  admit snapshots [] = (snapshots, [])
  admit snapshots (candidate ∷ candidates) = elim (base_present snapshots candidate) [
    | true ↦ admit (snapshots ++ (candidate ∷ [])) candidates
    | false ↦
        let (admitted, rejects) = admit snapshots candidates in
        (admitted, x.uuid_text candidate.id ∷ rejects)
  ]

  abbrev pub delete_all : List FilePath → S → S
  delete_all [] t = t
  delete_all (file ∷ files) t = delete_all files (b.delete file t).1

  abbrev pub reclaim : List (String × List FilePath) → List String → S → S
  reclaim orphans [] t = t
  reclaim orphans (id ∷ rejects) t =
      reclaim orphans rejects (delete_all (or_empty (lookup id orphans)) t)

  -- Whether a snapshot was recovered, the manifest and the storage. A directory that is removed at the
  -- end is an empty one.
  unfoldable pub recover_or_reclaim_orphans : Manifest → Bool × Manifest × S
  unfolding orphans_of judge_orphans admit
  recover_or_reclaim_orphans m = elim (x.list s) [
    | none ↦ (false, m, s)
    | some files ↦
        let orphans = orphans_of (map (λ u. x.uuid_text u.id) m.snapshots) files in
        let (candidates, undescribed) = judge_orphans orphans in
        let (admitted, baseless) = admit m.snapshots (sort_by_step candidates) in
        let recovered = not (length admitted == length m.snapshots) in
        (
          recovered,
          with_snapshots (if recovered then sort_by_step admitted else admitted) m,
          reclaim orphans (undescribed ++ baseless) s,
        )
  ]

-- `load_manifest`, which starts afresh where there is none.
unfoldable pub load_manifest :
    {S : Type 0}
    → StorageBackend S
    → ManifestJson
    → ℕ
    → RetentionPolicy
    → LineageConfig
    → S
    → Result Manifest
load_manifest b j world_size retention lineage s = elim (load b j none s) [
  | err e ↦ err e
  | panic ↦ panic
  | ok found ↦ elim found [
    | some m ↦ ok m
    | none ↦ ok (record default_manifest {
      world_size = world_size;
      retention = retention;
      lineage = lineage;
    })
  ]
]
