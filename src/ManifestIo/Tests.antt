-- ===== src/ManifestIo/Tests.antt =====
-- A manifest of one snapshot, written to the local filesystem and read again.
use moonclip.Prelude.{
  ℕ, ◌≡◌, refl, sym, ap, ◌∙◌, List, [], ◌∷◌, ◌++◌, true, false, none, some, inl, inr,
}
use moonclip.Prelude.Member.{Memᴰ}
use moonclip.Prelude.Assoc.{lookup, insert, remove}
use moonclip.Error.{ok, err}
use moonclip.Error.MoonclipError.{storage}
use moonclip.Manifest.{RankEntry, Snapshot, Manifest, default_retention, default_lineage, zstd}
use moonclip.Storage.{
  write_file, renaming, Disk, local_storage, store, write_parts, padded, padding, join_parts,
  trim_zeros, rposition_nonzero,
}
use moonclip.Storage.Local.{local_storage-StorageLaws}
use moonclip.ManifestIo.{
  Head, Index, manifest_file, ranks_path, write_ranks, write_index, persist, load,
}
use moonclip.ManifestIo.Files.{OneContent}
use moonclip.ManifestIo.RoundTrip.{OnDisk, filed, persist-OnDisk, load-persist}
use moonclip.ManifestIo.Order.{persist_failed_lem}
use moonclip.ManifestIo.Lend.{NamesOwnFile, load-held}
use moonclip.ManifestIo.Numbers.{numbers, numbers-ManifestJsonLaws, path_of}
use mathlib.Core.List.Memᴰ.{not-nil, cases_cons}

abbrev one_rank : RankEntry
one_rank = record {
  rank = 0;
  tensors = [];
  pack_file = none;
  total_compressed = 5;
  total_raw = 8;
  skipped_count = 0;
  delta_count = 0;
  full_count = 0;
}

abbrev snapshot : Snapshot
snapshot = record {
  id = 2;
  step = 100;
  created_at = 7;
  ranks = (0, one_rank) ∷ [];
  base_snapshot_id = none;
  metadata = [];
  compression = zstd 3;
  finalized = true;
  pinned = true;
}

abbrev manifest : Manifest
manifest = record {
  format_version = 2;
  world_size = 1;
  snapshots = snapshot ∷ [];
  retention = default_retention;
  lineage = default_lineage;
  ranks_written = [];
}

abbrev saved : Manifest
saved = record manifest { ranks_written = 2 ∷ [] }

abbrev empty_disk : Disk
empty_disk = record { files = []; partial = none; locked = λ p. false; refusals = [] }

abbrev saved_disk : Disk
saved_disk = (persist (local_storage 8) numbers manifest empty_disk).1

first_save : persist (local_storage 8) numbers manifest empty_disk ≡ (ok tt, saved_disk, saved)
unfolding persist write_ranks write_index ranks_path local_storage write_parts store write_file
    padded padding join_parts insert remove
first_save = refl

one_snapshot :
    OneContent
      (local_storage 8)
      (local_storage-StorageLaws 8)
      numbers
      numbers-ManifestJsonLaws
      (snapshot ∷ [])
one_snapshot u v i k same = elim (cases_cons i) [
  | inl e ↦ elim (cases_cons k) [
    | inl f ↦ ap (λ w. w.ranks) (e ∙ sym f)
    | inr none_left ↦ absurd (not-nil none_left)
  ]
  | inr none_left ↦ absurd (not-nil none_left)
]

nothing_written :
    OnDisk
      (local_storage 8)
      (local_storage-StorageLaws 8)
      numbers
      numbers-ManifestJsonLaws
      manifest
      empty_disk
nothing_written u i is = absurd cc is

load-persist_example :
    load (local_storage 8) numbers none saved_disk
    ≡ ok (
        some (record manifest {
          format_version = 3;
          ranks_written =
              filed
                (local_storage 8)
                (local_storage-StorageLaws 8)
                numbers
                numbers-ManifestJsonLaws
                (2 ∷ [])
                (snapshot ∷ []);
        }))
load-persist_example =
    load-persist (local_storage 8) (local_storage-StorageLaws 8) numbers numbers-ManifestJsonLaws
      manifest saved empty_disk saved_disk one_snapshot nothing_written first_save

persist-OnDisk_example :
    OnDisk
      (local_storage 8)
      (local_storage-StorageLaws 8)
      numbers
      numbers-ManifestJsonLaws
      saved
      saved_disk
persist-OnDisk_example =
    persist-OnDisk (local_storage 8) (local_storage-StorageLaws 8) numbers numbers-ManifestJsonLaws
      manifest saved empty_disk saved_disk one_snapshot nothing_written first_save

-- The index is refused after the ranks were written.
abbrev failing_disk : Disk
failing_disk = record {
  files = [];
  partial = none;
  locked = λ p. false;
  refusals = none ∷ some renaming ∷ [];
}

abbrev failed_disk : Disk
failed_disk = (persist (local_storage 8) numbers manifest failing_disk).1

manifest_refused :
    persist (local_storage 8) numbers manifest failing_disk ≡ (err storage, failed_disk, saved)
unfolding persist write_ranks write_index ranks_path local_storage write_parts store write_file
    padded padding join_parts insert remove
manifest_refused = refl

persist_failed_example :
    ((local_storage 8).get manifest_file failed_disk
      ≡ (local_storage 8).get manifest_file failing_disk)
    × (saved.snapshots ≡ manifest.snapshots)
persist_failed_example =
    persist_failed_lem (local_storage 8) (local_storage-StorageLaws 8) numbers
      numbers-ManifestJsonLaws manifest saved failing_disk failed_disk storage manifest_refused

abbrev saved_text : List ℕ
saved_text = 3 ∷ 1 ∷ 5 ∷ 10 ∷ 5000 ∷ 10000 ∷ 3 ∷ 2 ∷ 100 ∷ 7 ∷ 3 ∷ 1 ∷ 1 ∷ 1 ∷ []

abbrev saved_head : Head
saved_head = record {
  id = 2;
  step = 100;
  created_at = 7;
  ranks = none;
  ranks_in = some (path_of 2);
  base_snapshot_id = none;
  metadata = [];
  compression = zstd 3;
  finalized = true;
  pinned = true;
}

abbrev saved_index : Index
saved_index = record {
  format_version = 3;
  world_size = 1;
  snapshots = saved_head ∷ [];
  retention = default_retention;
  lineage = default_lineage;
}

index_there : (local_storage 8).get manifest_file saved_disk ≡ ok (saved_text ++ (0 ∷ 0 ∷ []))
unfolding persist write_ranks write_index ranks_path local_storage write_parts store write_file
    padded padding join_parts insert remove lookup
index_there = refl

index_parsed : numbers.index_from_slice (trim_zeros (saved_text ++ (0 ∷ 0 ∷ []))) ≡ some saved_index
unfolding trim_zeros rposition_nonzero
index_parsed = refl

head_own :
    (h : Head)
    → h ≡ saved_head
    → NamesOwnFile
        (local_storage 8)
        (local_storage-StorageLaws 8)
        numbers
        numbers-ManifestJsonLaws
        h
unfolding ranks_path
head_own h e path is =
    let same : path_of 2 ≡ path = cc (sym (ap (λ g. g.ranks_in) e) ∙ is) in
    sym same ∙ ap path_of (ap (λ g. g.id) (sym e))

index_own :
    (bytes : List ℕ) (index : Index) (h : Head)
    → (local_storage 8).get manifest_file saved_disk ≡ ok bytes
    → numbers.index_from_slice (trim_zeros bytes) ≡ some index
    → Memᴰ h index.snapshots
    → NamesOwnFile
        (local_storage 8)
        (local_storage-StorageLaws 8)
        numbers
        numbers-ManifestJsonLaws
        h
index_own bytes index h got parsed i =
    let same_text : saved_text ++ (0 ∷ 0 ∷ []) ≡ bytes = cc (sym index_there ∙ got) in
    let same : saved_index ≡ index =
      cc
        (sym index_parsed ∙ ap (λ t. numbers.index_from_slice (trim_zeros t)) same_text ∙ parsed) in
    elim (cases_cons (rw (← same) at i)) [
      | inl e ↦ head_own h e
      | inr none_left ↦ absurd (not-nil none_left)
    ]

saved_there :
    OnDisk
      (local_storage 8)
      (local_storage-StorageLaws 8)
      numbers
      numbers-ManifestJsonLaws
      saved
      saved_disk
saved_there =
    persist-OnDisk (local_storage 8) (local_storage-StorageLaws 8) numbers numbers-ManifestJsonLaws
      manifest saved empty_disk saved_disk one_snapshot nothing_written first_save

load-held_example :
    load (local_storage 8) numbers (some saved) saved_disk
    ≡ load (local_storage 8) numbers none saved_disk
load-held_example =
    load-held (local_storage 8) (local_storage-StorageLaws 8) numbers numbers-ManifestJsonLaws saved
      saved_disk saved_there index_own
