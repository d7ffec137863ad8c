-- ===== src/Merger.antt =====
-- src/merger.rs: folding the deltas, and removing the files of what was folded. Reading and writing a
-- full merge is in the modules below.
pub mod Read
pub mod Write
pub mod Full
pub mod Resolve
pub mod Unlink
pub mod Stride
pub mod Layout
pub mod SameBytes
mod Tests
use moonclip.Prelude.{
  ℕ, ◌-◌, List, [], ◌∷◌, ◌++◌, map, Bool, true, false, not, ◌&&◌, ◌||◌, Option, none, some, ◌==◌,
  ltb, leb, if◌then◌else◌, length, drop,
}
use moonclip.Prelude.Search.{find, filter, contains}
use moonclip.Error.{MoonclipError, Result, ok, err, panic}
use moonclip.Manifest.{Uuid, RankEntry, TensorEntry, Snapshot, Manifest, pending_delta_count}
use moonclip.Storage.{StorageBackend, FilePath}
use moonclip.ManifestIo.{ManifestJson, ranks_path, persist}
use moonclip.InFlight.{State, claim, unclaim, wait_until_unpinned}
use moonclip.Retention.{with_snapshots}
use mathlib.Core.List.{reverse}

pub record MergerConfig : Type 0 where
  pub stride : ℕ
  pub max_chain_depth : ℕ

pub data MergeOutcome : Type 0 where
  merged nothing_to_merge busy : MergeOutcome

-- src/remote_sync.rs: `PendingDeletes`
pub record PendingDeletes : Type 0 where
  pub keys : List FilePath
  pub collecting : Bool

unfoldable pub push : FilePath → PendingDeletes → PendingDeletes
push key queue =
    if queue.collecting then record queue { keys = queue.keys ++ (key ∷ []) } else queue

unfoldable pub drain : PendingDeletes → List FilePath × PendingDeletes
drain queue = (queue.keys, record queue { keys = [] })

-- `snap.ranks.get(&rank)`
abbrev pub rank_of : ℕ → Snapshot → Option RankEntry
rank_of rank snap = elim (find (λ r. r.0 == rank) snap.ranks) [ none ↦ none | some r ↦ some r.1 ]

-- `==` of two optional ids
abbrev pub same_base : Option Uuid → Option Uuid → Bool
same_base none none = true
same_base (some a) (some b) = a == b
same_base _ _ = false

module _ {S : Type 0} (b : StorageBackend S) (j : ManifestJson) where
  -- The store and the queue of keys for the remote.
  abbrev pub Files : Type 0
  Files = S × PendingDeletes

  -- A failed delete is passed over.
  abbrev pub remove_file : FilePath → Files → Files
  remove_file path (s, queue) = ((b.delete path s).1, push path queue)

  unfoldable pub remove_files : List FilePath → Files → Files
  remove_files [] fs = fs
  remove_files (path ∷ paths) fs = remove_files paths (remove_file path fs)

  abbrev pub optional : Option FilePath → List FilePath
  optional none = []
  optional (some path) = path ∷ []

  unfoldable pub tensor_files : List TensorEntry → List FilePath
  tensor_files [] = []
  tensor_files (t ∷ ts) = optional t.filename ++ tensor_files ts

  -- The pack of every rank, and the tensors that have a file of their own.
  unfoldable pub files_of : List (ℕ × RankEntry) → List FilePath
  unfolding tensor_files
  files_of [] = []
  files_of (r ∷ ranks) = (optional r.1.pack_file ++ tensor_files r.1.tensors) ++ files_of ranks

  -- `exists(..).unwrap_or(false)`
  abbrev pub is_there : FilePath → S → Bool
  is_there path s = elim (b.exists path s) [ ok there ↦ there | err e ↦ false | panic ↦ false ]

  abbrev pub remove_ranks : Snapshot → Files → Files
  remove_ranks snap fs =
      if is_there (ranks_path b j snap.id) fs.0 then remove_file (ranks_path b j snap.id) fs else fs

  -- The directory that is removed at the end is an empty one, or stays.
  unfoldable pub unlink_files : List Snapshot → Files → Files
  unfolding files_of
  unlink_files [] fs = fs
  unlink_files (snap ∷ doomed) fs =
      unlink_files doomed (remove_ranks snap (remove_files (files_of snap.ranks) fs))

  -- `states` are those of the registry at the wake-ups of the wait.
  unfoldable pub unlink_snapshots : List Snapshot → State → List State → Files → Files
  unfolding unlink_files
  unlink_snapshots [] registry states fs = fs
  unlink_snapshots (snap ∷ doomed) registry states fs =
      if wait_until_unpinned (map (λ s. s.id) (snap ∷ doomed)) registry states
      then unlink_files (snap ∷ doomed) fs
      else fs

  -- The manifest less some snapshots, on storage and in memory; where the write fails the snapshots in
  -- memory stay.
  unfoldable pub publish : Manifest → List Snapshot → S → Result (Unit {0}) × S × Manifest
  publish m snapshots s =
      let (result, t, published) = persist b j (with_snapshots snapshots m) s in
      elim result [
        | ok done ↦ (ok tt, t, published)
        | err e ↦ (err e, t, with_snapshots m.snapshots published)
        | panic ↦ (panic, t, published)
      ]

  -- The trailing deltas.
  abbrev pub tail_of : Manifest → List Snapshot
  tail_of m = drop (length m.snapshots - pending_delta_count m) m.snapshots

  abbrev pub superseded_by : Snapshot → List Snapshot → List Uuid
  superseded_by survivor tail =
      map (λ s. s.id)
        (filter
          (λ s.
            s.finalized
            && (not (s.id == survivor.id)
                && same_base s.base_snapshot_id survivor.base_snapshot_id))
          tail)

  -- The snapshots that a fold drops, for its reader-free moment.
  unfoldable pub to_fold : MergerConfig → Manifest → List Uuid
  to_fold config m =
      if (config.stride == 0) || ltb (pending_delta_count m) config.stride
      then []
      else elim (find (λ s. s.finalized) (reverse (tail_of m))) [
        | none ↦ []
        | some survivor ↦ superseded_by survivor (tail_of m)
      ]

  -- What a fold leaves: its result, the files, the manifest and the registry.
  abbrev pub Folded : Type 0
  Folded = Result (Unit {0}) × Files × Manifest × State

  abbrev pub without : List Uuid → List Snapshot → List Snapshot
  without ids snapshots = filter (λ s. not (contains ids s.id)) snapshots

  abbrev pub fold_published :
      List Uuid
      → Manifest
      → State
      → List State
      → PendingDeletes
      → Result (Unit {0}) × S × Manifest
      → Folded
  fold_published ids m claimed states queue (ok done, t, published) = (
    ok tt,
    unlink_snapshots (filter (λ s. contains ids s.id) m.snapshots) claimed states (t, queue),
    published,
    unclaim ids claimed,
  )
  fold_published ids m claimed states queue (err e, t, published) =
      (err e, (t, queue), published, unclaim ids claimed)
  fold_published ids m claimed states queue (panic, t, published) =
      (panic, (t, queue), published, unclaim ids claimed)

  -- `do_stride_merge` below the depth at which it hands over to the full merge.
  unfoldable pub do_stride_merge : MergerConfig → Manifest → State → List State → Files → Folded
  unfolding unlink_snapshots publish to_fold
  do_stride_merge config m registry states (s, queue) = elim (to_fold config m) [
    | [] ↦ (ok tt, (s, queue), m, registry)
    | id ∷ ids ↦ elim (claim (id ∷ ids) registry) [
      | none ↦ (ok tt, (s, queue), m, registry)
      | some claimed ↦
          fold_published (id ∷ ids) m claimed states queue
            (publish m (without (id ∷ ids) m.snapshots) s)
    ]
  ]
