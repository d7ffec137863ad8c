-- ===== src/ManifestIo.antt =====
-- src/manifest_io.rs: the manifest in storage, an index and a file of ranks for each finalised snapshot.
-- serde_json and the text of a UUID are parameters.
pub mod Files
pub mod RoundTrip
pub mod Order
pub mod Lend
pub mod Numbers
mod Tests
use moonclip.Prelude.{
  ℕ, max, List, [], ◌∷◌, ◌++◌, map, Bool, true, false, not, ◌&&◌, Option, none, some, ◌==◌, length,
  if◌then◌else◌, ◌≡◌,
}
use moonclip.Prelude.Search.{find, filter, contains}
use moonclip.Error.{MoonclipError, Result, ok, err, panic}
use moonclip.Error.MoonclipError.{serialization, not_found}
use moonclip.Manifest.{
  Uuid, RankEntry, CompressionAlgo, Snapshot, RetentionPolicy, LineageConfig, Manifest,
}
use moonclip.Storage.{StorageBackend, FilePath, trim_zeros}
use moonclip.Storage.Padding.{EndsNonzero}
use Prim.Native.String.{String, ◌++◌ as ◌+++◌}

-- `MANIFEST` and `FORMAT_VERSION`
abbrev pub manifest_file : FilePath
manifest_file = "manifest.json"

abbrev pub format_version_out_of_line : ℕ
format_version_out_of_line = 3

abbrev pub Ranks : Type 0
Ranks = List (ℕ × RankEntry)

-- `HeadOut` and `HeadIn`
pub record Head : Type 0 where
  pub id : Uuid
  pub step : ℕ
  pub created_at : ℕ
  pub ranks : Option Ranks
  pub ranks_in : Option FilePath
  pub base_snapshot_id : Option Uuid
  pub metadata : List (String × String)
  pub compression : CompressionAlgo
  pub finalized : Bool
  pub pinned : Bool

-- `IndexOut` and `IndexIn`
pub record Index : Type 0 where
  pub format_version : ℕ
  pub world_size : ℕ
  pub snapshots : List Head
  pub retention : RetentionPolicy
  pub lineage : LineageConfig

-- `serde_json` at the ranks of a snapshot and at an index, and `Display` of a UUID.
pub record ManifestJson : Type 0 where
  pub ranks_to_vec : Uuid × Ranks → Option (List ℕ)
  pub ranks_from_slice : List ℕ → Option (Uuid × Ranks)
  pub index_to_vec : Index → Option (List ℕ)
  pub index_from_slice : List ℕ → Option Index
  pub uuid_text : Uuid → String

-- What serde_json documents: a text that it writes is read back, a left-out field as `none`, and is
-- JSON text, without a zero byte at its end. Two UUIDs have two texts.
pub record ManifestJsonLaws (j : ManifestJson) : Type 0 where
  pub ranks_from_slice-to_vec :
      (ranks : Uuid × Ranks) (text : List ℕ)
      → j.ranks_to_vec ranks ≡ some text
      → j.ranks_from_slice text ≡ some ranks
  pub ranks_ends_nonzero :
      (ranks : Uuid × Ranks) (text : List ℕ) → j.ranks_to_vec ranks ≡ some text → EndsNonzero text
  pub index_from_slice-to_vec :
      (index : Index) (text : List ℕ)
      → j.index_to_vec index ≡ some text
      → j.index_from_slice text ≡ some index
  pub index_ends_nonzero :
      (index : Index) (text : List ℕ) → j.index_to_vec index ≡ some text → EndsNonzero text
  pub uuid_text_injective : (a b : Uuid) → j.uuid_text a ≡ j.uuid_text b → a ≡ b

abbrev pub out_of_line : Snapshot → Bool
out_of_line s = s.finalized && not (length s.ranks == 0)

-- `?` on a write.
abbrev pub then_write {ℓ} :
    {S : Type ℓ} → Result (Unit {0}) × S → (S → Result (Unit {0}) × S) → Result (Unit {0}) × S
then_write (ok done, t) next = next t
then_write (err e, t) next = (err e, t)
then_write (panic, t) next = (panic, t)

module _ {S : Type 0} (b : StorageBackend S) (j : ManifestJson) where
  unfoldable pub ranks_path : Uuid → FilePath
  ranks_path id = "snapshots/" +++ (j.uuid_text id +++ "/ranks.json")

  -- The files of the ranks, one after the other until one is refused.
  unfoldable pub write_ranks : List Snapshot → S → Result (Unit {0}) × S
  write_ranks [] s = (ok tt, s)
  write_ranks (snapshot ∷ rest) s = elim (j.ranks_to_vec (snapshot.id, snapshot.ranks)) [
    | none ↦ (err serialization, s)
    | some body ↦ then_write (b.put (ranks_path snapshot.id) body s) (λ t. write_ranks rest t)
  ]

  -- The head of a snapshot in an index for which the given ids have their own file.
  abbrev pub head_of : List Uuid → Snapshot → Head
  head_of written snapshot = record {
    id = snapshot.id;
    step = snapshot.step;
    created_at = snapshot.created_at;
    ranks = if contains written snapshot.id then none else some snapshot.ranks;
    ranks_in = if contains written snapshot.id then some (ranks_path snapshot.id) else none;
    base_snapshot_id = snapshot.base_snapshot_id;
    metadata = snapshot.metadata;
    compression = snapshot.compression;
    finalized = snapshot.finalized;
    pinned = snapshot.pinned;
  }

  abbrev pub index_of : Manifest → Index
  index_of m = record {
    format_version = format_version_out_of_line;
    world_size = m.world_size;
    snapshots = map (head_of m.ranks_written) m.snapshots;
    retention = m.retention;
    lineage = m.lineage;
  }

  abbrev pub unwritten : Manifest → List Uuid
  unwritten m =
      map (λ s. s.id)
        (filter (λ s. out_of_line s && not (contains m.ranks_written s.id)) m.snapshots)

  -- The manifest once the files are there: what is written, less what is not in it anymore.
  abbrev pub with_written : Manifest → Manifest
  with_written m = record m {
    ranks_written =
        filter (contains (map (λ s. s.id) m.snapshots)) (m.ranks_written ++ unwritten m);
  }

  unfoldable pub write_index : Manifest → S → Result (Unit {0}) × S
  write_index m s = elim (j.index_to_vec (index_of m)) [
    | none ↦ (err serialization, s)
    | some json ↦ b.put manifest_file json s
  ]

  -- The index, once the files are written; else the manifest is as it was.
  abbrev pub then_index : Manifest → Result (Unit {0}) × S → Result (Unit {0}) × S × Manifest
  then_index m (ok done, t) =
      ((write_index (with_written m) t).0, (write_index (with_written m) t).1, with_written m)
  then_index m (err e, t) = (err e, t, m)
  then_index m (panic, t) = (panic, t, m)

  abbrev pub to_write : Manifest → List Snapshot
  to_write m = filter (λ snapshot. contains (unwritten m) snapshot.id) m.snapshots

  -- The result, the storage, and the manifest that the caller holds afterwards.
  unfoldable pub persist : Manifest → S → Result (Unit {0}) × S × Manifest
  persist m s = then_index m (write_ranks (to_write m) s)

  -- `none` for whatever goes wrong.
  unfoldable pub read_ranks : FilePath → Uuid → S → Option Ranks
  read_ranks path id s = elim (b.get path s) [
    | ok bytes ↦ elim (j.ranks_from_slice (trim_zeros bytes)) [
      | none ↦ none
      | some read ↦ if read.0 == id then some read.1 else none
    ]
    | _ ↦ none
  ]

  abbrev pub Held : Type 0
  Held = List (Uuid × Ranks)

  -- The ranks that the manifest in memory lends, the last of an id.
  unfoldable pub held_of : List Uuid → List Snapshot → Held → Held
  held_of written [] held = held
  held_of written (snapshot ∷ rest) held = held_of written rest (
      if contains written snapshot.id
      then (snapshot.id, snapshot.ranks) ∷ filter (λ h. not (h.0 == snapshot.id)) held
      else held)

  abbrev pub held_ranks : Held → Uuid → Option Ranks
  held_ranks held id = elim (find (λ h. h.0 == id) held) [ none ↦ none | some h ↦ some h.1 ]

  -- What was read so far: the snapshots, the ids with a file, and the ids whose file is unreadable.
  pub record Read : Type 0 where
    pub snapshots : List Snapshot
    pub written : List Uuid
    pub unreadable : List Uuid

  abbrev pub snapshot_of : Head → Ranks → Snapshot
  snapshot_of head ranks = record {
    id = head.id;
    step = head.step;
    created_at = head.created_at;
    ranks = ranks;
    base_snapshot_id = head.base_snapshot_id;
    metadata = head.metadata;
    compression = head.compression;
    finalized = head.finalized;
    pinned = head.pinned;
  }

  -- The ranks of a head that names a file: those held in memory, or the file's.
  abbrev pub ranks_of_file : Held → FilePath → Uuid → S → Option Ranks
  ranks_of_file held path id s = elim (held_ranks held id) [
    | some ranks ↦ some ranks
    | none ↦ read_ranks path id s
  ]

  abbrev pub with_inline : Head → Ranks → Read → Read
  with_inline head ranks r = record r { snapshots = snapshot_of head ranks ∷ r.snapshots }

  abbrev pub with_file : Head → Option Ranks → Read → Read
  with_file head (some ranks) r = record r {
    snapshots = snapshot_of head ranks ∷ r.snapshots;
    written = head.id ∷ r.written;
  }
  with_file head none r = record r { unreadable = head.id ∷ r.unreadable }

  unfoldable pub read_heads : Held → List Head → S → Read
  read_heads held [] s = record { snapshots = []; written = []; unreadable = [] }
  read_heads held (head ∷ rest) s = elim head.ranks [
    | some inline ↦ with_inline head inline (read_heads held rest s)
    | none ↦ elim head.ranks_in [
      | some path ↦
          with_file head (ranks_of_file held path head.id s)
            (read_heads (filter (λ h. not (h.0 == head.id)) held) rest s)
      | none ↦ with_inline head [] (read_heads held rest s)
    ]
  ]

  -- `is_none_or(|base| !unreadable.contains(&base))`
  abbrev pub base_is_readable : List Uuid → Snapshot → Bool
  base_is_readable unreadable snapshot = elim snapshot.base_snapshot_id [
    | none ↦ true
    | some base ↦ not (contains unreadable base)
  ]

  abbrev pub manifest_of : Index → Read → Manifest
  manifest_of index read = record {
    format_version = max index.format_version format_version_out_of_line;
    world_size = index.world_size;
    snapshots = filter (base_is_readable read.unreadable) read.snapshots;
    retention = index.retention;
    lineage = index.lineage;
    ranks_written = read.written;
  }

  -- `previous` lends its ranks; what is left of it is replaced by the caller.
  unfoldable pub load : Option Manifest → S → Result (Option Manifest)
  load previous s = elim (b.get manifest_file s) [
    | err (not_found path) ↦ ok none
    | err e ↦ err e
    | panic ↦ panic
    | ok bytes ↦ elim (j.index_from_slice (trim_zeros bytes)) [
      | none ↦ err serialization
      | some index ↦
          let held : Held = elim previous [
            | none ↦ []
            | some m ↦ held_of m.ranks_written m.snapshots []
          ] in
          ok (some (manifest_of index (read_heads held index.snapshots s)))
    ]
  ]
