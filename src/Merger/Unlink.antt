-- ===== src/Merger/Unlink.antt =====
-- What an unlink takes away, and what it leaves.
use moonclip.Prelude.{
  ℕ, ◌++◌, sym, ap, Option, none, some, not, Bool, All, ◌≡◌, ◌≢◌, refl, ◌∙◌, List, [], ◌∷◌, map,
  false, inl, inr, Bool-cases, ◌⊎◌,
}
use moonclip.Prelude.Member.{Memᴰ, In-append}
use moonclip.Prelude.Search.{any, contains}
use moonclip.Manifest.{Uuid, Snapshot, RankEntry, TensorEntry}
use moonclip.Storage.{StorageBackend, StorageLaws, FilePath}
use moonclip.ManifestIo.{ManifestJson, ranks_path}
use moonclip.InFlight.{System, Reachable, wait_until_unpinned}
use moonclip.InFlight.Readers.{wait_until_unpinned_lem}
use moonclip.Merger.{
  Files, remove_file, remove_files, files_of, is_there, remove_ranks, unlink_files,
  unlink_snapshots, optional, tensor_files,
}
use mathlib.Core.List.Memᴰ.{head, tail, not-nil, cases_cons}

-- A rank's part names a file: its pack, or the own file of one of its tensors.
abbrev pub IsOfRank : RankEntry → FilePath → Type 0
IsOfRank entry q =
    (entry.pack_file ≡ some q) ⊎ ((t : TensorEntry) × Memᴰ t entry.tensors × (t.filename ≡ some q))

-- In one of the states no reader is inside any of the given snapshots.
abbrev pub some_free : List Uuid → List System → Bool
some_free ids states =
    any (λ t. not (any (λ id. any (λ held. contains held id) t.readers) ids)) states

module _ {S : Type 0} (b : StorageBackend S) (laws : StorageLaws b) (j : ManifestJson) where
  -- All files of a snapshot.
  abbrev pub all_files : Snapshot → List FilePath
  all_files snap = ranks_path b j snap.id ∷ files_of b j snap.ranks

  remove_files_keep :
      (q : FilePath) (paths : List FilePath) (fs : Files b j)
      → ((p : FilePath) → Memᴰ p paths → p ≢ q)
      → b.get q (remove_files b j paths fs).0 ≡ b.get q fs.0
  unfolding remove_files
  remove_files_keep q [] fs other = refl
  remove_files_keep q (p ∷ paths) fs other =
      remove_files_keep q paths (remove_file b j p fs) (λ r i. other r (tail i))
      ∙ laws.get-delete_ne p q fs.0 (other p (head refl))

  remove_ranks_keep :
      (q : FilePath) (snap : Snapshot) (fs : Files b j)
      → ranks_path b j snap.id ≢ q
      → b.get q (remove_ranks b j snap fs).0 ≡ b.get q fs.0
  remove_ranks_keep q snap fs other =
      elim (Bool-cases (is_there b j (ranks_path b j snap.id) fs.0)) [
        | inl there ↦
            rw (remove_ranks, there) (laws.get-delete_ne (ranks_path b j snap.id) q fs.0 other)
        | inr gone ↦ rw (remove_ranks, gone) refl
      ]

  unlink_files_keep :
      (q : FilePath) (doomed : List Snapshot) (fs : Files b j)
      → ((snap : Snapshot) (p : FilePath) → Memᴰ snap doomed → Memᴰ p (all_files snap) → p ≢ q)
      → b.get q (unlink_files b j doomed fs).0 ≡ b.get q fs.0
  unfolding unlink_files
  unlink_files_keep q [] fs other = refl
  unlink_files_keep q (snap ∷ doomed) fs other =
      unlink_files_keep q doomed
        (remove_ranks b j snap (remove_files b j (files_of b j snap.ranks) fs))
        (λ u p i. other u p (tail i))
      ∙ remove_ranks_keep q snap (remove_files b j (files_of b j snap.ranks) fs)
          (other snap _ (head refl) (head refl))
      ∙ remove_files_keep q (files_of b j snap.ranks) fs (λ p i. other snap p (head refl) (tail i))

  -- A snapshot names a file: that of its ranks, or one that a rank's part names.
  abbrev pub IsOf : Snapshot → FilePath → Type 0
  IsOf snap q =
      (ranks_path b j snap.id ≡ q) ⊎ ((r : ℕ × RankEntry) × Memᴰ r snap.ranks × IsOfRank r.1 q)

  In-optional : (path : Option FilePath) (q : FilePath) → Memᴰ q (optional b j path) → path ≡ some q
  In-optional none q i = absurd (not-nil i)
  In-optional (some path) q i = elim (cases_cons i) [
    | inl e ↦ ap some (sym e)
    | inr none_left ↦ absurd (not-nil none_left)
  ]

  In-tensor_files :
      (ts : List TensorEntry) (q : FilePath)
      → Memᴰ q (tensor_files b j ts)
      → (t : TensorEntry) × Memᴰ t ts × (t.filename ≡ some q)
  unfolding tensor_files
  In-tensor_files [] q i = absurd (not-nil i)
  In-tensor_files (t ∷ ts) q i = elim (In-append (optional b j t.filename) _ q i) [
    | inl own ↦ (t, head refl, In-optional t.filename q own)
    | inr later ↦ let (u, k, e) = In-tensor_files ts q later in (u, tail k, e)
  ]

  In-files_of :
      (ranks : List (ℕ × RankEntry)) (q : FilePath)
      → Memᴰ q (files_of b j ranks)
      → (r : ℕ × RankEntry) × Memᴰ r ranks × IsOfRank r.1 q
  unfolding files_of
  In-files_of [] q i = absurd (not-nil i)
  In-files_of (r ∷ ranks) q i =
      elim (In-append (optional b j r.1.pack_file ++ tensor_files b j r.1.tensors) _ q i) [
        | inr later ↦ let (u, k, e) = In-files_of ranks q later in (u, tail k, e)
        | inl own ↦ (
          r,
          head refl,
          elim (In-append (optional b j r.1.pack_file) _ q own) [
            | inl pack ↦ inl (In-optional r.1.pack_file q pack)
            | inr files ↦ inr (In-tensor_files r.1.tensors q files)
          ],
        )
      ]

  all_files-IsOf : (snap : Snapshot) (q : FilePath) → Memᴰ q (all_files snap) → IsOf snap q
  all_files-IsOf snap q i = elim (cases_cons i) [
    | inl own ↦ inl (sym own)
    | inr later ↦ inr (In-files_of snap.ranks q later)
  ]

  -- An unlink leaves every file that none of the dropped snapshots names. It leaves all files where in
  -- every state of the threads that its wait for readers sees, the first and those it wakes up in
  -- before the deadline, a reader is inside one of the dropped snapshots.
  pub unlink_snapshots_lem :
      (q : FilePath) (doomed : List Snapshot) (now : System) (later : List System) (fs : Files b j)
      → Reachable now
      → All Reachable later
      → (some_free (map (λ s. s.id) doomed) (now ∷ later) ≡ false)
        ⊎ ((snap : Snapshot) → Memᴰ snap doomed → ¬ (IsOf snap q))
      → b.get q (unlink_snapshots b j doomed now.registry (map (λ t. t.registry) later) fs).0
        ≡ b.get q fs.0
  unfolding unlink_snapshots
  unlink_snapshots_lem q [] now later fs r rs h = refl
  unlink_snapshots_lem q (snap ∷ doomed) now later fs r rs (inl read) =
      rw
        (
          unlink_snapshots,
          wait_until_unpinned_lem (map (λ s. s.id) (snap ∷ doomed)) now later r rs ∙ read,
        )
        refl
  unlink_snapshots_lem q (snap ∷ doomed) now later fs r rs (inr other) =
      let waited =
        wait_until_unpinned (map (λ s. s.id) (snap ∷ doomed)) now.registry
          (map (λ t. t.registry) later) in
      elim (Bool-cases waited) [
        | inl free ↦
            rw (unlink_snapshots, free)
              (unlink_files_keep q (snap ∷ doomed) fs
                (λ u p i k e. other u i (rw e at (all_files-IsOf u p k))))
        | inr read ↦ rw (unlink_snapshots, read) refl
      ]
