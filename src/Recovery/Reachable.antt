-- ===== src/Recovery/Reachable.antt =====
-- src/coordinator/recovery.rs: the files of a snapshot, and whether each is on the disk or in the bucket.
use moonclip.Prelude.{
  ℕ, List, [], ◌∷◌, ◌++◌, Bool, false, not, ◌||◌, Option, none, some, ◌==◌, if◌then◌else◌,
}
use moonclip.Prelude.Search.{any, all}
use moonclip.Error.{Result, ok, err, panic}
use moonclip.Manifest.{TensorEntry, RankEntry, Snapshot}
use moonclip.Storage.{StorageBackend, FilePath}
use text.Mathlib.Text.{◌==◌ as str_eq}

abbrev pub then_path : Option FilePath → List FilePath → List FilePath
then_path none files = files
then_path (some file) files = file ∷ files

abbrev pub tensor_files : List TensorEntry → List FilePath
tensor_files [] = []
tensor_files (t ∷ ts) = then_path t.filename (tensor_files ts)

abbrev pub is_other_rank : Option ℕ → ℕ → Bool
is_other_rank none id = false
is_other_rank (some r) id = not (r == id)

abbrev pub rank_files : Option ℕ → List (ℕ × RankEntry) → List FilePath
rank_files rank [] = []
rank_files rank ((id, entry) ∷ ranks) =
    let rest = rank_files rank ranks in
    if is_other_rank rank id
    then rest
    else then_path entry.pack_file (tensor_files entry.tensors) ++ rest

unfoldable pub files_of : Snapshot → Option ℕ → List FilePath
files_of snapshot rank = rank_files rank snapshot.ranks

-- `unwrap_or(false)`
abbrev pub or_false : Result Bool → Bool
or_false (ok found) = found
or_false (err e) = false
or_false panic = false

unfoldable pub snapshot_is_reachable :
    {S : Type 0} → StorageBackend S → List FilePath → Snapshot → S → Bool
snapshot_is_reachable b in_bucket snapshot s =
    all (λ file. any (str_eq file) in_bucket || or_false (b.exists file s)) (files_of snapshot none)
