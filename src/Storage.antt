-- ===== src/Storage.antt =====
-- src/storage.rs: the storage trait as an interface, and the local filesystem behind it.
pub mod Padding
pub mod Local
mod Tests
use moonclip.Prelude.{
  ℕ, zero, suc, ◌+◌, ◌-◌, ◌*◌, ◌%◌, ◌≤◌, ◌<◌, min, ◌≡◌, ◌≢◌, List, [], ◌∷◌, ◌++◌, Bool, true, false,
  not, ◌&&◌, Option, none, some, ◌==◌, ltb, if◌then◌else◌, length, take, drop, replicate,
}
use moonclip.Prelude.Tabulate.{concat}
use moonclip.Prelude.Assoc.{lookup, insert, remove}
use moonclip.Error.{MoonclipError, Result, ok, err, panic, ◌>>=◌}
use Prim.Native.String.{String}
use text.Mathlib.Text.{◌==◌ as str_eq}

abbrev pub FilePath : Type 0
FilePath = String

-- The operations of `StorageBackend` that the other components call, over the state `S` of a store.
-- A write gives the store that it leaves behind beside its result.
pub record StorageBackend (S : Type 0) : Type 0 where
  pub put : FilePath → List ℕ → S → Result (Unit {0}) × S
  pub put_parts : FilePath → List (List ℕ) → S → Result (Unit {0}) × S
  pub put_exact : FilePath → List ℕ → S → Result (Unit {0}) × S
  pub get : FilePath → S → Result (List ℕ)
  pub get_range : FilePath → ℕ → ℕ → S → Result (List ℕ)
  pub exists : FilePath → S → Result Bool
  pub delete : FilePath → S → Result (Unit {0}) × S

-- The trait's `put_parts` writes the parts as one buffer.
unfoldable pub join_parts : List (List ℕ) → List ℕ
join_parts [] = []
join_parts (p ∷ ps) = p ++ join_parts ps

-- What the components rely on: a write that succeeds is read back, perhaps with zeros behind it, and
-- touches no other path; one that fails changes nothing that can be read; a range is a part of the
-- whole; a delete touches no other path; and a write of parts is the write of their concatenation.
pub record StorageLaws {S : Type 0} (b : StorageBackend S) : Type 0 where
  pub get-put_self :
      (p : FilePath) (bytes : List ℕ) (s t : S)
      → b.put p bytes s ≡ (ok tt, t)
      → (n : ℕ) × (b.get p t ≡ ok (bytes ++ replicate n 0))
  pub get-put_ne :
      (p q : FilePath) (bytes : List ℕ) (s : S) → p ≢ q → b.get q (b.put p bytes s).1 ≡ b.get q s
  pub get-put_failed :
      (p q : FilePath) (bytes : List ℕ) (s t : S) (e : MoonclipError)
      → b.put p bytes s ≡ (err e, t)
      → b.get q t ≡ b.get q s
  pub get_range_lem :
      (p : FilePath) (offset len : ℕ) (s : S) (bytes : List ℕ)
      → b.get p s ≡ ok bytes
      → b.get_range p offset len s ≡ ok (take len (drop offset bytes))
  pub put_parts-put :
      (p : FilePath) (parts : List (List ℕ)) (s : S)
      → b.put_parts p parts s ≡ b.put p (join_parts parts) s
  pub get-delete_ne : (p q : FilePath) (s : S) → p ≢ q → b.get q (b.delete p s).1 ≡ b.get q s

-- The trait's `get_range`, for a backend that has none of its own.
unfoldable pub get_range_default : List ℕ → ℕ → ℕ → List ℕ
get_range_default bytes offset len =
    let start = min offset (length bytes) in
    let end = min (start + len) (length bytes) in take (end - start) (drop start bytes)

-- Where the filesystem refuses a write: at the creation of a directory or of the temporary file, after
-- some number of bytes, at the sync, or at the rename.
pub data Refusal : Type 0 where
  creating syncing renaming : Refusal
  writing : ℕ → Refusal

-- A disk: the files; the content of the temporary file of a write; the files that cannot be read or
-- deleted; and for each of the coming writes whether it is refused (none of them once the list is
-- used up). A name of a temporary file is no file's, and a listing leaves it out.
pub record Disk : Type 0 where
  pub files : List (FilePath × List ℕ)
  pub partial : Option (List ℕ)
  pub locked : FilePath → Bool
  pub refusals : List (Option Refusal)

-- The zeros up to the next page boundary, 0 pages for none.
unfoldable pub padding : ℕ → ℕ → ℕ
padding page_size total =
    if ltb 0 page_size && not (total % page_size == 0) then page_size - total % page_size else 0

unfoldable pub padded : ℕ → List (List ℕ) → List ℕ
unfolding padding
padded page_size parts =
    join_parts parts ++ replicate (padding page_size (length (join_parts parts))) 0

-- The directories and the temporary file.
abbrev pub create_partial : Option Refusal → Disk → Result (Unit {0}) × Disk
create_partial (some creating) disk = (err MoonclipError.io, disk)
create_partial r disk = (ok tt, record disk { partial = some [] })

abbrev pub append_to : List ℕ → Option (List ℕ) → Option (List ℕ)
append_to bytes none = none
append_to bytes (some content) = some (content ++ bytes)

-- The parts and the padding, to the temporary file.
abbrev pub append_partial : List ℕ → Option Refusal → Disk → Result (Unit {0}) × Disk
append_partial bytes (some (writing n)) disk =
    (err MoonclipError.io, record disk { partial = append_to (take n bytes) disk.partial })
append_partial bytes r disk = (ok tt, record disk { partial = append_to bytes disk.partial })

abbrev pub sync_partial : Option Refusal → Disk → Result (Unit {0}) × Disk
sync_partial (some syncing) disk = (err MoonclipError.io, disk)
sync_partial r disk = (ok tt, disk)

-- The file that a path stands for after a rename is the new one, which can be read.
abbrev pub renamed : FilePath → Option (List ℕ) → Disk → Disk
renamed path none disk = disk
renamed path (some content) disk = record disk {
  files = insert path content disk.files;
  partial = none;
  locked = λ q. if str_eq path q then false else disk.locked q;
}

abbrev pub rename_partial : FilePath → Option Refusal → Disk → Result (Unit {0}) × Disk
rename_partial path (some renaming) disk = (err MoonclipError.storage, disk)
rename_partial path r disk = (ok tt, renamed path disk.partial disk)

-- `?`, on whose way out the temporary file is deleted.
abbrev pub and_then :
    Result (Unit {0}) × Disk → (Disk → Result (Unit {0}) × Disk) → Result (Unit {0}) × Disk
and_then (ok done, disk) next = next disk
and_then (err e, disk) next = (err e, record disk { partial = none })
and_then (panic, disk) next = (panic, record disk { partial = none })

-- The steps of a write, in their order.
unfoldable pub write_file : FilePath → List ℕ → Option Refusal → Disk → Result (Unit {0}) × Disk
write_file path bytes r disk = and_then (create_partial r disk) (λ created.
    and_then (append_partial bytes r created) (λ written.
      and_then (sync_partial r written)
        (λ synced. and_then (rename_partial path r synced) (λ done. (ok tt, done)))))

unfoldable pub store : FilePath → List ℕ → Disk → Result (Unit {0}) × Disk
unfolding write_file
store path bytes disk = elim disk.refusals [
  | [] ↦ write_file path bytes none disk
  | r ∷ later ↦ write_file path bytes r (record disk { refusals = later })
]

unfoldable pub write_parts : FilePath → List (List ℕ) → ℕ → Disk → Result (Unit {0}) × Disk
unfolding store
write_parts path parts page_size = store path (padded page_size parts)

-- What reading a file comes to.
abbrev read_file : FilePath → Disk → Result (List ℕ)
read_file path disk = elim (lookup path disk.files) [
  | none ↦ err (MoonclipError.not_found path)
  | some bytes ↦ if disk.locked path then err MoonclipError.io else ok bytes
]

get : FilePath → Disk → Result (List ℕ)
get path disk = read_file path disk

-- A seek and a bounded read.
get_range : FilePath → ℕ → ℕ → Disk → Result (List ℕ)
get_range path offset len disk = read_file path disk >>= λ bytes. ok (take len (drop offset bytes))

exists : FilePath → Disk → Result Bool
exists path disk = elim (lookup path disk.files) [ none ↦ ok false | some bytes ↦ ok true ]

delete : FilePath → Disk → Result (Unit {0}) × Disk
delete path disk = elim (lookup path disk.files) [
  | none ↦ (ok tt, disk)
  | some bytes ↦
      if disk.locked path
      then (err MoonclipError.io, disk)
      else (ok tt, record disk { files = remove path disk.files })
]

-- `LocalStorage` with a page size.
unfoldable pub local_storage : ℕ → StorageBackend Disk
unfolding write_parts get get_range exists delete
local_storage page_size = record {
  put = λ path bytes. write_parts path (bytes ∷ []) page_size;
  put_parts = λ path parts. write_parts path parts page_size;
  put_exact = λ path bytes. write_parts path (bytes ∷ []) 0;
  get = get;
  get_range = get_range;
  exists = exists;
  delete = delete;
}

-- The end of the bytes that are not trailing zeros, as the manifest's readers find it.
unfoldable pub rposition_nonzero : List ℕ → Option ℕ
rposition_nonzero [] = none
rposition_nonzero (b ∷ bs) = elim (rposition_nonzero bs) [
  | some i ↦ some (suc i)
  | none ↦ if b == 0 then none else some 0
]

unfoldable pub trim_zeros : List ℕ → List ℕ
unfolding rposition_nonzero
trim_zeros bytes = elim (rposition_nonzero bytes) [ none ↦ [] | some i ↦ take (i + 1) bytes ]
