-- ===== src/Storage/Local.antt =====
-- The local filesystem keeps the laws that the other components rely on.
use moonclip.Prelude.{
  ℕ, ◌≡◌, ◌≢◌, refl, sym, ap, Option, none, some, ◌∙◌, List, [], ◌∷◌, ◌++◌, append-nil, true, false,
  length, take, drop, replicate, arith, if◌then◌else◌, inl, inr, Bool-cases,
}
use moonclip.Prelude.Assoc.{lookup-insert, lookup-remove}
use moonclip.Error.{MoonclipError, ok, err, ◌>>=◌}
use moonclip.Storage.{
  FilePath, StorageLaws, Disk, Refusal, creating, syncing, renaming, writing, write_file,
  join_parts, padding, padded, store, write_parts, get, get_range, delete, local_storage,
}
use text.Mathlib.Text.{◌==◌ as str_eq}
use text.Mathlib.TextEquality.{eq_iff}
use Prim.Native.String.{String}

-- What a path reads after a write that succeeded: the file if it is the path that was written, and
-- else what it read before.
read-write_file_ok :
    (p q : FilePath) (bytes : List ℕ) (r : Option Refusal) (s t : Disk)
    → write_file p bytes r s ≡ (ok tt, t)
    → get q t ≡ (if str_eq p q then ok bytes else get q s)
unfolding write_file get
read-write_file_ok p q bytes none s t h = ground (arith, lookup-insert p q bytes s.files)
read-write_file_ok p q bytes (some creating) s t h = cc
read-write_file_ok p q bytes (some syncing) s t h = cc
read-write_file_ok p q bytes (some renaming) s t h = cc
read-write_file_ok p q bytes (some (writing n)) s t h = cc

-- Another path reads what it read before, whatever comes of the write.
read-write_file_ne :
    (p q : FilePath) (bytes : List ℕ) (r : Option Refusal) (s : Disk)
    → str_eq p q ≡ false
    → get q (write_file p bytes r s).1 ≡ get q s
unfolding write_file get
read-write_file_ne p q bytes none s h = ground (arith, lookup-insert p q bytes s.files)
read-write_file_ne p q bytes (some creating) s h = refl
read-write_file_ne p q bytes (some syncing) s h = refl
read-write_file_ne p q bytes (some renaming) s h = refl
read-write_file_ne p q bytes (some (writing n)) s h = refl

-- A refused write changes no path, the one it is for included.
read-write_file_err :
    (p q : FilePath) (bytes : List ℕ) (r : Option Refusal) (s t : Disk) (e : MoonclipError)
    → write_file p bytes r s ≡ (err e, t)
    → get q t ≡ get q s
unfolding write_file get
read-write_file_err p q bytes none s t e h = cc
read-write_file_err p q bytes (some creating) s t e h = sym (ap (λ w. get q w.1) h)
read-write_file_err p q bytes (some syncing) s t e h = sym (ap (λ w. get q w.1) h)
read-write_file_err p q bytes (some renaming) s t e h = sym (ap (λ w. get q w.1) h)
read-write_file_err p q bytes (some (writing n)) s t e h = sym (ap (λ w. get q w.1) h)

get-store_ok :
    (p q : FilePath) (bytes : List ℕ) (s t : Disk) (rs : List (Option Refusal))
    → s.refusals ≡ rs
    → store p bytes s ≡ (ok tt, t)
    → get q t ≡ (if str_eq p q then ok bytes else get q s)
unfolding store get
get-store_ok p q bytes s t [] e h = read-write_file_ok p q bytes none s t (rw (e, store) at h)
get-store_ok p q bytes s t (r ∷ rs) e h =
    read-write_file_ok p q bytes r (record s { refusals = rs }) t (rw (e, store) at h)

get-store_ne :
    (p q : FilePath) (bytes : List ℕ) (s : Disk) (rs : List (Option Refusal))
    → s.refusals ≡ rs
    → str_eq p q ≡ false
    → get q (store p bytes s).1 ≡ get q s
unfolding store get
get-store_ne p q bytes s [] e h = rw (e, store) (read-write_file_ne p q bytes none s h)
get-store_ne p q bytes s (r ∷ rs) e h =
    rw (e, store) (read-write_file_ne p q bytes r (record s { refusals = rs }) h)

get-store_err :
    (p q : FilePath) (bytes : List ℕ) (s t : Disk) (f : MoonclipError) (rs : List (Option Refusal))
    → s.refusals ≡ rs
    → store p bytes s ≡ (err f, t)
    → get q t ≡ get q s
unfolding store get
get-store_err p q bytes s t f [] e h = read-write_file_err p q bytes none s t f (rw (e, store) at h)
get-store_err p q bytes s t f (r ∷ rs) e h =
    read-write_file_err p q bytes r (record s { refusals = rs }) t f (rw (e, store) at h)

str_eq_refl : (p : String) → str_eq p p ≡ true
str_eq_refl p = (eq_iff p p).1 refl

get_range-get :
    (p : FilePath) (offset len : ℕ) (s : Disk) (bytes : List ℕ)
    → get p s ≡ ok bytes
    → get_range p offset len s ≡ ok (take len (drop offset bytes))
unfolding get get_range
get_range-get p offset len s bytes h = ap (λ r. r >>= λ bs. ok (take len (drop offset bs))) h

get-delete : (p q : FilePath) (s : Disk) → str_eq p q ≡ false → get q (delete p s).1 ≡ get q s
unfolding get delete
get-delete p q s h = ground (arith, lookup-remove p q s.files)

get-write_parts :
    (page_size : ℕ) (p : FilePath) (bytes : List ℕ) (s t : Disk)
    → write_parts p (bytes ∷ []) page_size s ≡ (ok tt, t)
    → get p t ≡ ok (bytes ++ replicate (padding page_size (length (join_parts (bytes ∷ [])))) 0)
unfolding write_parts padded join_parts
get-write_parts page_size p bytes s t h =
    get-store_ok p p _ s t s.refusals refl h ∙ rw (str_eq_refl p, append-nil bytes)

-- The local filesystem, with any page size, keeps the laws of a storage backend. A write that succeeds
-- is read back with nothing but zeros behind it; a write that is refused at any of its steps changes
-- no path, not even its own; no write and no delete changes another path; a range that is read is the
-- part of the whole file; and parts are written as their concatenation is.
pub local_storage-StorageLaws : (page_size : ℕ) → StorageLaws (local_storage page_size)
unfolding local_storage write_parts padded join_parts
local_storage-StorageLaws page_size = record {
  get-put_self = λ p bytes s t h. (
    padding page_size (length (join_parts (bytes ∷ []))),
    get-write_parts page_size p bytes s t h,
  );
  get-put_ne = λ p q bytes s h. get-store_ne p q _ s s.refusals refl (differs p q h);
  get-put_failed = λ p q bytes s t e h. get-store_err p q _ s t e s.refusals refl h;
  get_range_lem = λ p offset len s bytes h. get_range-get p offset len s bytes h;
  put_parts-put = λ p parts s.
      ap (λ bytes. store p (bytes ++ replicate (padding page_size (length bytes)) 0) s)
        (sym (append-nil (join_parts parts)));
  get-delete_ne = λ p q s h. get-delete p q s (differs p q h);
}
  where
    differs : (p q : FilePath) → p ≢ q → str_eq p q ≡ false
    differs p q h = elim (Bool-cases (str_eq p q)) [
      | inl same ↦ absurd (h ((eq_iff p q).0 same))
      | inr other ↦ other
    ]
