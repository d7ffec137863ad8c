-- ===== src/Loading.antt =====
-- src/coordinator/mod.rs: loading a snapshot, with its base read once beforehand.
-- One manifest stands for every look that a load takes at it.
pub mod Prefetch
mod Tests
use moonclip.Prelude.{
  ℕ, List, [], ◌∷◌, map, Bool, true, false, not, Option, none, some, ◌==◌, if◌then◌else◌,
}
use moonclip.Prelude.Search.{find, any}
use moonclip.Prelude.Assoc.{lookup, insert}
use moonclip.Error.{MoonclipError, Result, ok, err, panic, ◌>>=◌}
use moonclip.Error.MoonclipError.{not_found}
use moonclip.Manifest.{
  Uuid, TensorStorage, TensorEntry, RankEntry, CompressionAlgo, Snapshot, Manifest, find_snapshot,
  full, delta_xor, skipped, alias,
}
use moonclip.Storage.{StorageBackend, FilePath}
use moonclip.Tensor.{Externals}
use moonclip.Tensor.Load.{PackSource, BaseEntry, whole, ranged, per_file, load_tensor}
use Prim.Native.String.{String}
use text.Mathlib.Text.{◌==◌ as str_eq}
use mathlib.Core.List.{reverse}

-- What a load gives: the bytes of each tensor, by its name.
abbrev pub Loaded : Type 0
Loaded = List (String × List ℕ)

abbrev pub rank_in : List (ℕ × RankEntry) → ℕ → Option RankEntry
rank_in [] rank = none
rank_in ((r, entry) ∷ ranks) rank = if r == rank then some entry else rank_in ranks rank

-- `ok_or_else`
abbrev pub or_not_found {ℓ} : {A : Type ℓ} → String → Option A → Result A
or_not_found what none = err (not_found what)
or_not_found what (some a) = ok a

abbrev pub is_full : TensorStorage → Bool
is_full full = true
is_full delta_xor = false
is_full skipped = false
is_full alias = false

abbrev pub is_alias : TensorStorage → Bool
is_alias full = false
is_alias delta_xor = false
is_alias skipped = false
is_alias alias = true

-- A map from the names, where a later entry of a name replaces an earlier one.
abbrev pub entries_by_name : List TensorEntry → List (String × TensorEntry)
entries_by_name [] = []
entries_by_name (t ∷ ts) =
    let rest = entries_by_name ts in
    if any (λ u. str_eq u.name t.name) ts then rest else (t.name, t) ∷ rest

-- The identifier, the entries, the algorithm and the pack of a base.
abbrev pub BaseContext : Type 0
BaseContext = Uuid × List (String × TensorEntry) × CompressionAlgo × PackSource

-- The text of a missing thing's message is left to its name.
module _ {S D : Type 0} (b : StorageBackend S) (x : Externals D) (s : S) (m : Manifest)
    (rank : ℕ) where
  abbrev pub pack_of : Bool → Option FilePath → Result PackSource
  pack_of whole_pack none = ok per_file
  pack_of whole_pack (some path) =
      if whole_pack then (b.get path s >>= λ bytes. ok (whole bytes)) else ok (ranged path)

  unfoldable pub find_base_tensor_entry_with_pack : Bool → Uuid → String → Result BaseEntry
  find_base_tensor_entry_with_pack whole_pack base_id tensor_name = do
    base_snap ← or_not_found "base" (find_snapshot m base_id)
    rank_entry ← or_not_found "rank" (rank_in base_snap.ranks rank)
    entry ← or_not_found tensor_name (find (λ t. str_eq t.name tensor_name) rank_entry.tensors)
    pack ← pack_of whole_pack rank_entry.pack_file
    ok (entry, base_snap.compression, pack)

  abbrev pub context_of_rank : Snapshot → Option RankEntry → Uuid → Result (Option BaseContext)
  context_of_rank base_snap none base_id = ok none
  context_of_rank base_snap (some entry) base_id = do
    pack ← pack_of true entry.pack_file
    ok (some (base_id, entries_by_name entry.tensors, base_snap.compression, pack))

  abbrev pub context_of : Option Snapshot → Uuid → Result (Option BaseContext)
  context_of none base_id = ok none
  context_of (some base_snap) base_id =
      context_of_rank base_snap (rank_in base_snap.ranks rank) base_id

  -- The base, where some tensor needs it.
  unfoldable pub base_context : Bool → Option Uuid → Result (Option BaseContext)
  base_context false base = ok none
  base_context true none = ok none
  base_context true (some base_id) = context_of (find_snapshot m base_id) base_id

  unfoldable pub resolver : Option BaseContext → Uuid → String → Result BaseEntry
  unfolding find_base_tensor_entry_with_pack
  resolver none base_id tensor_name = find_base_tensor_entry_with_pack true base_id tensor_name
  resolver (some (cached_id, entries, algo, pack)) base_id tensor_name =
      if cached_id == base_id
      then (or_not_found tensor_name (lookup tensor_name entries) >>= λ entry.
          ok (entry, algo, pack))
      else find_base_tensor_entry_with_pack true base_id tensor_name

  abbrev pub with_loaded : String → List ℕ → Loaded → Loaded
  with_loaded name raw loaded = elim (lookup name loaded) [
    | none ↦ (name, raw) ∷ loaded
    | some later ↦ loaded
  ]

  -- The tensors with bytes of their own or of their base; a later one of a name replaces an earlier one.
  unfoldable pub load_stored :
      (Uuid → String → Result BaseEntry) → Snapshot → PackSource → List TensorEntry → Result Loaded
  load_stored resolve snap pack [] = ok []
  load_stored resolve snap pack (entry ∷ entries) =
      let rest = load_stored resolve snap pack entries in
      if is_alias entry.storage
      then rest
      else (load_tensor b x s resolve entry snap.base_snapshot_id snap.compression pack >>= λ raw.
          rest >>= λ loaded. ok (with_loaded entry.name raw loaded))

  -- The second pass: an alias shares the bytes of a tensor that is loaded.
  unfoldable pub load_aliases : List TensorEntry → Loaded → Result Loaded
  load_aliases [] out = ok out
  load_aliases (entry ∷ entries) out = elim (is_alias entry.storage) [
    | false ↦ load_aliases entries out
    | true ↦ or_not_found entry.name entry.alias_of >>= λ target.
        or_not_found target (lookup target out) >>= λ raw.
        load_aliases entries (insert entry.name raw out)
  ]

  abbrev pub load_entries :
      (Uuid → String → Result BaseEntry) → Snapshot → PackSource → List TensorEntry → Result Loaded
  load_entries resolve snap pack entries =
      load_stored resolve snap pack entries >>= load_aliases entries

  unfoldable pub load_in_pool : Uuid → Result Loaded
  load_in_pool snap_id = do
    snap ← or_not_found "snapshot" (find_snapshot m snap_id)
    rank_entry ← or_not_found "rank" (rank_in snap.ranks rank)
    pack ← pack_of true rank_entry.pack_file
    base ←
        base_context (any (λ t. not (is_full t.storage)) rank_entry.tensors) snap.base_snapshot_id
    load_entries (resolver base) snap pack rank_entry.tensors
