-- ===== src/Retention.antt =====
-- src/coordinator/mod.rs: retention, from `apply_retention` to `remove_snapshots`. The two loops run
-- on fuel, one more than there are snapshots; each round removes one at least.
pub mod Steps
pub mod Loops
pub mod Keeps
pub mod Protects
pub mod Bounds
mod Tests
use moonclip.Prelude.{
  ℕ, zero, suc, List, [], ◌∷◌, ◌++◌, map, Bool, true, false, not, ◌&&◌, ◌||◌, Option, none, some,
  ◌==◌, leb, if◌then◌else◌, length,
}
use moonclip.Prelude.Search.{find, filter, any, contains}
use mathlib.Core.List.{reverse}
use moonclip.Manifest.{Uuid, Snapshot, Manifest}
use moonclip.Manifest.{is_some, is_full, is_based_on, effective_total_cap, protected_snapshot_ids}

-- What the pins file says replaces the flags of the finalized snapshots.
unfoldable pub sync_pins : Option (List ℕ) → Manifest → Manifest
sync_pins none m = m
sync_pins (some steps) m = record m {
  snapshots =
      map (λ s. if s.finalized then record s { pinned = contains steps s.step } else s) m.snapshots;
}

abbrev pub with_snapshots : List Snapshot → Manifest → Manifest
with_snapshots ss m = record m { snapshots = ss }

-- The manifest without these snapshots, and the snapshots.
unfoldable pub remove_snapshots : Manifest → List Uuid → List Snapshot × Manifest
remove_snapshots m to_remove = (
  filter (λ s. contains to_remove s.id) m.snapshots,
  with_snapshots (filter (λ s. not (contains to_remove s.id)) m.snapshots) m,
)

unfoldable pub remove_snapshot_group : Manifest → Uuid → List Snapshot × Manifest
remove_snapshot_group m full_id =
    remove_snapshots m
      (map (λ s. s.id) (filter (λ s. (s.id == full_id) || is_based_on full_id s) m.snapshots))

abbrev pub is_removable_full : List Uuid → Snapshot → Bool
is_removable_full protected s = is_full s && not (contains protected s.id)

-- The oldest full snapshot to go while there are too many, or none.
unfoldable pub excess_full : ℕ → List Uuid → Manifest → Option Snapshot
excess_full max_full protected m =
    if leb (length (filter is_full m.snapshots)) max_full
    then none
    else find (is_removable_full protected) m.snapshots

abbrev pub is_finalized : Snapshot → Bool
is_finalized s = s.finalized

-- No snapshot is computed against `id`.
abbrev pub is_leaf : List Snapshot → Uuid → Bool
is_leaf ss id = not (any (is_based_on id) ss)

abbrev pub is_removable : List Uuid → Uuid → List Snapshot → Snapshot → Bool
is_removable protected newest ss s =
    not (s.id == newest)
    && (not (contains protected s.id) && (is_some s.base_snapshot_id || is_leaf ss s.id))

abbrev pub newest_of : List Snapshot → Option Snapshot
newest_of ss = find is_finalized (reverse ss)

-- The oldest removable snapshot while there are too many, or none.
unfoldable pub excess : ℕ → List Uuid → Manifest → Option Snapshot
excess max_total protected m =
    let finalized = filter is_finalized m.snapshots in
    if leb (length finalized) max_total then none else elim (newest_of m.snapshots) [
      | none ↦ none
      | some newest ↦ find (is_removable protected newest.id m.snapshots) finalized
    ]

-- The first loop: what has been evicted so far is carried along.
unfoldable pub cap_fulls : ℕ → ℕ → List Uuid → List Snapshot → Manifest → List Snapshot × Manifest
cap_fulls zero max_full protected evicted m = (evicted, m)
cap_fulls (suc fuel) max_full protected evicted m = elim (excess_full max_full protected m) [
  | none ↦ (evicted, m)
  | some s ↦
      let (gone, rest) = remove_snapshot_group m s.id in
      cap_fulls fuel max_full protected (evicted ++ gone) rest
]

-- The second loop.
unfoldable pub cap_total : ℕ → ℕ → List Uuid → List Snapshot → Manifest → List Snapshot × Manifest
cap_total zero max_total protected evicted m = (evicted, m)
cap_total (suc fuel) max_total protected evicted m = elim (excess max_total protected m) [
  | none ↦ (evicted, m)
  | some s ↦
      let (gone, rest) = remove_snapshots m (s.id ∷ []) in
      cap_total fuel max_total protected (evicted ++ gone) rest
]

-- Retention once the pins are in: the snapshots evicted and the manifest left.
unfoldable pub evict : Manifest → List Snapshot × Manifest
evict m =
    let protected = protected_snapshot_ids m in
    let max_total = effective_total_cap m.retention in
    let (evicted, capped) =
      cap_fulls (length m.snapshots) m.retention.max_full_snapshots protected [] m in
    cap_total (length capped.snapshots) max_total protected evicted capped

-- `pins` is what `read_pins` returned, if there is a file; its failure, and the write of the manifest
-- at the end, are not part of this.
unfoldable pub apply_retention : Option (List ℕ) → Manifest → List Snapshot × Manifest
apply_retention pins m = evict (sync_pins pins m)
