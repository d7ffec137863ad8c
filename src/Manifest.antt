-- ===== src/Manifest.antt =====
-- src/manifest.rs: the manifest's data, and the queries that the save path and retention make.
mod Types
pub mod Base
pub mod Protected
mod Tests
pub use Types.*
use moonclip.Prelude.{
  ℕ, zero, suc, ◌+◌, ◌-◌, ◌*◌, ◌%◌, ◌^◌, List, [], ◌∷◌, ◌++◌, map, Bool, true, false, not, ◌&&◌,
  ◌||◌, Option, none, some, ◌==◌, ltb, leb, if◌then◌else◌, length, take,
}
use moonclip.Prelude.Search.{find, filter, any, contains, count_while, sort, dedup}
use mathlib.Core.List.{reverse}
use mathlib.Core.Option.{get_or}

-- A usize is 64 bits wide.
abbrev pub usize : ℕ → ℕ
usize n = n % 2 ^ 64

abbrev pub is_some {ℓ} : {A : Type ℓ} → Option A → Bool
is_some none = false
is_some (some a) = true

-- `base_snapshot_id.is_none() && finalized`
abbrev pub is_full : Snapshot → Bool
is_full s = not (is_some s.base_snapshot_id) && s.finalized

-- `base_snapshot_id == Some(id)`
abbrev pub is_based_on : Uuid → Snapshot → Bool
is_based_on id s = elim s.base_snapshot_id [ none ↦ false | some base ↦ base == id ]

unfoldable pub effective_total_cap : RetentionPolicy → ℕ
effective_total_cap r = elim r.max_total_snapshots [
  | some cap ↦ cap
  | none ↦ usize (r.max_full_snapshots * (1 + r.max_deltas_per_full))
]

unfoldable pub last_full_snapshot : Manifest → Option Snapshot
last_full_snapshot m = find is_full (reverse m.snapshots)

unfoldable pub find_snapshot : Manifest → Uuid → Option Snapshot
find_snapshot m id = find (λ s. s.id == id) m.snapshots

unfoldable pub pending_delta_count : Manifest → ℕ
pending_delta_count m = count_while (λ s. is_some s.base_snapshot_id) (reverse m.snapshots)

-- `saturating_sub` is the subtraction of ℕ, which stops at 0.
unfoldable pub should_force_full : Manifest → ℕ → Bool
should_force_full m step =
    if length m.snapshots == 0
    then true
    else if leb (effective_total_cap m.retention) 1
    then true
    else elim (last_full_snapshot m) [
      | none ↦ true
      | some last_full ↦
          if leb m.retention.full_snapshot_every_steps (step - last_full.step)
          then true
          else if leb m.retention.max_deltas_per_full (pending_delta_count m)
          then true
          else false
    ]

-- On the rollback interval; the interval is not 0.
abbrev pub is_rollback : ℕ → Snapshot → Bool
is_rollback interval s = is_full s && (s.step % interval == 0)

unfoldable pub rollback_snapshot_ids : Manifest → List Uuid
rollback_snapshot_ids m =
    if (m.lineage.rollback_interval_steps == 0) || (m.lineage.max_rollback_snapshots == 0)
    then []
    else reverse (
        map (λ s. s.id)
          (take m.lineage.max_rollback_snapshots
            (filter (is_rollback m.lineage.rollback_interval_steps) (reverse m.snapshots))))

-- The pinned snapshots and the bases of the pinned deltas.
pinned_ids : List Snapshot → List Uuid
pinned_ids [] = []
pinned_ids (s ∷ ss) =
    let rest = pinned_ids ss in
    if s.pinned
    then s.id ∷ elim s.base_snapshot_id [ none ↦ rest | some base ↦ base ∷ rest ]
    else rest

unfoldable pub protected_snapshot_ids : Manifest → List Uuid
unfolding pinned_ids
protected_snapshot_ids m = dedup (sort (rollback_snapshot_ids m ++ pinned_ids m.snapshots))
