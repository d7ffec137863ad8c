-- ===== src/Retention/Tests.antt =====
-- Retention of a store whose cap on full snapshots is taken up by a protected one.
use moonclip.Prelude.{
  ℕ, ◌+◌, ◌≤◌, map, [], ◌∷◌, ◌≡◌, refl, Bool, true, false, Option, none, some, length, arith,
}
use moonclip.Prelude.Search.{any, contains, filter, sort, dedup}
use moonclip.Prelude.Member.{Memᴰ}
use mathlib.Core.List.Memᴰ.{head, tail, not-nil}
use moonclip.Manifest.{
  Uuid, Snapshot, Manifest, default_manifest, default_compression, default_retention, is_full,
  effective_total_cap, protected_snapshot_ids, rollback_snapshot_ids,
}
use moonclip.Retention.{
  evict, cap_total, cap_fulls, excess_full, excess, remove_snapshot_group, remove_snapshots,
  newest_of, is_removable_full,
}
use moonclip.Retention.Steps.{IsWellFormed, is_grounded}
use moonclip.Retention.Keeps.{evict-IsWellFormed}
use moonclip.Retention.Protects.{evict_protected, cap_total_newest}
use moonclip.Retention.Bounds.{
  IsCappedFull, IsCapped, evict_accounts, evict_caps, evict_only_protected,
}

abbrev snapshot : Uuid → ℕ → Option Uuid → Bool → Snapshot
snapshot id step base pinned = record {
  id = id;
  step = step;
  created_at = 0;
  ranks = [];
  base_snapshot_id = base;
  metadata = [];
  compression = default_compression;
  finalized = true;
  pinned = pinned;
}

-- A pinned full snapshot, and a new one with its delta; room for one full snapshot.
abbrev pinned_first : Manifest
pinned_first = record (default_manifest) {
  snapshots = snapshot 1 1 none true ∷ snapshot 2 2 none false ∷ snapshot 3 3 (some 2) false ∷ [];
  retention = record (default_retention) { max_full_snapshots = 1 };
}

pinned_first_IsWellFormed : IsWellFormed pinned_first.snapshots
pinned_first_IsWellFormed = (refl, λ s i. grounded s i)
  where
    grounded :
        (s : Snapshot) → Memᴰ s pinned_first.snapshots → is_grounded pinned_first.snapshots s ≡ true
    grounded s (head e) = rw e refl
    grounded s (tail (head e)) = rw e refl
    grounded s (tail (tail (head e))) = rw e refl
    grounded s (tail (tail (tail i))) = absurd (not-nil i)

evict_protected_example :
    filter
      (λ s. contains (protected_snapshot_ids pinned_first) s.id)
      (evict pinned_first).1.snapshots
    ≡ filter (λ s. contains (protected_snapshot_ids pinned_first) s.id) pinned_first.snapshots
evict_protected_example = evict_protected pinned_first pinned_first_IsWellFormed

evict-IsWellFormed_example : IsWellFormed (evict pinned_first).1.snapshots
evict-IsWellFormed_example = evict-IsWellFormed pinned_first pinned_first_IsWellFormed

evict_caps_example :
    IsCappedFull 1 (protected_snapshot_ids pinned_first) (evict pinned_first).1.snapshots
    × IsCapped
        (effective_total_cap pinned_first.retention)
        (protected_snapshot_ids pinned_first)
        (evict pinned_first).1.snapshots
evict_caps_example = evict_caps pinned_first

evict_accounts_example :
    length (filter is_full pinned_first.snapshots)
    ≡ length (filter is_full (evict pinned_first).0)
      + length (filter is_full (evict pinned_first).1.snapshots)
evict_accounts_example = evict_accounts is_full pinned_first

pinned_is_full :
    1
    ≤ length (
        filter is_full (
          filter (λ s. contains (protected_snapshot_ids pinned_first) s.id) pinned_first.snapshots))
unfolding protected_snapshot_ids rollback_snapshot_ids sort dedup
pinned_is_full = omega arith

evict_only_protected_example :
    any (is_removable_full (protected_snapshot_ids pinned_first)) (evict pinned_first).1.snapshots
    ≡ false
evict_only_protected_example =
    evict_only_protected pinned_first pinned_first_IsWellFormed pinned_is_full

cap_total_newest_example :
    newest_of (cap_total 3 1 [] [] pinned_first).1.snapshots ≡ newest_of pinned_first.snapshots
cap_total_newest_example = cap_total_newest 3 1 [] [] pinned_first

-- The newest save and its delta are what goes.
left_of_pinned_first : map (λ s. s.id) (evict pinned_first).1.snapshots ≡ 1 ∷ []
unfolding evict cap_total cap_fulls excess_full excess remove_snapshot_group remove_snapshots
    effective_total_cap protected_snapshot_ids rollback_snapshot_ids sort dedup
left_of_pinned_first = refl
