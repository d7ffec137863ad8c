-- ===== src/Manifest/Tests.antt =====
-- A store of two full snapshots and their deltas.
use moonclip.Prelude.{
  ℕ, ◌-◌, ◌<◌, List, length, [], ◌∷◌, ◌≡◌, refl, Bool, true, false, ◌&&◌, ◌||◌, Option, none, some,
  ◌==◌,
}
use moonclip.Prelude.Search.{any, contains, sort, dedup}
use moonclip.Manifest.{
  Uuid, Snapshot, Manifest, default_manifest, default_compression, is_based_on, last_full_snapshot,
  pending_delta_count, should_force_full, effective_total_cap, rollback_snapshot_ids,
  protected_snapshot_ids,
}
use moonclip.Manifest.Base.{IsNewestFull, IsLastRun, should_force_full-false}
use moonclip.Manifest.Protected.{protected_snapshot_ids_lem}

abbrev snapshot : Uuid → ℕ → Option Uuid → Bool → Snapshot
snapshot id step base pinned = record {
  id = id;
  step = step;
  created_at = 0;
  ranks = [];
  base_snapshot_id = base;
  metadata = [];
  compression = default_compression;
  finalized = true;
  pinned = pinned;
}

abbrev two_groups : Manifest
two_groups = record (default_manifest) {
  snapshots =
      snapshot 1 0 none false
      ∷ snapshot 2 5 (some 1) true
      ∷ snapshot 3 10000 none false
      ∷ snapshot 4 10005 (some 3) false
      ∷ [];
}

base_of_two : last_full_snapshot two_groups ≡ some (snapshot 3 10000 none false)
unfolding last_full_snapshot
base_of_two = refl

no_full_yet : should_force_full two_groups 10010 ≡ false
unfolding should_force_full effective_total_cap last_full_snapshot pending_delta_count
no_full_yet = refl

should_force_full_example :
    ((b : Snapshot) × IsNewestFull two_groups b
      × (10010 - b.step < two_groups.retention.full_snapshot_every_steps))
    × ((tail : List Snapshot) × IsLastRun two_groups tail
        × (length tail < two_groups.retention.max_deltas_per_full))
    × (1 < effective_total_cap two_groups.retention)
should_force_full_example = should_force_full-false two_groups 10010 no_full_yet

protected_of_two : protected_snapshot_ids two_groups ≡ 1 ∷ 2 ∷ 3 ∷ []
unfolding protected_snapshot_ids rollback_snapshot_ids sort dedup
protected_of_two = refl

protected_snapshot_ids_example : contains (protected_snapshot_ids two_groups) 1 ≡ (
    contains (rollback_snapshot_ids two_groups) 1
    || any (λ s. s.pinned && ((s.id == 1) || is_based_on 1 s)) two_groups.snapshots)
protected_snapshot_ids_example = protected_snapshot_ids_lem two_groups 1
