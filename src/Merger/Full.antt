-- ===== src/Merger/Full.antt =====
-- src/merger.rs: the full merge, which writes the newest delta and its base as one full snapshot. The
-- manifest is locked twice, before the packs are written and after; the UUID and the time of the merged
-- snapshot are parameters.
use moonclip.Prelude.{
  ℕ, ◌%◌, ◌^◌, List, [], ◌∷◌, ◌++◌, map, Bool, not, ◌&&◌, none, some, ◌==◌, leb, if◌then◌else◌,
  length,
}
use moonclip.Prelude.Search.{filter, any, contains, sort, dedup}
use moonclip.Prelude.Assoc.{insert}
use moonclip.Error.{Result, ok, err, panic, ◌>>=◌}
use moonclip.Error.MoonclipError.{not_found}
use moonclip.Manifest.{
  Uuid, CompressionAlgo, RankEntry, Snapshot, Manifest, is_based_on, last_full_snapshot,
  pending_delta_count,
}
use moonclip.Storage.{StorageBackend}
use moonclip.ManifestIo.{ManifestJson}
use moonclip.InFlight.{State, claim, unclaim}
use moonclip.Merger.{
  MergeOutcome, MergerConfig, PendingDeletes, merged, nothing_to_merge, busy, Files, Folded,
  publish, unlink_snapshots, do_stride_merge,
}
use moonclip.Merger.Write.{MergeExternals, Merge, merged_snapshot, merge_ranks}

-- The last delta, in the order of the manifest.
abbrev pub last_of : Snapshot → List Snapshot → Snapshot
last_of s [] = s
last_of s (t ∷ ts) = last_of t ts

-- `sort_by_key(|s| s.step)`, which keeps equal steps in order.
abbrev pub insert_by_step : Snapshot → List Snapshot → List Snapshot
insert_by_step s [] = s ∷ []
insert_by_step s (t ∷ ts) = if leb s.step t.step then s ∷ t ∷ ts else t ∷ insert_by_step s ts

unfoldable pub sort_by_step : List Snapshot → List Snapshot
sort_by_step [] = []
sort_by_step (s ∷ ss) = insert_by_step s (sort_by_step ss)

-- What the first look at the manifest decides: an outcome at once, or a fold of a base and its deltas,
-- of which there is a first, with the claim made.
pub data Plan : Type 0 where
  decided : MergeOutcome → Plan
  fold : Snapshot → Snapshot → List Snapshot → State → Plan

abbrev pub is_delta_of : Uuid → Snapshot → Bool
is_delta_of base s = is_based_on base s && s.finalized

abbrev pub plan_claim : Snapshot → Snapshot → List Snapshot → State → Plan
plan_claim base_snap first rest registry =
    elim (claim (base_snap.id ∷ map (λ s. s.id) (first ∷ rest)) registry) [
      | none ↦ decided busy
      | some claimed ↦ fold base_snap first rest claimed
    ]

unfoldable pub plan_full_merge : Manifest → State → Result Plan
plan_full_merge m registry = elim (last_full_snapshot m) [
  | none ↦ err (not_found "No full snapshot")
  | some base_snap ↦ elim (filter (is_delta_of base_snap.id) m.snapshots) [
    | [] ↦ ok (decided nothing_to_merge)
    | first ∷ rest ↦
        if any (λ s. is_based_on base_snap.id s && not s.finalized) m.snapshots
        then ok (decided busy)
        else ok (plan_claim base_snap first rest registry)
  ]
]

module _ {S : Type 0} (b : StorageBackend S) (j : ManifestJson) (x : MergeExternals)
    (algo : CompressionAlgo) where
  abbrev pub all_ranks : Snapshot → Snapshot → List ℕ
  all_ranks base_snap last_delta =
      dedup (sort (map (λ r. r.0) base_snap.ranks ++ map (λ r. r.0) last_delta.ranks))

  abbrev pub merge_of : Uuid → ℕ → Snapshot → Snapshot → List Snapshot → Merge b j x algo
  merge_of id now base_snap first rest =
      let last_delta = last_of first rest in
      record {
        merged_id = id;
        merged_step = last_delta.step;
        merged_created_at = now;
        merged_metadata =
            insert "merged_deltas" (x.number_text (length (first ∷ rest)))
              (insert "full_merge" "true" last_delta.metadata);
        world_size = length (all_ranks base_snap last_delta) % 2 ^ 32;
      }

  -- The manifest's snapshots with the merged one in the place of those that it holds.
  abbrev pub with_merged : Snapshot → List Uuid → Snapshot → List Snapshot → List Snapshot
  with_merged base_snap delta_ids merged_snap snapshots = sort_by_step (
      filter (λ s. not (contains delta_ids s.id) && not (s.id == base_snap.id)) snapshots
      ++ (merged_snap ∷ []))

  -- The outcome, the files, the manifest and the registry.
  abbrev pub Merging : Type 0
  Merging = Result MergeOutcome × Files b j × Manifest × State

  abbrev pub claimed_ids : Snapshot → List Snapshot → List Uuid
  claimed_ids base_snap deltas = base_snap.id ∷ map (λ s. s.id) deltas

  abbrev pub merge_published :
      Snapshot
      → List Snapshot
      → State
      → List State
      → Files b j
      → Result (Unit {0}) × S × Manifest
      → Merging
  merge_published base_snap deltas claimed states (s, queue) (ok done, t, m) = (
    ok merged,
    unlink_snapshots b j (deltas ++ (base_snap ∷ [])) claimed states (t, queue),
    m,
    unclaim (claimed_ids base_snap deltas) claimed,
  )
  merge_published base_snap deltas claimed states (s, queue) (err e, t, m) =
      (err e, (t, queue), m, unclaim (claimed_ids base_snap deltas) claimed)
  merge_published base_snap deltas claimed states (s, queue) (panic, t, m) =
      (panic, (t, queue), m, unclaim (claimed_ids base_snap deltas) claimed)

  -- With the packs written, under the second lock, where `m` is the manifest by then.
  abbrev pub merge_written :
      Merge b j x algo
      → Snapshot
      → List Snapshot
      → Manifest
      → State
      → List State
      → PendingDeletes
      → Result (List (ℕ × RankEntry)) × S
      → Merging
  merge_written merge base_snap deltas m claimed states queue (ok ranks, s) =
      merge_published base_snap deltas claimed states (s, queue)
        (publish b j m
          (with_merged base_snap (map (λ d. d.id) deltas) (merged_snapshot b j x algo merge ranks)
            m.snapshots)
          s)
  merge_written merge base_snap deltas m claimed states queue (err e, s) =
      (err e, (s, queue), m, unclaim (claimed_ids base_snap deltas) claimed)
  merge_written merge base_snap deltas m claimed states queue (panic, s) =
      (panic, (s, queue), m, unclaim (claimed_ids base_snap deltas) claimed)

  -- `m` and `again` are the manifest under the first and the second lock.
  unfoldable pub do_full_merge :
      Uuid → ℕ → Manifest → Manifest → State → List State → Files b j → Merging
  do_full_merge id now m again registry states (s, queue) = elim (plan_full_merge m registry) [
    | err e ↦ (err e, (s, queue), m, registry)
    | panic ↦ (panic, (s, queue), m, registry)
    | ok plan ↦ elim plan [
      | decided outcome ↦ (ok outcome, (s, queue), m, registry)
      | fold base_snap first rest claimed ↦
          let merge = merge_of id now base_snap first rest in
          let last_delta = last_of first rest in
          merge_written merge base_snap (first ∷ rest) again claimed states queue
            (merge_ranks b j x algo merge last_delta base_snap (all_ranks base_snap last_delta) s)
    ]
  ]

  -- `do_stride_merge` with the depth at which it hands over.
  unfoldable pub check_and_merge :
      MergerConfig → Uuid → ℕ → Manifest → Manifest → State → List State → Files b j → Folded b j
  check_and_merge config id now m again registry states fs =
      if leb config.max_chain_depth (pending_delta_count m)
      then (let (outcome, gs, n, st) = do_full_merge id now m again registry states fs in
          (do done ← outcome; ok tt, gs, n, st))
      else do_stride_merge b j config m registry states fs
