-- ===== src/Manifest/Base.antt =====
-- Which snapshot a delta is taken against, and when a full one is forced.
use moonclip.Prelude.{
  ℕ, ◌-◌, ◌<◌, ◌≡◌, ap, ◌∙◌, List, [], ◌∷◌, ◌++◌, true, false, some, length, All, arith, ◌⊎◌, inl,
  inr,
}
use moonclip.Prelude.Search.{
  any, find_split, any-reverse, reverse_swap, reverse_around, length-reverse, All-reverse,
  count_while_split,
}
use mathlib.Core.List.{reverse, reverse-append}
use moonclip.Manifest.Types.{Snapshot, Manifest}
use moonclip.Manifest.{
  is_some, is_full, effective_total_cap, last_full_snapshot, pending_delta_count, should_force_full,
}

-- `last_full_snapshot` returns the newest finalized full snapshot: it is one, and no snapshot behind
-- it in the manifest is.
pub last_full_snapshot-some :
    (m : Manifest) (b : Snapshot)
    → last_full_snapshot m ≡ some b
    → (older newer : List Snapshot) × (m.snapshots ≡ older ++ (b ∷ newer))
      × (is_full b ≡ true)
      × (any is_full newer ≡ false)
unfolding last_full_snapshot
last_full_snapshot-some m b h =
    let (front, back, e, full, others) = find_split is_full (reverse m.snapshots) b h in
    (
      reverse back,
      reverse front,
      reverse_swap m.snapshots (front ++ (b ∷ back)) e ∙ reverse_around front back b,
      full,
      any-reverse is_full front ∙ others,
    )

-- The manifest ends in a run of deltas, `pending_delta_count` of them, and in front of the run there
-- is nothing, or a full snapshot.
pub pending_delta_count_lem :
    (m : Manifest)
    → (front tail : List Snapshot) × (m.snapshots ≡ front ++ tail)
      × (length tail ≡ pending_delta_count m)
      × All (λ s. is_some s.base_snapshot_id ≡ true) tail
      × ((front ≡ [])
          ⊎ ((s : Snapshot) × (older : List Snapshot) × (front ≡ older ++ (s ∷ []))
              × (is_some s.base_snapshot_id ≡ false)))
unfolding pending_delta_count
pending_delta_count_lem m =
    let (run, rest, e, n, deltas, ends) =
      count_while_split (λ (s : Snapshot). is_some s.base_snapshot_id) (reverse m.snapshots) in
    (
      reverse rest,
      reverse run,
      reverse_swap m.snapshots (run ++ rest) e ∙ reverse-append run rest,
      length-reverse run ∙ n,
      All-reverse _ run deltas,
      elim ends [
        | inl none_left ↦ inl (ap reverse none_left)
        | inr (s, older, is, full) ↦
            inr (s, reverse older, ap reverse is ∙ reverse-append (s ∷ []) older, full)
      ],
    )

-- A finalized full snapshot of the manifest with no other one behind it.
abbrev pub IsNewestFull : Manifest → Snapshot → Type 0
IsNewestFull m b =
    (older newer : List Snapshot) × (m.snapshots ≡ older ++ (b ∷ newer))
    × (is_full b ≡ true)
    × (any is_full newer ≡ false)

-- The longest run of deltas at the manifest's end.
abbrev pub IsLastRun : Manifest → List Snapshot → Type 0
IsLastRun m tail =
    (front : List Snapshot) × (m.snapshots ≡ front ++ tail)
    × All (λ s. is_some s.base_snapshot_id ≡ true) tail
    × ((front ≡ [])
        ⊎ ((s : Snapshot) × (older : List Snapshot) × (front ≡ older ++ (s ∷ []))
            × (is_some s.base_snapshot_id ≡ false)))

guards_passed :
    (m : Manifest) (step : ℕ)
    → should_force_full m step ≡ false
    → (b : Snapshot) × (last_full_snapshot m ≡ some b)
      × (step - b.step < m.retention.full_snapshot_every_steps)
      × (pending_delta_count m < m.retention.max_deltas_per_full)
      × (1 < effective_total_cap m.retention)
unfolding should_force_full
guards_passed m step h = ground arith

-- When no full snapshot is forced, the manifest has a newest finalized full snapshot, which is fewer
-- steps old than the interval; the run of deltas that the manifest ends in, finalized or not, is
-- shorter than the allowed number; and the cap on all snapshots leaves room for two.
pub should_force_full-false :
    (m : Manifest) (step : ℕ)
    → should_force_full m step ≡ false
    → ((b : Snapshot) × IsNewestFull m b × (step - b.step < m.retention.full_snapshot_every_steps))
      × ((tail : List Snapshot) × IsLastRun m tail
          × (length tail < m.retention.max_deltas_per_full))
      × (1 < effective_total_cap m.retention)
should_force_full-false m step h =
    let (b, newest, steps, deltas, cap) = guards_passed m step h in
    let (front, tail, e, n, all_deltas, before) = pending_delta_count_lem m in
    (
      (b, last_full_snapshot-some m b newest, steps),
      (tail, (front, e, all_deltas, before), omega (arith, n, deltas)),
      cap,
    )
