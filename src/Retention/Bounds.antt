-- ===== src/Retention/Bounds.antt =====
-- The caps that retention meets, and what it evicts to meet them.
use moonclip.Prelude.{
  ℕ, ◌+◌, ◌≤◌, ◌≡◌, refl, sym, ap, ◌∙◌, List, [], ◌∷◌, ◌++◌, Bool, false, not, none, some, leb,
  length, length-append, arith, ◌⊎◌, inl, inr, Bool-cases, Option-cases, leb→le,
}
use moonclip.Prelude.Search.{
  filter, any, contains, find-none, filter-append, filter-none, any-length-filter, any-reverse,
}
use moonclip.Prelude.Member.{length-filter_split, any-filter-false}
use mathlib.Core.List.{reverse}
use moonclip.Manifest.{
  Uuid, Snapshot, Manifest, is_full, protected_snapshot_ids, effective_total_cap,
}
use moonclip.Retention.{
  is_removable_full, excess_full, is_finalized, is_removable, newest_of, excess, cap_fulls, evict,
}
use moonclip.Retention.Steps.{IsWellFormed, group_ids}
use moonclip.Retention.Loops.{without, among, cap_fulls_done, cap_total_done, cap_total_ind}
use moonclip.Retention.Keeps.{evict_ind}
use moonclip.Retention.Protects.{evict_protected}

-- The evicted snapshots and those left are the snapshots there were: each test counts the same.
pub evict_accounts :
    (p : Snapshot → Bool) (m : Manifest)
    → length (filter p m.snapshots)
      ≡ length (filter p (evict m).0) + length (filter p (evict m).1.snapshots)
evict_accounts p m =
    evict_ind
      (λ evicted r.
        length (filter p m.snapshots) ≡ length (filter p evicted) + length (filter p r.snapshots))
      m (λ evicted r s h same. split evicted (group_ids r.snapshots s.id) r.snapshots same)
      (λ evicted r s h same. split evicted (s.id ∷ []) r.snapshots same) (omega arith)
  where
    split :
        (evicted : List Snapshot) (ids : List Uuid) (ss : List Snapshot)
        → length (filter p m.snapshots) ≡ length (filter p evicted) + length (filter p ss)
        → length (filter p m.snapshots)
          ≡ length (filter p (evicted ++ among ids ss)) + length (filter p (without ids ss))
    split evicted ids ss same = rw (filter-append p evicted (among ids ss)) (
        omega (
          arith,
          length-append (filter p evicted) (filter p (among ids ss)),
          length-filter_split p (λ (s : Snapshot). contains ids s.id) ss,
        ))

-- The number of full snapshots is within its cap, or each of them is protected.
abbrev pub IsCappedFull : ℕ → List Uuid → List Snapshot → Type 0
IsCappedFull max_full protected ss =
    (length (filter is_full ss) ≤ max_full) ⊎ (any (is_removable_full protected) ss ≡ false)

-- The number of snapshots is within its cap, or none can be removed.
abbrev pub IsCapped : ℕ → List Uuid → List Snapshot → Type 0
IsCapped max_total protected ss =
    (length (filter is_finalized ss) ≤ max_total)
    ⊎ ((newest : Snapshot) × (newest_of ss ≡ some newest)
        × (any (is_removable protected newest.id ss) (filter is_finalized ss) ≡ false))

excess_full-none :
    (n : ℕ) (protected : List Uuid) (m : Manifest)
    → excess_full n protected m ≡ none
    → IsCappedFull n protected m.snapshots
unfolding excess_full
excess_full-none n protected m h = elim (Bool-cases (leb (length (filter is_full m.snapshots)) n)) [
  | inl within ↦ inl (leb→le _ _ within)
  | inr over ↦ inr (find-none (is_removable_full protected) m.snapshots (rw over at h))
]

excess-none :
    (n : ℕ) (protected : List Uuid) (m : Manifest)
    → excess n protected m ≡ none
    → IsCapped n protected m.snapshots
unfolding excess
excess-none n protected m h = elim (Bool-cases (leb (length (filter is_finalized m.snapshots)) n)) [
  | inl within ↦ inl (leb→le _ _ within)
  | inr over ↦ elim (Option-cases (newest_of m.snapshots)) [
    | inl empty ↦
        let no_one =
          sym (any-reverse is_finalized m.snapshots)
          ∙ find-none is_finalized (reverse m.snapshots) empty in
        let nothing : length (filter is_finalized m.snapshots) ≡ 0 =
          ap (λ xs. length xs) (filter-none is_finalized m.snapshots no_one) in
        inl (omega (arith, nothing))
    | inr (newest, is) ↦ inr (
      newest,
      is,
      find-none (is_removable protected newest.id m.snapshots) (filter is_finalized m.snapshots)
          (rw (over, is) at h),
    )
  ]
]

less :
    (n : ℕ) (protected : List Uuid) (ids : List Uuid) (ss : List Snapshot)
    → IsCappedFull n protected ss
    → IsCappedFull n protected (without ids ss)
less n protected ids ss (inl within) =
    inl (omega (arith, length-filter_split is_full (λ (s : Snapshot). contains ids s.id) ss))
less n protected ids ss (inr blocked) =
    inr (any-filter-false (is_removable_full protected) (λ s. not (contains ids s.id)) ss blocked)

-- Retention ends because it is done, never because its fuel is: what is left is within the cap on full
-- snapshots, or all of them are protected, and within the cap on all snapshots, or nothing that is
-- left can be removed.
pub evict_caps :
    (m : Manifest)
    → IsCappedFull m.retention.max_full_snapshots (protected_snapshot_ids m) (evict m).1.snapshots
      × IsCapped (effective_total_cap m.retention) (protected_snapshot_ids m) (evict m).1.snapshots
unfolding evict
evict_caps m =
    let n = m.retention.max_full_snapshots in
    let protected = protected_snapshot_ids m in
    let first = cap_fulls (length m.snapshots) n protected [] m in
    (
      cap_total_ind (λ _ r. IsCappedFull n protected r.snapshots) _ protected
          (λ evicted r s h capped. less n protected (s.id ∷ []) r.snapshots capped)
          (length first.1.snapshots) first.0 first.1
          (excess_full-none n protected first.1
            (cap_fulls_done (length m.snapshots) n protected [] m (omega arith))),
      excess-none _ protected _
          (cap_total_done (length first.1.snapshots) _ protected first.0 first.1 (omega arith)),
    )

-- Where the protected full snapshots of a well-formed manifest reach the cap on full ones by
-- themselves, retention leaves no other full snapshot, the newest included.
pub evict_only_protected :
    (m : Manifest)
    → IsWellFormed m.snapshots
    → m.retention.max_full_snapshots
      ≤ length (filter is_full (filter (λ s. contains (protected_snapshot_ids m) s.id) m.snapshots))
    → any (is_removable_full (protected_snapshot_ids m)) (evict m).1.snapshots ≡ false
evict_only_protected m w many = elim (evict_caps m).0 [
  | inr blocked ↦ blocked
  | inl within ↦
      let protected = protected_snapshot_ids m in
      let left = (evict m).1.snapshots in
      let same : length (filter is_full (filter (λ s. contains protected s.id) left))
          ≡ length (filter is_full (filter (λ s. contains protected s.id) m.snapshots)) =
        ap (λ xs. length (filter is_full xs)) (evict_protected m w) in
      let unprotected : length (filter is_full (filter (λ s. not (contains protected s.id)) left))
          ≡ 0 =
        omega (
          arith,
          same,
          length-filter_split is_full (λ (s : Snapshot). contains protected s.id) left,
        ) in
      filter-removable protected left
        (any-length-filter is_full (filter (λ s. not (contains protected s.id)) left) unprotected)
]
  where
    filter-removable :
        (protected : List Uuid) (ss : List Snapshot)
        → any is_full (filter (λ s. not (contains protected s.id)) ss) ≡ false
        → any (is_removable_full protected) ss ≡ false
    filter-removable protected [] h = refl
    filter-removable protected (s ∷ ss) h = ground (arith, filter-removable protected ss)
