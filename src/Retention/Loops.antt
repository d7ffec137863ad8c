-- ===== src/Retention/Loops.antt =====
-- Induction on the rounds of the two loops, and the rounds they have fuel for.
use moonclip.Prelude.{
  ℕ, zero, suc, ◌≤◌, ◌<◌, ◌≡◌, ap, ◌∙◌, List, [], ◌∷◌, ◌++◌, true, not, ◌&&◌, ◌||◌, none, some,
  ◌==◌, length, arith, inl, inr, Option-cases, ==_refl,
}
use moonclip.Prelude.Search.{filter, contains}
use moonclip.Prelude.Member.{Memᴰ, any_intro, contains-map-filter, length-filter_lt}
use moonclip.Manifest.{Uuid, Snapshot, Manifest, is_based_on}
use moonclip.Retention.{
  with_snapshots, remove_snapshots, remove_snapshot_group, excess_full, excess, cap_fulls,
  cap_total,
}
use moonclip.Retention.Steps.{group_ids, excess_full-some, excess-some}

-- The snapshots that stay when these ids go, and those that go.
abbrev pub without : List Uuid → List Snapshot → List Snapshot
without ids = filter (λ s. not (contains ids s.id))

abbrev pub among : List Uuid → List Snapshot → List Snapshot
among ids = filter (λ s. contains ids s.id)

-- What each round of the first loop keeps true is true in the end.
pub cap_fulls_ind {ℓ} :
    (P : List Snapshot → Manifest → Type ℓ) (n : ℕ) (protected : List Uuid)
    → ((evicted : List Snapshot) (m : Manifest) (s : Snapshot)
        → excess_full n protected m ≡ some s
        → P evicted m
        → P
            (evicted ++ among (group_ids m.snapshots s.id) m.snapshots)
            (with_snapshots (without (group_ids m.snapshots s.id) m.snapshots) m))
    → (fuel : ℕ) (evicted : List Snapshot) (m : Manifest) → P evicted m
    → P (cap_fulls fuel n protected evicted m).0 (cap_fulls fuel n protected evicted m).1
unfolding cap_fulls remove_snapshot_group remove_snapshots
cap_fulls_ind P n protected round zero evicted m h = h
cap_fulls_ind P n protected round (suc fuel) evicted m h =
    elim (Option-cases (excess_full n protected m)) [
      | inl done ↦ rw (done, cap_fulls) h
      | inr (s, hit) ↦
          rw (hit, cap_fulls) (cap_fulls_ind P n protected round fuel _ _ (round evicted m s hit h))
    ]

pub cap_total_ind {ℓ} :
    (P : List Snapshot → Manifest → Type ℓ) (n : ℕ) (protected : List Uuid)
    → ((evicted : List Snapshot) (m : Manifest) (s : Snapshot)
        → excess n protected m ≡ some s
        → P evicted m
        → P
            (evicted ++ among (s.id ∷ []) m.snapshots)
            (with_snapshots (without (s.id ∷ []) m.snapshots) m))
    → (fuel : ℕ) (evicted : List Snapshot) (m : Manifest) → P evicted m
    → P (cap_total fuel n protected evicted m).0 (cap_total fuel n protected evicted m).1
unfolding cap_total remove_snapshots
cap_total_ind P n protected round zero evicted m h = h
cap_total_ind P n protected round (suc fuel) evicted m h =
    elim (Option-cases (excess n protected m)) [
      | inl done ↦ rw (done, cap_total) h
      | inr (s, hit) ↦
          rw (hit, cap_total) (cap_total_ind P n protected round fuel _ _ (round evicted m s hit h))
    ]

-- A round removes the snapshot it chose.
full_goes :
    (ss : List Snapshot) (s : Snapshot) → Memᴰ s ss → contains (group_ids ss s.id) s.id ≡ true
full_goes ss s i =
    contains-map-filter (λ x. x.id) (λ x. (x.id == s.id) || is_based_on s.id x) ss s.id
    ∙ any_intro (λ x. ((x.id == s.id) || is_based_on s.id x) && (x.id == s.id)) ss s i
        (rw (==_refl s.id))

full_shrinks :
    (n : ℕ) (protected : List Uuid) (m : Manifest) (s : Snapshot)
    → excess_full n protected m ≡ some s
    → length (without (group_ids m.snapshots s.id) m.snapshots) < length m.snapshots
full_shrinks n protected m s h =
    let (i, _, _) = excess_full-some n protected m s h in
    length-filter_lt (λ x. not (contains (group_ids m.snapshots s.id) x.id)) m.snapshots s i
      (ap not (full_goes m.snapshots s i))

total_shrinks :
    (n : ℕ) (protected : List Uuid) (m : Manifest) (s : Snapshot)
    → excess n protected m ≡ some s
    → length (without (s.id ∷ []) m.snapshots) < length m.snapshots
total_shrinks n protected m s h =
    let (_, _, i, _, _, _) = excess-some n protected m s h in
    length-filter_lt (λ x. not (contains (s.id ∷ []) x.id)) m.snapshots s i (rw (==_refl s.id))

-- With fuel for every snapshot, the first loop ends because it has nothing to remove.
pub cap_fulls_done :
    (fuel n : ℕ) (protected : List Uuid) (evicted : List Snapshot) (m : Manifest)
    → length m.snapshots ≤ fuel
    → excess_full n protected (cap_fulls fuel n protected evicted m).1 ≡ none
unfolding cap_fulls remove_snapshot_group remove_snapshots
cap_fulls_done zero n protected evicted m h = elim (Option-cases (excess_full n protected m)) [
  | inl done ↦ done
  | inr (s, hit) ↦ absurd (omega (arith, full_shrinks n protected m s hit))
]
cap_fulls_done (suc fuel) n protected evicted m h =
    elim (Option-cases (excess_full n protected m)) [
      | inl done ↦ rw (done, cap_fulls) done
      | inr (s, hit) ↦
          rw (hit, cap_fulls)
            (cap_fulls_done fuel n protected _
              (with_snapshots (without (group_ids m.snapshots s.id) m.snapshots) m)
              (omega (arith, full_shrinks n protected m s hit)))
    ]

pub cap_total_done :
    (fuel n : ℕ) (protected : List Uuid) (evicted : List Snapshot) (m : Manifest)
    → length m.snapshots ≤ fuel
    → excess n protected (cap_total fuel n protected evicted m).1 ≡ none
unfolding cap_total remove_snapshots
cap_total_done zero n protected evicted m h = elim (Option-cases (excess n protected m)) [
  | inl done ↦ done
  | inr (s, hit) ↦ absurd (omega (arith, total_shrinks n protected m s hit))
]
cap_total_done (suc fuel) n protected evicted m h = elim (Option-cases (excess n protected m)) [
  | inl done ↦ rw (done, cap_total) done
  | inr (s, hit) ↦
      rw (hit, cap_total)
        (cap_total_done fuel n protected _ (with_snapshots (without (s.id ∷ []) m.snapshots) m)
          (omega (arith, total_shrinks n protected m s hit)))
]
