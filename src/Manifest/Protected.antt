-- ===== src/Manifest/Protected.antt =====
-- What retention must leave alone.
use moonclip.Prelude.{
  min, ◌≡◌, refl, sym, ap, ◌∙◌, List, [], ◌∷◌, ◌++◌, map, true, false, ◌&&◌, ◌||◌, ◌==◌, length,
  take, drop, take-append-drop, length-take, arith, ◌⊎◌, ==_iff, inl, inr, Bool-cases,
}
use moonclip.Prelude.Search.{
  filter, filter-reverse, any, contains, sort, any-append, contains-sort, contains-dedup,
  reverse_swap, length-reverse,
}
use mathlib.Core.List.{reverse, reverse-append}
use moonclip.Manifest.Types.{Uuid, Snapshot, Manifest}
use moonclip.Manifest.{
  is_based_on, is_rollback, rollback_snapshot_ids, pinned_ids, protected_snapshot_ids,
}

-- The snapshots that deserve rollback protection, oldest first.
abbrev pub on_interval : Manifest → List Snapshot
on_interval m = filter (is_rollback m.lineage.rollback_interval_steps) m.snapshots

map-reverse {ℓ κ} :
    {A : Type ℓ} {B : Type κ} (f : A → B) (xs : List A) → map f (reverse xs) ≡ reverse (map f xs)
map-reverse f [] = refl
map-reverse f (x ∷ xs) =
    ap (map f) (reverse-append (x ∷ []) xs)
    ∙ map-append-one (reverse xs)
    ∙ ap (λ t. t ++ (f x ∷ [])) (map-reverse f xs)
    ∙ sym (reverse-append (f x ∷ []) (map f xs))
  where
    map-append-one : (ys : List _) → map f (ys ++ (x ∷ [])) ≡ map f ys ++ (f x ∷ [])
    map-append-one [] = refl
    map-append-one (y ∷ ys) = ap (λ t. f y ∷ t) (map-append-one ys)

-- With an interval set, the protected snapshots are the newest `max_rollback_snapshots` of the
-- finalized full ones whose step lies on it, in order, or all of them where there are fewer.
pub rollback_snapshot_ids_lem :
    (m : Manifest)
    → (m.lineage.rollback_interval_steps == 0) ≡ false
    → (older kept : List Snapshot) × (on_interval m ≡ older ++ kept)
      × (rollback_snapshot_ids m ≡ map (λ s. s.id) kept)
      × (length kept ≡ min m.lineage.max_rollback_snapshots (length (on_interval m)))
unfolding rollback_snapshot_ids
rollback_snapshot_ids_lem m h =
    let n = m.lineage.max_rollback_snapshots in
    let back = reverse (on_interval m) in
    (
      reverse (drop n back),
      reverse (take n back),
      reverse_swap (on_interval m) (take n back ++ drop n back) (sym (take-append-drop n back))
          ∙ reverse-append (take n back) (drop n back),
      newest (Bool-cases (n == 0)),
      length-reverse (take n back)
          ∙ length-take n back
          ∙ ap (min n) (length-reverse (on_interval m)),
    )
  where
    newest :
        ((m.lineage.max_rollback_snapshots == 0) ≡ true)
          ⊎ ((m.lineage.max_rollback_snapshots == 0) ≡ false)
        → rollback_snapshot_ids m
          ≡ map
              (λ s. s.id)
              (reverse (take m.lineage.max_rollback_snapshots (reverse (on_interval m))))
    newest (inl zero_cap) =
        rw (h, zero_cap, (==_iff m.lineage.max_rollback_snapshots 0).0 zero_cap) refl
    newest (inr positive) =
        rw (h, positive)
          (ap (λ t. reverse (map (λ s. s.id) (take m.lineage.max_rollback_snapshots t)))
              (filter-reverse (is_rollback m.lineage.rollback_interval_steps) m.snapshots)
            ∙ sym (
                map-reverse (λ s. s.id)
                  (take m.lineage.max_rollback_snapshots (reverse (on_interval m)))))

contains-pinned_ids :
    (id : Uuid) (ss : List Snapshot)
    → contains (pinned_ids ss) id ≡ any (λ s. s.pinned && ((s.id == id) || is_based_on id s)) ss
unfolding pinned_ids
contains-pinned_ids id [] = refl
contains-pinned_ids id (s ∷ ss) = ground (arith, contains-pinned_ids id ss)

-- A snapshot is protected exactly if it has rollback protection, is pinned, or is the base of a
-- pinned delta.
pub protected_snapshot_ids_lem :
    (m : Manifest) (id : Uuid)
    → contains (protected_snapshot_ids m) id ≡ (
        contains (rollback_snapshot_ids m) id
        || any (λ s. s.pinned && ((s.id == id) || is_based_on id s)) m.snapshots)
unfolding protected_snapshot_ids
protected_snapshot_ids_lem m id =
    contains-dedup id (sort (rollback_snapshot_ids m ++ pinned_ids m.snapshots))
    ∙ contains-sort id (rollback_snapshot_ids m ++ pinned_ids m.snapshots)
    ∙ any-append (λ x. x == id) (rollback_snapshot_ids m) (pinned_ids m.snapshots)
    ∙ ap (λ b. contains (rollback_snapshot_ids m) id || b) (contains-pinned_ids id m.snapshots)
