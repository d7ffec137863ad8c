-- ===== src/Retention/Protects.antt =====
-- The snapshots that retention must not remove: the protected ones and the newest.
use moonclip.Prelude.{
  ℕ, zero, suc, ◌≡◌, refl, sym, ap, ◌∙◌, List, [], ◌∷◌, map, Bool, true, false, not, ◌&&◌, ◌||◌,
  Option, none, some, ◌==◌, ◌%◌, take, arith, ◌⊎◌, inl, inr, Bool-cases, Option-cases, ==_iff,
}
use moonclip.Prelude.Search.{filter, any, contains, find, any-reverse, find-filter, filter-reverse}
use moonclip.Prelude.Member.{Memᴰ, any_intro, any_elim, In-filter, filter-filter}
use mathlib.Core.List.{reverse}
use moonclip.Manifest.{
  Uuid, Snapshot, Manifest, is_some, is_based_on, is_rollback, rollback_snapshot_ids,
  protected_snapshot_ids,
}
use moonclip.Manifest.Protected.{protected_snapshot_ids_lem}
use moonclip.Retention.{evict, is_finalized, newest_of, cap_total}
use moonclip.Retention.Steps.{
  IsWellFormed, group_ids, base_is_full, unique_same, excess_full-some, excess-some,
}
use moonclip.Retention.Loops.{without, cap_total_ind}
use moonclip.Retention.Keeps.{group_elim, evict_ind}

-- With a delta its base is protected.
abbrev pub IsClosed : List Uuid → List Snapshot → Type 0
IsClosed protected ss =
    (y : Snapshot) (id : Uuid)
    → Memᴰ y ss
    → contains protected y.id ≡ true
    → is_based_on id y ≡ true
    → contains protected id ≡ true

contains-map :
    (ss : List Snapshot) (i : Uuid) → contains (map (λ s. s.id) ss) i ≡ any (λ s. s.id == i) ss
contains-map [] i = refl
contains-map (s ∷ ss) i = ground (arith, contains-map ss i)

any-take :
    (p : Snapshot → Bool) (n : ℕ) (ss : List Snapshot) → any p (take n ss) ≡ true → any p ss ≡ true
any-take p zero ss h = cc
any-take p (suc n) [] h = cc
any-take p (suc n) (s ∷ ss) h = ground (arith, any-take p n ss)

any-filter_lem :
    (q p : Snapshot → Bool) (ss : List Snapshot) → any q (filter p ss) ≡ any (λ s. p s && q s) ss
any-filter_lem q p [] = refl
any-filter_lem q p (s ∷ ss) = ground (arith, any-filter_lem q p ss)

-- A rollback id is the id of a full snapshot.
rollback_is_full :
    (m : Manifest) (id : Uuid)
    → contains (rollback_snapshot_ids m) id ≡ true
    → (s : Snapshot) × Memᴰ s m.snapshots × (s.id ≡ id) × (is_some s.base_snapshot_id ≡ false)
unfolding rollback_snapshot_ids
rollback_is_full m id h =
    elim (Bool-cases
      ((m.lineage.rollback_interval_steps == 0) || (m.lineage.max_rollback_snapshots == 0))) [
        | inl off ↦ absurd cc (rw off at h)
        | inr on ↦ go (rw on at h)
      ]
  where
    n : ℕ
    n = m.lineage.max_rollback_snapshots

    p : Snapshot → Bool
    p = is_rollback m.lineage.rollback_interval_steps

    parts : (a b c d : Bool) → (((not a && b) && c) && d) ≡ true → (a ≡ false) × (d ≡ true)
    parts a b c d e = ground arith

    go :
        contains (reverse (map (λ s. s.id) (take n (filter p (reverse m.snapshots))))) id ≡ true
        → (s : Snapshot) × Memᴰ s m.snapshots × (s.id ≡ id) × (is_some s.base_snapshot_id ≡ false)
    go e =
        let at_reverse : any (λ s. s.id == id) (take n (filter p (reverse m.snapshots))) ≡ true =
          sym (contains-map (take n (filter p (reverse m.snapshots))) id)
          ∙ sym (
              any-reverse (λ x. x == id)
                (map (λ s. s.id) (take n (filter p (reverse m.snapshots)))))
          ∙ e in
        let (s, i, hit) =
          any_elim (λ s. p s && (s.id == id)) m.snapshots
            (sym (any-reverse (λ s. p s && (s.id == id)) m.snapshots)
              ∙ sym (any-filter_lem (λ s. s.id == id) p (reverse m.snapshots))
              ∙ any-take (λ s. s.id == id) n (filter p (reverse m.snapshots)) at_reverse) in
        let (full, is) =
          parts (is_some s.base_snapshot_id) s.finalized
            (s.step % m.lineage.rollback_interval_steps == 0) (s.id == id) hit in
        (s, i, (==_iff s.id id).0 is, full)

not_based :
    (s : Snapshot) (id : Uuid) → is_some s.base_snapshot_id ≡ false → is_based_on id s ≡ true → ⊥
not_based s id e f = elim (Option-cases s.base_snapshot_id) [
  | inl absent ↦ cc (ap {B = Bool} (λ o. elim o [ none ↦ false | some b ↦ b == id ]) absent, f)
  | inr (b, is) ↦ cc (ap (λ (o : Option Uuid). is_some o) is, e)
]

-- The base of a protected delta is protected.
pub protected_snapshot_ids-IsClosed :
    (m : Manifest) → IsWellFormed m.snapshots → IsClosed (protected_snapshot_ids m) m.snapshots
protected_snapshot_ids-IsClosed m w y id i inside based =
    elim (either (contains (rollback_snapshot_ids m) y.id) _
      (sym (protected_snapshot_ids_lem m y.id) ∙ inside)) [
        | inl rollback ↦
            let (s, j, is, full) = rollback_is_full m y.id rollback in
            let same = unique_same m.snapshots w.0 s y j i ((==_iff s.id y.id).1 is) in
            absurd (
              not_based y id (ap (λ (x : Snapshot). is_some x.base_snapshot_id) (sym same) ∙ full)
                based)
        | inr pins ↦
            let (s, j, hit) = any_elim _ m.snapshots pins in
            let (pinned, why) = parts s.pinned (s.id == y.id) (is_based_on y.id s) hit in
            elim why [
              | inl is ↦
                  let same = unique_same m.snapshots w.0 s y j i is in
                  protected_snapshot_ids_lem m id
                  ∙ right (contains (rollback_snapshot_ids m) id) _ (
                      any_intro (λ x. x.pinned && ((x.id == id) || is_based_on id x)) m.snapshots y
                        i
                        (all_of y.pinned (y.id == id) (is_based_on id y)
                          (ap (λ (x : Snapshot). x.pinned) (sym same) ∙ pinned) based))
              | inr over ↦ absurd (not_based y id (base_is_full m.snapshots w s y j i over) based)
            ]
      ]
  where
    either : (a b : Bool) → (a || b) ≡ true → (a ≡ true) ⊎ (b ≡ true)
    either a b e = ground arith

    parts : (a b c : Bool) → (a && (b || c)) ≡ true → (a ≡ true) × ((b ≡ true) ⊎ (c ≡ true))
    parts a b c e = ground arith

    right : (a b : Bool) → b ≡ true → (a || b) ≡ true
    right a b e = ground arith

    all_of : (a b c : Bool) → a ≡ true → c ≡ true → (a && (b || c)) ≡ true
    all_of a b c e f = ground arith

-- What is protected is not in the group of an unprotected full snapshot.
group_spares :
    (protected : List Uuid) (ss : List Snapshot) (full_id : Uuid) (x : Snapshot)
    → IsClosed protected ss
    → contains protected full_id ≡ false
    → contains protected x.id ≡ true
    → not (contains (group_ids ss full_id) x.id) ≡ true
group_spares protected ss full_id x closed free inside =
    elim (Bool-cases (contains (group_ids ss full_id) x.id)) [
      | inr out ↦ ap not out
      | inl gone ↦
          let (y, i, is, why) = group_elim ss full_id x.id gone in
          elim why [
            | inl whole ↦ absurd cc (free, ap (contains protected) (sym is ∙ whole), inside)
            | inr delta ↦
                absurd cc (free, closed y full_id i (ap (contains protected) is ∙ inside) delta)
          ]
    ]

one_spares :
    (protected : List Uuid) (id : Uuid) (x : Snapshot)
    → contains protected id ≡ false
    → contains protected x.id ≡ true
    → not (contains (id ∷ []) x.id) ≡ true
one_spares protected id x free inside = elim (Bool-cases (id == x.id)) [
  | inr other ↦ rw other
  | inl is ↦ absurd cc (free, ap (contains protected) ((==_iff id x.id).0 is), inside)
]

IsClosed-without :
    (protected ids : List Uuid) (ss : List Snapshot)
    → IsClosed protected ss
    → IsClosed protected (without ids ss)
IsClosed-without protected ids ss closed y id i =
    closed y id (In-filter (λ x. not (contains ids x.id)) ss y i).0

-- In a well-formed manifest retention removes no protected snapshot: those with rollback
-- protection, the pinned ones and their bases are all left, as they were and in order.
pub evict_protected :
    (m : Manifest)
    → IsWellFormed m.snapshots
    → filter (λ s. contains (protected_snapshot_ids m) s.id) (evict m).1.snapshots
      ≡ filter (λ s. contains (protected_snapshot_ids m) s.id) m.snapshots
evict_protected m w =
    (evict_ind
      (λ evicted r.
        (filter (λ s. contains (protected_snapshot_ids m) s.id) r.snapshots
          ≡ filter (λ s. contains (protected_snapshot_ids m) s.id) m.snapshots)
        × IsClosed (protected_snapshot_ids m) r.snapshots)
      m
      (λ evicted r s h (same, closed).
        let (_, _, free) = excess_full-some _ _ r s h in
        (
          filter-filter _ _ r.snapshots (λ x i inside.
                group_spares (protected_snapshot_ids m) r.snapshots s.id x closed free inside)
              ∙ same,
          IsClosed-without _ _ r.snapshots closed,
        ))
      (λ evicted r s h (same, closed).
        let (_, _, _, _, free, _) = excess-some _ _ r s h in
        (
          filter-filter _ _ r.snapshots
                (λ x i inside. one_spares (protected_snapshot_ids m) s.id x free inside)
              ∙ same,
          IsClosed-without _ (s.id ∷ []) r.snapshots closed,
        ))
      (refl, protected_snapshot_ids-IsClosed m w)).0

-- The second loop, whatever its cap, never removes the newest finalized snapshot.
pub cap_total_newest :
    (fuel max_total : ℕ) (protected : List Uuid) (evicted : List Snapshot) (m : Manifest)
    → newest_of (cap_total fuel max_total protected evicted m).1.snapshots ≡ newest_of m.snapshots
cap_total_newest fuel max_total protected evicted m =
    cap_total_ind (λ _ r. newest_of r.snapshots ≡ newest_of m.snapshots) max_total protected
      (λ evicted r s h same.
        let (newest, is, _, other, _, _) = excess-some max_total protected r s h in
        ap (find is_finalized)
          (sym (filter-reverse (λ x. not (contains (s.id ∷ []) x.id)) r.snapshots))
        ∙ find-filter is_finalized (λ x. not (contains (s.id ∷ []) x.id)) (reverse r.snapshots)
            newest is (rw other refl)
        ∙ sym is
        ∙ same)
      fuel evicted m refl
