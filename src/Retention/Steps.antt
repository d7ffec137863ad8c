-- ===== src/Retention/Steps.antt =====
-- One round of either loop: what it removes and what it must leave.
use moonclip.Prelude.{
  ℕ, ◌≡◌, sym, ap, ◌∙◌, List, [], ◌∷◌, map, Bool, true, false, not, ◌&&◌, ◌||◌, none, some, ◌==◌,
  arith, inl, inr, Option-cases, ==_iff,
}
use moonclip.Prelude.Search.{find, filter, any, contains}
use moonclip.Prelude.Member.{Memᴰ, any_intro, any_elim, find_In, In-filter}
use mathlib.Core.List.Memᴰ.{head, tail, not-nil}
use moonclip.Manifest.{Uuid, Snapshot, Manifest, is_some, is_full, is_based_on}
use moonclip.Retention.{
  is_removable_full, excess_full, is_finalized, is_leaf, is_removable, newest_of, excess,
}

-- Some snapshot with this id is no delta.
abbrev pub has_base : List Snapshot → Uuid → Bool
has_base ss id = any (λ x. (x.id == id) && not (is_some x.base_snapshot_id)) ss

-- The snapshot is full, or the base it names is in the list and full.
abbrev pub is_grounded : List Snapshot → Snapshot → Bool
is_grounded ss s = elim s.base_snapshot_id [ none ↦ true | some base ↦ has_base ss base ]

-- No two snapshots share an id.
abbrev pub has_unique_ids : List Snapshot → Bool
has_unique_ids [] = true
has_unique_ids (s ∷ ss) = not (any (λ x. x.id == s.id) ss) && has_unique_ids ss

-- The ids are unique, and each delta's base is there and full.
abbrev pub IsWellFormed : List Snapshot → Type 0
IsWellFormed ss =
    (has_unique_ids ss ≡ true) × ((s : Snapshot) → Memᴰ s ss → is_grounded ss s ≡ true)

==_sym : (a b : ℕ) → (a == b) ≡ true → (b == a) ≡ true
==_sym a b h = ground arith

head_new :
    (y : Snapshot) (ys : List Snapshot)
    → has_unique_ids (y ∷ ys) ≡ true
    → (any (λ x. x.id == y.id) ys ≡ false) × (has_unique_ids ys ≡ true)
head_new y ys u = ground arith

-- Snapshots with the same id are the same snapshot.
pub unique_same :
    (ss : List Snapshot)
    → has_unique_ids ss ≡ true
    → (s t : Snapshot) → Memᴰ s ss
    → Memᴰ t ss
    → (s.id == t.id) ≡ true
    → s ≡ t
unique_same [] u s t i j same = absurd (not-nil i)
unique_same (y ∷ ys) u s t (head e) (head f) same = e ∙ sym f
unique_same (y ∷ ys) u s t (head e) (tail j) same =
    let (new, rest) = head_new y ys u in
    let clash : (t.id == y.id) ≡ true = ==_sym y.id t.id (ap (λ x. x.id == t.id) (sym e) ∙ same) in
    absurd cc (new, any_intro (λ x. x.id == y.id) ys t j clash)
unique_same (y ∷ ys) u s t (tail i) (head f) same =
    let (new, rest) = head_new y ys u in
    absurd cc (new, any_intro (λ x. x.id == y.id) ys s i (ap (λ x. s.id == x.id) (sym f) ∙ same))
unique_same (y ∷ ys) u s t (tail i) (tail j) same = unique_same ys (head_new y ys u).1 s t i j same

-- A delta's base is no delta itself, whichever snapshot has its id.
pub base_is_full :
    (ss : List Snapshot)
    → IsWellFormed ss
    → (d b : Snapshot) → Memᴰ d ss
    → Memᴰ b ss
    → is_based_on b.id d ≡ true
    → is_some b.base_snapshot_id ≡ false
base_is_full ss w d b i j based =
    let (x, k, hit) = any_elim _ ss (base_there d b based (w.1 d i)) in
    let (same, full) = both (x.id == b.id) (is_some x.base_snapshot_id) hit in
    ap (λ t. is_some t.base_snapshot_id) (sym (unique_same ss w.0 x b k j same)) ∙ full
  where
    base_there :
        (d b : Snapshot)
        → is_based_on b.id d ≡ true
        → is_grounded ss d ≡ true
        → has_base ss b.id ≡ true
    base_there d b based grounded = elim (Option-cases d.base_snapshot_id) [
      | inl absent ↦
          absurd cc (ap (λ o. elim o [ none ↦ false | some base ↦ base == b.id ]) absent, based)
      | inr (base, is_base) ↦
          let at_base : has_base ss base ≡ true =
            ap (λ o. elim o [ none ↦ true | some base ↦ has_base ss base ]) (sym is_base)
            ∙ grounded in
          let is : base ≡ b.id =
            (==_iff base b.id).0 (
              ap (λ o. elim o [ none ↦ false | some base ↦ base == b.id ]) (sym is_base) ∙ based) in
          ap (has_base ss) (sym is) ∙ at_base
    ]

    both : (p q : Bool) → (p && not q) ≡ true → (p ≡ true) × (q ≡ false)
    both p q h = ground arith

-- The ids that `remove_snapshot_group` removes.
abbrev pub group_ids : List Snapshot → Uuid → List Uuid
group_ids ss full_id = map (λ s. s.id) (filter (λ s. (s.id == full_id) || is_based_on full_id s) ss)

pub excess_full-some :
    (n : ℕ) (protected : List Uuid) (m : Manifest) (s : Snapshot)
    → excess_full n protected m ≡ some s
    → Memᴰ s m.snapshots × (is_full s ≡ true) × (contains protected s.id ≡ false)
unfolding excess_full
excess_full-some n protected m s h =
    let (i, hit) = find_In (is_removable_full protected) m.snapshots s (found h) in
    let (full, free) = parts (is_full s) (contains protected s.id) hit in (i, full, free)
  where
    found :
        excess_full n protected m ≡ some s → find (is_removable_full protected) m.snapshots ≡ some s
    found e = ground arith

    parts : (p q : Bool) → (p && not q) ≡ true → (p ≡ true) × (q ≡ false)
    parts p q e = ground arith

pub excess-some :
    (n : ℕ) (protected : List Uuid) (m : Manifest) (s : Snapshot)
    → excess n protected m ≡ some s
    → (newest : Snapshot) × (newest_of m.snapshots ≡ some newest)
      × Memᴰ s m.snapshots
      × ((s.id == newest.id) ≡ false)
      × (contains protected s.id ≡ false)
      × ((is_some s.base_snapshot_id || is_leaf m.snapshots s.id) ≡ true)
unfolding excess
excess-some n protected m s h =
    let (newest, is, found) = search h in
    let (i, hit) =
      find_In (is_removable protected newest.id m.snapshots) (filter is_finalized m.snapshots) s
        found in
    let (other, free, leaf) =
      parts (s.id == newest.id) (contains protected s.id)
        (is_some s.base_snapshot_id || is_leaf m.snapshots s.id) hit in
    (newest, is, (In-filter is_finalized m.snapshots s i).0, other, free, leaf)
  where
    search :
        excess n protected m ≡ some s
        → (newest : Snapshot) × (newest_of m.snapshots ≡ some newest)
          × (find (is_removable protected newest.id m.snapshots) (filter is_finalized m.snapshots)
              ≡ some s)
    search e = ground arith

    parts : (p q r : Bool) → (not p && (not q && r)) ≡ true → (p ≡ false) × (q ≡ false) × (r ≡ true)
    parts p q r e = ground arith
