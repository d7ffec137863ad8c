-- ===== src/Retention/Keeps.antt =====
-- What retention leaves alone: the protected snapshots, the newest one, and every delta's base.
use moonclip.Prelude.{
  ℕ, ◌≡◌, refl, sym, ap, ◌∙◌, List, [], ◌∷◌, ◌++◌, Bool, true, false, not, ◌&&◌, ◌||◌, Option, none,
  some, ◌==◌, length, arith, ◌⊎◌, inl, inr, Bool-cases, Option-cases, ==_iff, ==_refl,
}
use moonclip.Prelude.Search.{any, contains}
use moonclip.Prelude.Member.{
  Memᴰ, any_intro, any_elim, In-filter, any-filter, any-filter-false, contains-map-filter,
}
use moonclip.Manifest.{
  Uuid, Snapshot, Manifest, is_some, is_based_on, protected_snapshot_ids, effective_total_cap,
}
use moonclip.Retention.{with_snapshots, excess_full, excess, evict, is_leaf}
use moonclip.Retention.Steps.{
  IsWellFormed, has_unique_ids, has_base, group_ids, base_is_full, unique_same, excess-some,
}
use moonclip.Retention.Loops.{without, among, cap_fulls_ind, cap_total_ind}

unique-without :
    (ids : List Uuid) (ss : List Snapshot)
    → has_unique_ids ss ≡ true
    → has_unique_ids (without ids ss) ≡ true
unique-without ids [] h = refl
unique-without ids (s ∷ ss) h =
    let ih = unique-without ids ss in
    let fewer = any-filter-false (λ x. x.id == s.id) (λ x. not (contains ids x.id)) ss in
    ground (arith, ih, fewer)

-- Removing ids is harmless when with a base all that is computed against it goes.
without-IsWellFormed :
    (ids : List Uuid) (ss : List Snapshot)
    → IsWellFormed ss
    → ((d b : Snapshot)
        → Memᴰ d ss
        → Memᴰ b ss
        → is_based_on b.id d ≡ true
        → contains ids b.id ≡ true
        → contains ids d.id ≡ true)
    → IsWellFormed (without ids ss)
without-IsWellFormed ids ss w together = (
  unique-without ids ss w.0,
  λ d i.
      let (j, alive) = In-filter (λ x. not (contains ids x.id)) ss d i in
      elim (Option-cases d.base_snapshot_id) [
        | inl absent ↦
            ap (λ o. elim o [ none ↦ true | some b ↦ has_base (without ids ss) b ]) absent
        | inr (base, is_base) ↦
            ap (λ o. elim o [ none ↦ true | some b ↦ has_base (without ids ss) b ]) is_base
            ∙ any-filter (λ x. (x.id == base) && not (is_some x.base_snapshot_id))
                (λ x. not (contains ids x.id)) ss
                (λ x k hit. stays d base j alive is_base x k (both (x.id == base) _ hit))
            ∙ ap (λ o. elim o [ none ↦ true | some b ↦ has_base ss b ]) (sym is_base)
            ∙ w.1 d j
      ],
)
  where
    both : (p q : Bool) → (p && q) ≡ true → p ≡ true
    both p q h = ground arith

    stays :
        (d : Snapshot) (base : Uuid)
        → Memᴰ d ss
        → not (contains ids d.id) ≡ true
        → d.base_snapshot_id ≡ some base
        → (x : Snapshot) → Memᴰ x ss
        → (x.id == base) ≡ true
        → not (contains ids x.id) ≡ true
    stays d base j alive is_base x k hit = elim (Bool-cases (contains ids x.id)) [
      | inr out ↦ ap not out
      | inl gone ↦
          let is : x.id ≡ base = (==_iff x.id base).0 hit in
          let based : is_based_on x.id d ≡ true =
            ap (λ o. elim o [ none ↦ false | some b ↦ b == x.id ]) is_base
            ∙ ap (λ t. base == t) is
            ∙ ==_refl base in
          absurd cc (alive, ap not (together d x j k based gone))
    ]

-- What `group_ids` contains: the full snapshot's id, and those of its deltas.
pub group_elim :
    (ss : List Snapshot) (full_id id : Uuid)
    → contains (group_ids ss full_id) id ≡ true
    → (y : Snapshot) × Memᴰ y ss × (y.id ≡ id) × ((y.id ≡ full_id) ⊎ (is_based_on full_id y ≡ true))
group_elim ss full_id id h =
    let (y, i, hit) =
      any_elim (λ x. ((x.id == full_id) || is_based_on full_id x) && (x.id == id)) ss
        (sym (
            contains-map-filter (λ x. x.id) (λ x. (x.id == full_id) || is_based_on full_id x) ss id)
          ∙ h) in
    let (why, is) = parts (y.id == full_id) (is_based_on full_id y) (y.id == id) hit in
    (
      y,
      i,
      (==_iff y.id id).0 is,
      elim why [ inl e ↦ inl ((==_iff y.id full_id).0 e) | inr e ↦ inr e ],
    )
  where
    parts : (p q r : Bool) → ((p || q) && r) ≡ true → ((p ≡ true) ⊎ (q ≡ true)) × (r ≡ true)
    parts p q r e = ground arith

group_intro :
    (ss : List Snapshot) (full_id : Uuid) (y : Snapshot)
    → Memᴰ y ss
    → is_based_on full_id y ≡ true
    → contains (group_ids ss full_id) y.id ≡ true
group_intro ss full_id y i based =
    contains-map-filter (λ x. x.id) (λ x. (x.id == full_id) || is_based_on full_id x) ss y.id
    ∙ any_intro (λ x. ((x.id == full_id) || is_based_on full_id x) && (x.id == y.id)) ss y i
        (holds (y.id == full_id) (is_based_on full_id y) (y.id == y.id) based (==_refl y.id))
  where
    holds : (p q r : Bool) → q ≡ true → r ≡ true → ((p || q) && r) ≡ true
    holds p q r e f = ground arith

-- A group takes with a base all that is computed against it.
group_together :
    (ss : List Snapshot) (full_id : Uuid)
    → IsWellFormed ss
    → (d b : Snapshot) → Memᴰ d ss
    → Memᴰ b ss
    → is_based_on b.id d ≡ true
    → contains (group_ids ss full_id) b.id ≡ true
    → contains (group_ids ss full_id) d.id ≡ true
group_together ss full_id w d b i j based gone =
    let (y, k, is, why) = group_elim ss full_id b.id gone in
    elim why [
      | inl whole ↦
          group_intro ss full_id d i
            (ap {B = Bool} (λ (t : Uuid). is_based_on t d) (sym whole ∙ is) ∙ based)
      | inr delta ↦
          let full = base_is_full ss w d b i j based in
          let same : y ≡ b = unique_same ss w.0 y b k j ((==_iff y.id b.id).1 is) in
          let part : is_based_on full_id b ≡ true =
            ap {B = Bool} (λ (x : Snapshot). is_based_on full_id x) (sym same) ∙ delta in
          absurd (clash b full part)
    ]
  where
    clash : (x : Snapshot) → is_some x.base_snapshot_id ≡ false → is_based_on full_id x ≡ true → ⊥
    clash x e f = elim (Option-cases x.base_snapshot_id) [
      | inl absent ↦
          cc (ap {B = Bool} (λ o. elim o [ none ↦ false | some b ↦ b == full_id ]) absent, f)
      | inr (b, is) ↦ cc (ap (λ (o : Option Uuid). is_some o) is, e)
    ]

-- The whole pass keeps a property that each round of either loop keeps.
pub evict_ind {ℓ} :
    (P : List Snapshot → Manifest → Type ℓ) (m : Manifest)
    → ((evicted : List Snapshot) (r : Manifest) (s : Snapshot)
        → excess_full m.retention.max_full_snapshots (protected_snapshot_ids m) r ≡ some s
        → P evicted r
        → P
            (evicted ++ among (group_ids r.snapshots s.id) r.snapshots)
            (with_snapshots (without (group_ids r.snapshots s.id) r.snapshots) r))
    → ((evicted : List Snapshot) (r : Manifest) (s : Snapshot)
        → excess (effective_total_cap m.retention) (protected_snapshot_ids m) r ≡ some s
        → P evicted r
        → P
            (evicted ++ among (s.id ∷ []) r.snapshots)
            (with_snapshots (without (s.id ∷ []) r.snapshots) r))
    → P [] m
    → P (evict m).0 (evict m).1
unfolding evict
evict_ind P m full total start =
    let capped =
      cap_fulls_ind P m.retention.max_full_snapshots (protected_snapshot_ids m) full
        (length m.snapshots) [] m start in
    cap_total_ind P (effective_total_cap m.retention) (protected_snapshot_ids m) total _ _ _ capped

-- The group of a full snapshot leaves a well-formed list.
group-IsWellFormed :
    (n : ℕ) (protected : List Uuid) (r : Manifest) (s : Snapshot)
    → excess_full n protected r ≡ some s
    → IsWellFormed r.snapshots
    → IsWellFormed (without (group_ids r.snapshots s.id) r.snapshots)
group-IsWellFormed n protected r s h w =
    without-IsWellFormed (group_ids r.snapshots s.id) r.snapshots w
      (group_together r.snapshots s.id w)

one-IsWellFormed :
    (n : ℕ) (protected : List Uuid) (r : Manifest) (s : Snapshot)
    → excess n protected r ≡ some s
    → IsWellFormed r.snapshots
    → IsWellFormed (without (s.id ∷ []) r.snapshots)
one-IsWellFormed n protected r s h w =
    let (_, _, i, _, _, removable) = excess-some n protected r s h in
    without-IsWellFormed (s.id ∷ []) r.snapshots w
      (λ d b j k based gone. absurd (never i removable d b j k based gone))
  where
    single : (p : Bool) → (p || false) ≡ true → p ≡ true
    single p e = ground arith

    leaf : (p q : Bool) → (p || not q) ≡ true → p ≡ false → q ≡ false
    leaf p q e f = ground arith

    never :
        Memᴰ s r.snapshots
        → (is_some s.base_snapshot_id || is_leaf r.snapshots s.id) ≡ true
        → (d b : Snapshot) → Memᴰ d r.snapshots
        → Memᴰ b r.snapshots
        → is_based_on b.id d ≡ true
        → contains (s.id ∷ []) b.id ≡ true
        → ⊥
    never i removable d b j k based gone =
        let is : s.id ≡ b.id = (==_iff s.id b.id).0 (single (s.id == b.id) gone) in
        let same : s ≡ b = unique_same r.snapshots w.0 s b i k ((==_iff s.id b.id).1 is) in
        let full = base_is_full r.snapshots w d b j k based in
        let alone : any (is_based_on b.id) r.snapshots ≡ false =
          leaf (is_some b.base_snapshot_id) (any (is_based_on b.id) r.snapshots)
            (ap (λ (x : Snapshot). is_some x.base_snapshot_id || is_leaf r.snapshots x.id)
                (sym same)
              ∙ removable)
            full in
        cc (alone, any_intro (is_based_on b.id) r.snapshots d j based)

-- Retention never leaves a delta whose base is gone: it keeps a well-formed manifest well formed.
pub evict-IsWellFormed :
    (m : Manifest) → IsWellFormed m.snapshots → IsWellFormed (evict m).1.snapshots
evict-IsWellFormed m w =
    evict_ind (λ evicted r. IsWellFormed r.snapshots) m
      (λ evicted r s h v. group-IsWellFormed _ _ r s h v)
      (λ evicted r s h v. one-IsWellFormed _ _ r s h v) w
