-- ===== src/Pins/Set.antt =====
-- src/coordinator/mod.rs: set_pinned, which flags the snapshot, saves the manifest and writes the pins file.
use moonclip.Prelude.{
  ℕ, List, ◌≡◌, refl, ap, ◌∙◌, Bool, true, false, not, ◌&&◌, Option, none, some, ◌==◌,
  if◌then◌else◌, map, Option-cases, Bool-cases, inl, inr, sym, ap₂, [], ◌∷◌, ◌⊎◌,
}
use moonclip.Prelude.Search.{filter, find, any, contains}
use moonclip.Error.{Result, ok, err, panic}
use moonclip.Storage.{StorageBackend, StorageLaws}
use moonclip.Manifest.{Uuid, Snapshot, Manifest}
use moonclip.ManifestIo.{ManifestJson, persist, then_index, write_ranks, to_write}
use moonclip.Retention.{with_snapshots}
use moonclip.Pins.{Json, JsonLaws, read_pins, write_pins, set_step}
use moonclip.Pins.File.{read_pins-write_pins, set_step_lem}
use mathlib.Core.List.{reverse}

-- Two Booleans that differ.
abbrev pub differs : Bool → Bool → Bool
differs true p = not p
differs false p = p

abbrev pub needs_flag : Uuid → Bool → Snapshot → Bool
needs_flag id pinned s = (s.id == id) && differs s.pinned pinned

unfoldable pub flag_snapshots : Uuid → Bool → List Snapshot → List Snapshot
flag_snapshots id pinned snapshots =
    map (λ s. if needs_flag id pinned s then record s { pinned = pinned } else s) snapshots

-- The newest finalized snapshot of a step.
abbrev pub target_of : ℕ → Manifest → Option Snapshot
target_of step m = find (λ s. (s.step == step) && s.finalized) (reverse m.snapshots)

-- The steps in the pins file, or those of the flagged snapshots where there is no file.
abbrev pub steps_before : Manifest → Result (Option (List ℕ)) → Result (List ℕ)
steps_before m (ok (some steps)) = ok steps
steps_before m (ok none) =
    ok (map (λ s. s.step) (filter (λ s. s.pinned && s.finalized) m.snapshots))
steps_before m (err e) = err e
steps_before m panic = panic

module _ {S : Type 0} (b : StorageBackend S) (j : Json) (mj : ManifestJson) where
  -- The manifest with its flag, saved where the flag changed.
  unfoldable pub save_flag : Uuid → Bool → Manifest → S → Result (Unit {0}) × S × Manifest
  unfolding flag_snapshots
  save_flag id pinned m s =
      let flagged = with_snapshots (flag_snapshots id pinned m.snapshots) m in
      if any (needs_flag id pinned) m.snapshots then persist b mj flagged s else (ok tt, s, flagged)

  abbrev pub written : Manifest → Result (Unit {0}) × S → Result Bool × S × Manifest
  written m (ok done, t) = (ok true, t, m)
  written m (err e, t) = (err e, t, m)
  written m (panic, t) = (panic, t, m)

  abbrev pub then_steps : ℕ → Bool → Manifest → S → Result (List ℕ) → Result Bool × S × Manifest
  then_steps step pinned m s (ok steps) = written m (write_pins b j (set_step step pinned steps) s)
  then_steps step pinned m s (err e) = (err e, s, m)
  then_steps step pinned m s panic = (panic, s, m)

  abbrev pub then_pins : ℕ → Bool → Result (Unit {0}) × S × Manifest → Result Bool × S × Manifest
  then_pins step pinned (ok done, s, m) =
      then_steps step pinned m s (steps_before m (read_pins b j s))
  then_pins step pinned (err e, s, m) = (err e, s, m)
  then_pins step pinned (panic, s, m) = (panic, s, m)

  unfoldable pub set_pinned : ℕ → Bool → Manifest → S → Result Bool × S × Manifest
  unfolding save_flag
  set_pinned step pinned m s = elim (target_of step m) [
    | none ↦ (ok false, s, m)
    | some u ↦ then_pins step pinned (save_flag u.id pinned m s)
  ]

  module _ (laws : StorageLaws b) (json : JsonLaws j) where
    -- The pins file holds the step or not, as asked, and every other step as before.
    unfoldable pub Recorded : ℕ → Bool → List ℕ → S → Type 0
    Recorded step pinned before t =
        (steps : List ℕ) × (read_pins b j t ≡ ok (some steps))
        × ((other : ℕ)
            → contains steps other ≡ (if other == step then pinned else contains before other))

    written-Recorded :
        (step : ℕ) (pinned : Bool) (before : List ℕ) (m m' : Manifest) (s t : S)
        (w : Result (Unit {0}) × S)
        → write_pins b j (set_step step pinned before) s ≡ w
        → written m w ≡ (ok true, t, m')
        → (m ≡ m') × Recorded step pinned before t
    unfolding Recorded
    written-Recorded step pinned before m m' s t (ok done, u) w h = (
      ap (λ r. r.2) h,
      (
        set_step step pinned before,
        read_pins-write_pins b laws j json (set_step step pinned before) s t
            (w ∙ ap (λ r. (ok tt, r.1)) h),
        λ other. set_step_lem step other pinned before,
      ),
    )
    written-Recorded step pinned before m m' s t (err e, u) w h = cc
    written-Recorded step pinned before m m' s t (panic, u) w h = cc

    -- The steps recorded before are the ones that were changed.
    abbrev pub Changed : ℕ → Bool → Manifest → S → S → Type 0
    Changed step pinned m s t =
        (before : List ℕ) × (steps_before m (read_pins b j s) ≡ ok before)
        × Recorded step pinned before t

    then_steps-Recorded :
        (step : ℕ) (pinned : Bool) (m m' : Manifest) (s t : S) (r : Result (List ℕ))
        → then_steps step pinned m s r ≡ (ok true, t, m')
        → (m ≡ m') × (before : List ℕ) × (r ≡ ok before) × Recorded step pinned before t
    then_steps-Recorded step pinned m m' s t (ok before) h =
        let (same, recorded) =
          written-Recorded step pinned before m m' s t
            (write_pins b j (set_step step pinned before) s) refl h in
        (same, before, refl, recorded)
    then_steps-Recorded step pinned m m' s t (err e) h = cc
    then_steps-Recorded step pinned m m' s t panic h = cc

    then_pins-Changed :
        (step : ℕ) (pinned : Bool) (saved : Result (Unit {0}) × S × Manifest) (m' : Manifest)
        (t : S)
        → then_pins step pinned saved ≡ (ok true, t, m')
        → (saved ≡ (ok tt, saved.1, m')) × Changed step pinned m' saved.1 t
    then_pins-Changed step pinned (ok done, s, m) m' t h =
        let (same, before, is, recorded) =
          then_steps-Recorded step pinned m m' s t (steps_before m (read_pins b j s)) h in
        (
          ap (λ n. (ok tt, s, n)) same,
          (before, ap (λ n. steps_before n (read_pins b j s)) (sym same) ∙ is, recorded),
        )
    then_pins-Changed step pinned (err e, s, m) m' t h = cc
    then_pins-Changed step pinned (panic, s, m) m' t h = cc

    -- The snapshots with the flag of one id set.
    abbrev pub with_flag : Uuid → Bool → List Snapshot → List Snapshot
    with_flag id pinned snapshots =
        map (λ v. if v.id == id then record v { pinned = pinned } else v) snapshots

    flag_one :
        (pinned : Bool) (v : Snapshot)
        → differs v.pinned pinned ≡ false
        → v ≡ record v { pinned = pinned }
    flag_one pinned v h = ap (λ p. record v { pinned = p }) (same v.pinned pinned h)
      where
        same : (p q : Bool) → differs p q ≡ false → p ≡ q
        same true true h = refl
        same true false h = cc
        same false q h = sym h

    flag_snapshots-with_flag :
        (id : Uuid) (pinned : Bool) (snapshots : List Snapshot)
        → flag_snapshots id pinned snapshots ≡ with_flag id pinned snapshots
    unfolding flag_snapshots
    flag_snapshots-with_flag id pinned [] = refl
    flag_snapshots-with_flag id pinned (v ∷ snapshots) =
        ap₂ (λ w ws. w ∷ ws) one (flag_snapshots-with_flag id pinned snapshots)
      where
        one :
            (if needs_flag id pinned v then record v { pinned = pinned } else v)
            ≡ (if v.id == id then record v { pinned = pinned } else v)
        one = elim (Bool-cases (v.id == id)) [
          | inr other ↦ rw other refl
          | inl hit ↦ elim (Bool-cases (differs v.pinned pinned)) [
            | inl new ↦ rw (hit, new) refl
            | inr old ↦ rw (hit, old) (flag_one pinned v old)
          ]
        ]

    -- The manifest was saved with the flag set, or nothing was written since the flag was there.
    abbrev pub FlagSaved : Uuid → Bool → Manifest → S → Manifest → S → Type 0
    FlagSaved id pinned m s m' s' =
        ((any (needs_flag id pinned) m.snapshots ≡ true)
          × (persist b mj (with_snapshots (with_flag id pinned m.snapshots) m) s ≡ (ok tt, s', m')))
        ⊎ ((any (needs_flag id pinned) m.snapshots ≡ false) × (s' ≡ s))

    then_index-snapshots :
        (m : Manifest) (r : Result (Unit {0}) × S) → (then_index b mj m r).2.snapshots ≡ m.snapshots
    then_index-snapshots m (ok done, t) = refl
    then_index-snapshots m (err e, t) = refl
    then_index-snapshots m (panic, t) = refl

    save_flag-FlagSaved :
        (id : Uuid) (pinned : Bool) (m m' : Manifest) (s s' : S)
        → save_flag id pinned m s ≡ (ok tt, s', m')
        → (m'.snapshots ≡ with_flag id pinned m.snapshots) × FlagSaved id pinned m s m' s'
    unfolding persist save_flag
    save_flag-FlagSaved id pinned m m' s s' h =
        elim (Bool-cases (any (needs_flag id pinned) m.snapshots)) [
          | inl new ↦
              let flagged = with_snapshots (with_flag id pinned m.snapshots) m in
              let saved : persist b mj flagged s ≡ (ok tt, s', m') =
                rw (save_flag, new, flag_snapshots-with_flag id pinned m.snapshots) at h in
              (
                sym (ap (λ r. r.2.snapshots) saved)
                    ∙ then_index-snapshots flagged (write_ranks b mj (to_write b mj flagged) s),
                inl (new, saved),
              )
          | inr old ↦
              let kept = rw (save_flag, old) at h in
              (
                sym (ap (λ r. r.2.snapshots) kept) ∙ flag_snapshots-with_flag id pinned m.snapshots,
                inr (old, sym (ap (λ r. r.1) kept)),
              )
        ]

    -- Where setting the pin of a step succeeds, the step has a finalized snapshot, and the manifest
    -- comes back with the flag of the newest of them as asked and no other flag changed. It was
    -- written to storage before the pins file, unless the flag was that before. The pins file then
    -- holds the step or not, as asked, and any other step just where the steps recorded before it do.
    pub set_pinned_lem :
        (step : ℕ) (pinned : Bool) (m m' : Manifest) (s t : S)
        → set_pinned step pinned m s ≡ (ok true, t, m')
        → (u : Snapshot) × (target_of step m ≡ some u)
          × (m'.snapshots ≡ with_flag u.id pinned m.snapshots)
          × (s' : S) × FlagSaved u.id pinned m s m' s'
          × Changed step pinned m' s' t
    unfolding set_pinned
    set_pinned_lem step pinned m m' s t h = elim (Option-cases (target_of step m)) [
      | inl no_target ↦ absurd cc (rw (set_pinned, no_target) at h)
      | inr (u, is) ↦
          let saved = save_flag u.id pinned m s in
          let (ended, changed) =
            then_pins-Changed step pinned saved m' t (rw (set_pinned, is) at h) in
          let (flags, kept) = save_flag-FlagSaved u.id pinned m m' s saved.1 ended in
          (u, is, flags, saved.1, kept, changed)
    ]
