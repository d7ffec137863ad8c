-- ===== src/Merger/Stride.antt =====
-- What a stride merge folds away.
use moonclip.Prelude.{
  ℕ, zero, suc, ◌≡◌, refl, sym, ap, ◌∙◌, List, [], ◌∷◌, ◌++◌, Bool, true, false, not, ◌&&◌, ◌||◌,
  some, ◌==◌, ltb, inl, inr, Bool-cases, Option-cases, drop, arith, All, length, length-append,
  drop-append, ◌-◌,
}
use moonclip.Prelude.Member.{Memᴰ, any_elim, contains-map-filter}
use moonclip.Prelude.Search.{find, any, contains, find_split, reverse_around}
use moonclip.Manifest.{Uuid, Snapshot, Manifest, pending_delta_count}
use moonclip.Storage.{StorageBackend}
use moonclip.ManifestIo.{ManifestJson}
use moonclip.Merger.{MergerConfig, same_base, tail_of, superseded_by, to_fold}
use moonclip.Manifest.{is_some}
use moonclip.Manifest.Base.{pending_delta_count_lem}
use moonclip.Retention.Steps.{has_unique_ids, unique_same}
use mathlib.Core.List.{reverse, reverse-reverse}
use mathlib.Core.List.Memᴰ.{head, tail, not-nil}

In-middle : {A : Type 0} (front back : List A) (x : A) → Memᴰ x (front ++ (x ∷ back))
In-middle [] back x = head refl
In-middle (y ∷ front) back x = tail (In-middle front back x)

In-reverse :
    {A : Type 0} (p : A → Bool) (xs : List A) (x : A)
    → find p (reverse xs) ≡ some x
    → Memᴰ x xs × (p x ≡ true)
In-reverse p xs x h =
    let (front, back, split, hit, others) = find_split p (reverse xs) x h in
    let order : xs ≡ reverse back ++ (x ∷ reverse front) =
      sym (reverse-reverse xs) ∙ ap reverse split ∙ reverse_around front back x in
    (rw order (In-middle (reverse back) (reverse front) x), hit)

In-drop : {A : Type 0} (n : ℕ) (xs : List A) (x : A) → Memᴰ x (drop n xs) → Memᴰ x xs
In-drop zero xs x i = i
In-drop (suc n) [] x i = absurd (not-nil i)
In-drop (suc n) (y ∷ xs) x i = tail (In-drop n xs x i)

both : (p q : Bool) → (p && q) ≡ true → (p ≡ true) × (q ≡ true)
both true q h = (refl, h)
both false q h = absurd cc h

-- A survivor is not among those that it supersedes.
survivor_stays :
    (survivor : Snapshot) (snapshots : List Snapshot)
    → any
        (λ s.
          (s.finalized
            && (not (s.id == survivor.id)
                && same_base s.base_snapshot_id survivor.base_snapshot_id))
          && (s.id == survivor.id))
        snapshots
      ≡ false
survivor_stays survivor [] = refl
survivor_stays survivor (s ∷ snapshots) = ground (arith, survivor_stays survivor snapshots)

-- One of the deltas that the snapshots end in.
abbrev pub IsTrailing : List Snapshot → Snapshot → Type 0
IsTrailing snapshots u =
    (front tail : List Snapshot) × (snapshots ≡ front ++ tail)
    × All (λ s. is_some s.base_snapshot_id ≡ true) tail
    × Memᴰ u tail

module _ {S : Type 0} (b : StorageBackend S) (j : ManifestJson) where
  tail_of-append :
      (m : Manifest) (front back : List Snapshot)
      → m.snapshots ≡ front ++ back
      → length back ≡ pending_delta_count m
      → tail_of b j m ≡ back
  tail_of-append m front back e n =
      ap (λ k. drop k m.snapshots) {x = length m.snapshots - pending_delta_count m}
        {y = length front} (omega (arith, ap (λ ss. length ss) e, length-append front back, n))
      ∙ ap (λ ss. drop (length front) ss) e
      ∙ drop-append front back

  In-tail_of : (m : Manifest) (u : Snapshot) → Memᴰ u (tail_of b j m) → IsTrailing m.snapshots u
  In-tail_of m u i =
      let (front, back, e, n, deltas, before) = pending_delta_count_lem m in
      (front, back, e, deltas, rw (tail_of-append m front back e n) at i)

  -- What a fold drops for a survivor: finalized trailing deltas of the survivor's base. The survivor is
  -- one of the trailing deltas as well, and stays.
  abbrev pub IsFolded : List Uuid → List Snapshot → Snapshot → Type 0
  IsFolded ids snapshots u =
      (survivor : Snapshot) × IsTrailing snapshots survivor
      × IsTrailing snapshots u
      × (survivor.finalized ≡ true)
      × (contains ids survivor.id ≡ false)
      × (u.finalized ≡ true)
      × (same_base u.base_snapshot_id survivor.base_snapshot_id ≡ true)

  superseded_by-IsFolded :
      (survivor u : Snapshot) (m : Manifest)
      → has_unique_ids m.snapshots ≡ true
      → Memᴰ u m.snapshots
      → Memᴰ survivor (tail_of b j m)
      → survivor.finalized ≡ true
      → contains (superseded_by b j survivor (tail_of b j m)) u.id ≡ true
      → IsFolded (superseded_by b j survivor (tail_of b j m)) m.snapshots u
  superseded_by-IsFolded survivor u m unique i k fin h =
      let old : Snapshot → Bool = λ s.
        s.finalized
        && (not (s.id == survivor.id) && same_base s.base_snapshot_id survivor.base_snapshot_id) in
      let (v, kv, pv) =
        any_elim (λ v. old v && (v.id == u.id)) (tail_of b j m)
          (sym (contains-map-filter (λ v. v.id) old (tail_of b j m) u.id) ∙ h) in
      let (is_old, ids) = both (old v) (v.id == u.id) pv in
      let same : v ≡ u = unique_same m.snapshots unique v u (In-drop _ m.snapshots v kv) i ids in
      let (fin_u, rest) = both u.finalized _ (ap old (sym same) ∙ is_old) in
      (
        survivor,
        In-tail_of m survivor k,
        rw same at (In-tail_of m v kv),
        fin,
        contains-map-filter (λ v. v.id) old (tail_of b j m) survivor.id
            ∙ survivor_stays survivor (tail_of b j m),
        fin_u,
        (both (not (u.id == survivor.id)) _ rest).1,
      )

  -- Of a manifest without two snapshots of one id, a stride merge folds away only finalized deltas of
  -- the run that the manifest ends in, each of the same base as one finalized delta of that run that
  -- stays.
  pub to_fold_lem :
      (config : MergerConfig) (m : Manifest) (u : Snapshot)
      → has_unique_ids m.snapshots ≡ true
      → Memᴰ u m.snapshots
      → contains (to_fold b j config m) u.id ≡ true
      → IsFolded (to_fold b j config m) m.snapshots u
  unfolding to_fold
  to_fold_lem config m u unique i h =
      elim (Bool-cases ((config.stride == 0) || ltb (pending_delta_count m) config.stride)) [
        | inl few ↦ absurd cc (rw (to_fold, few) at h)
        | inr enough ↦ elim (Option-cases (find (λ s. s.finalized) (reverse (tail_of b j m)))) [
          | inl open_only ↦ absurd cc (rw (to_fold, enough, open_only) at h)
          | inr (survivor, found) ↦
              let (k, fin) = In-reverse (λ s. s.finalized) (tail_of b j m) survivor found in
              rw (to_fold, enough, found)
                (superseded_by-IsFolded survivor u m unique i k fin
                  (rw (to_fold, enough, found) at h))
        ]
      ]
