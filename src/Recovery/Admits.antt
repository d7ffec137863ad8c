-- ===== src/Recovery/Admits.antt =====
-- What recovery puts back, and on what terms.
use moonclip.Prelude.{
  ◌≡◌, refl, ap, ◌∙◌, List, [], ◌∷◌, ◌++◌, map, Bool, true, false, not, ◌||◌, Option, none, some,
  ◌==◌, leb, if◌then◌else◌, ◌⊎◌, inl, inr, Bool-cases, Option-cases, length, arith,
}
use moonclip.Prelude.Member.{Memᴰ, In-append}
use moonclip.Prelude.Search.{any, any-append}
use moonclip.Manifest.{Uuid, Snapshot, Manifest}
use moonclip.Storage.{StorageBackend, FilePath}
use moonclip.Merger.Full.{insert_by_step, sort_by_step}
use moonclip.Recovery.{
  RecoveryExternals, rebuild_from_packs, snapshot_data_is_intact, orphans_of, judge_orphans,
  base_present, admit, recover_or_reclaim_orphans,
}
use Prim.Native.String.{String}
use mathlib.Core.List.Memᴰ.{head, tail, not-nil, cases_cons}

In-insert_by_step :
    (s u : Snapshot) (ss : List Snapshot) → Memᴰ u (insert_by_step s ss) → Memᴰ u (s ∷ ss)
In-insert_by_step s u [] i = i
In-insert_by_step s u (t ∷ ts) i = elim (Bool-cases (leb s.step t.step)) [
  | inl before ↦ rw (insert_by_step, before) at i
  | inr after ↦ elim (cases_cons (rw (insert_by_step, after) at i)) [
    | inl e ↦ tail (head e)
    | inr k ↦ elim (cases_cons (In-insert_by_step s u ts k)) [
      | inl e ↦ head e
      | inr l ↦ tail (tail l)
    ]
  ]
]

In-sort_by_step : (u : Snapshot) (ss : List Snapshot) → Memᴰ u (sort_by_step ss) → Memᴰ u ss
unfolding sort_by_step
In-sort_by_step u [] i = i
In-sort_by_step u (s ∷ ss) i = elim (cases_cons (In-insert_by_step s u (sort_by_step ss) i)) [
  | inl e ↦ head e
  | inr k ↦ tail (In-sort_by_step u ss k)
]

any-insert_by_step :
    (p : Snapshot → Bool) (s : Snapshot) (ss : List Snapshot)
    → any p (insert_by_step s ss) ≡ (p s || any p ss)
any-insert_by_step p s [] = refl
any-insert_by_step p s (t ∷ ts) = ground (arith, any-insert_by_step p s ts)

any-sort_by_step : (p : Snapshot → Bool) (ss : List Snapshot) → any p (sort_by_step ss) ≡ any p ss
unfolding sort_by_step
any-sort_by_step p [] = refl
any-sort_by_step p (s ∷ ss) =
    any-insert_by_step p s (sort_by_step ss) ∙ ap (λ r. p s || r) (any-sort_by_step p ss)

module _ {S : Type 0} (b : StorageBackend S) (x : RecoveryExternals S) (s : S) where
  -- The base of every snapshot is among the snapshots.
  abbrev pub IsBased : List Snapshot → Type 0
  IsBased snapshots = (u : Snapshot) → Memᴰ u snapshots → base_present b x s snapshots u ≡ true

  base_present-any :
      (old new : List Snapshot) (base : Option Uuid)
      → ((id : Uuid) → any (λ u. u.id == id) old ≡ true → any (λ u. u.id == id) new ≡ true)
      → (elim base as (λ _. Bool) [ none ↦ true | some id ↦ any (λ u. u.id == id) old ]) ≡ true
      → (elim base as (λ _. Bool) [ none ↦ true | some id ↦ any (λ u. u.id == id) new ]) ≡ true
  base_present-any old new none more h = refl
  base_present-any old new (some id) more h = more id h

  -- The new snapshot's base is there, and the others' bases stay.
  IsBased-append :
      (snapshots : List Snapshot) (c : Snapshot)
      → IsBased snapshots
      → base_present b x s snapshots c ≡ true
      → IsBased (snapshots ++ (c ∷ []))
  IsBased-append snapshots c based new u i =
      base_present-any snapshots (snapshots ++ (c ∷ [])) u.base_snapshot_id
        (λ id h. any-append (λ v. v.id == id) snapshots (c ∷ []) ∙ rw h refl)
        (elim (In-append snapshots (c ∷ []) u i) [
          | inl old ↦ based u old
          | inr k ↦ elim (cases_cons k) [
            | inl e ↦ ap (base_present b x s snapshots) e ∙ new
            | inr none_left ↦ absurd (not-nil none_left)
          ]
        ])

  admit-IsBased :
      (candidates snapshots : List Snapshot)
      → IsBased snapshots
      → IsBased (admit b x s snapshots candidates).0
  unfolding admit
  admit-IsBased [] snapshots based = based
  admit-IsBased (c ∷ candidates) snapshots based =
      elim (Bool-cases (base_present b x s snapshots c)) [
        | inl present ↦
            rw (admit, present)
              (admit-IsBased candidates (snapshots ++ (c ∷ []))
                (IsBased-append snapshots c based present))
        | inr lost ↦ rw (admit, lost) (admit-IsBased candidates snapshots based)
      ]

  In-admit :
      (candidates snapshots : List Snapshot) (u : Snapshot)
      → Memᴰ u (admit b x s snapshots candidates).0
      → Memᴰ u snapshots ⊎ Memᴰ u candidates
  unfolding admit
  In-admit [] snapshots u i = inl i
  In-admit (c ∷ candidates) snapshots u i = elim (Bool-cases (base_present b x s snapshots c)) [
    | inl present ↦
        elim (In-admit candidates (snapshots ++ (c ∷ [])) u (rw (admit, present) at i)) [
          | inr k ↦ inr (tail k)
          | inl k ↦ elim (In-append snapshots (c ∷ []) u k) [
            | inl old ↦ inl old
            | inr new ↦ elim (cases_cons new) [ inl e ↦ inr (head e) | inr l ↦ absurd (not-nil l) ]
          ]
        ]
    | inr lost ↦ elim (In-admit candidates snapshots u (rw (admit, lost) at i)) [
      | inl old ↦ inl old
      | inr k ↦ inr (tail k)
    ]
  ]

  -- A snapshot that was rebuilt from the packs of some directory and whose data is all there.
  abbrev pub IsWhole : Snapshot → Type 0
  IsWhole u =
      (snapshot_data_is_intact b x s u ≡ true)
      × (id : String) × (files : List FilePath) × (rebuild_from_packs b x s id files ≡ some u)

  judged :
      (orphans : List (String × List FilePath)) (u : Snapshot)
      → Memᴰ u (judge_orphans b x s orphans).0
      → IsWhole u
  unfolding judge_orphans
  judged [] u i = absurd (not-nil i)
  judged ((id, files) ∷ orphans) u i = elim (Option-cases (rebuild_from_packs b x s id files)) [
    | inl failed ↦ judged orphans u (rw (judge_orphans, failed) at i)
    | inr (snapshot, built) ↦ elim (Bool-cases (snapshot_data_is_intact b x s snapshot)) [
      | inr damaged ↦ judged orphans u (rw (judge_orphans, built, damaged) at i)
      | inl intact ↦ elim (cases_cons (rw (judge_orphans, built, intact) at i)) [
        | inl e ↦ rw e (intact, id, files, built)
        | inr k ↦ judged orphans u k
      ]
    ]
  ]

  sort_by_step-IsBased :
      (snapshots : List Snapshot) → IsBased snapshots → IsBased (sort_by_step snapshots)
  sort_by_step-IsBased snapshots based u i =
      base_present-any snapshots (sort_by_step snapshots) u.base_snapshot_id
        (λ id h. any-sort_by_step (λ v. v.id == id) snapshots ∙ h)
        (based u (In-sort_by_step u snapshots i))

  -- What came of admitting candidates, sorted or not.
  Recovered : List Snapshot → List Snapshot → Type 0
  Recovered old snapshots =
      IsBased snapshots × ((u : Snapshot) → Memᴰ u snapshots → Memᴰ u old ⊎ IsWhole u)

  sort_by_step-Recovered :
      (old snapshots : List Snapshot) (r : Bool)
      → Recovered old snapshots
      → Recovered old (if r then sort_by_step snapshots else snapshots)
  unfolding Recovered
  sort_by_step-Recovered old snapshots false h = h
  sort_by_step-Recovered old snapshots true (based, from) =
      (sort_by_step-IsBased snapshots based, λ u i. from u (In-sort_by_step u snapshots i))

  admit-Recovered :
      (old : List Snapshot) (orphans : List (String × List FilePath))
      → IsBased old
      → Recovered old (admit b x s old (sort_by_step (judge_orphans b x s orphans).0)).0
  unfolding Recovered
  admit-Recovered old orphans based = (
    admit-IsBased (sort_by_step (judge_orphans b x s orphans).0) old based,
    λ u i. elim (In-admit (sort_by_step (judge_orphans b x s orphans).0) old u i) [
      | inl k ↦ inl k
      | inr k ↦ inr (judged orphans u (In-sort_by_step u (judge_orphans b x s orphans).0 k))
    ],
  )

  -- Where the base of every snapshot is in the manifest, it is so after the recovery, and every
  -- snapshot that recovery adds was rebuilt from its packs and has all its data.
  pub recover_lem :
      (m : Manifest)
      → IsBased m.snapshots
      → IsBased (recover_or_reclaim_orphans b x s m).1.snapshots
        × ((u : Snapshot)
            → Memᴰ u (recover_or_reclaim_orphans b x s m).1.snapshots
            → Memᴰ u m.snapshots ⊎ IsWhole u)
  unfolding recover_or_reclaim_orphans Recovered
  recover_lem m based = elim (Option-cases (x.list s)) [
    | inl failed ↦ rw (recover_or_reclaim_orphans, failed) (based, λ u i. inl i)
    | inr (files, listed) ↦
        let orphans = orphans_of b x s (map (λ u. x.uuid_text u.id) m.snapshots) files in
        let admitted = (admit b x s m.snapshots (sort_by_step (judge_orphans b x s orphans).0)).0 in
        rw (recover_or_reclaim_orphans, listed)
          (sort_by_step-Recovered m.snapshots admitted (not (length admitted == length m.snapshots))
            (admit-Recovered m.snapshots orphans based))
  ]
