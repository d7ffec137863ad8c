-- ===== src/InFlight/Readers.antt =====
-- The registry counts the readers, in every interleaving.
use moonclip.Prelude.{
  ℕ, zero, suc, ◌+◌, ◌-◌, ◌≡◌, refl, sym, ap, ap₂, ◌∙◌, List, [], ◌∷◌, ◌++◌, Bool, true, false, not,
  ◌||◌, Option, none, some, ◌==◌, ltb, if◌then◌else◌, arith, inl, inr, Bool-cases, ==_iff, ◌↔◌, All,
  map,
}
use moonclip.Prelude.Search.{any, contains}
use moonclip.Manifest.{Uuid}
use moonclip.InFlight.{
  State, any_pinned, is_doomed, pin_one, pin_all, pin, claim, wait_until_unpinned, unpin_one,
  unpin_all, unpin, unclaim, System, reader_enters, reader_leaves, merge_claims, merge_ends,
  Reachable, start, then_step,
}

-- How often `x` occurs.
abbrev pub occurrences : List Uuid → Uuid → ℕ
occurrences [] x = 0
occurrences (id ∷ ids) x = if x == id then suc (occurrences ids x) else occurrences ids x

abbrev pub total : List (List Uuid) → Uuid → ℕ
total [] x = 0
total (ids ∷ rest) x = occurrences ids x + total rest x

-- The entry of a count: none for 0.
abbrev pub entry : ℕ → Option ℕ
entry zero = none
entry (suc n) = some (suc n)

zero_add : (n : ℕ) → n ≡ 0 + n
zero_add n = omega arith

pin_one-entry :
    (id : Uuid) (entries : Uuid → Option ℕ) (x : Uuid) (n : ℕ)
    → entries x ≡ entry n
    → pin_one id entries x ≡ entry (if x == id then suc n else n)
pin_one-entry id entries x n h = elim (Bool-cases (x == id)) [
  | inr other ↦ rw other h
  | inl same ↦ rw (same, sym (ap entries ((==_iff x id).0 same)) ∙ h) (shape n)
]
  where
    shape : (n : ℕ) → elim (entry n) [ none ↦ some 1 | some k ↦ some (suc k) ] ≡ some (suc n)
    shape zero = refl
    shape (suc n) = refl

unpin_one-entry :
    (id : Uuid) (entries : Uuid → Option ℕ) (x : Uuid) (n : ℕ)
    → entries x ≡ entry (if x == id then suc n else n)
    → unpin_one id entries x ≡ entry n
unpin_one-entry id entries x n h = elim (Bool-cases (x == id)) [
  | inr other ↦ rw other (h ∙ ap (λ b. entry (if b then suc n else n)) other)
  | inl same ↦
      rw
        (
          same,
          sym (ap entries ((==_iff x id).0 same))
              ∙ h
              ∙ ap (λ b. entry (if b then suc n else n)) same,
        )
        (shape n)
]
  where
    suc_sub : (n : ℕ) → suc (suc n) - 1 ≡ suc n
    suc_sub n = omega arith

    shape : (n : ℕ) → (if ltb 1 (suc n) then some (suc n - 1) else none) ≡ entry n
    shape zero = refl
    shape (suc n) = ground (arith, ap some (suc_sub n))

pin_all-entry :
    (ids : List Uuid) (entries : Uuid → Option ℕ) (x : Uuid) (n : ℕ)
    → entries x ≡ entry n
    → pin_all ids entries x ≡ entry (occurrences ids x + n)
pin_all-entry [] entries x n h = h ∙ ap entry (zero_add n)
pin_all-entry (id ∷ ids) entries x n h =
    pin_all-entry ids (pin_one id entries) x _ (pin_one-entry id entries x n h)
    ∙ ap entry (ground arith)

unpin_all-entry :
    (ids : List Uuid) (entries : Uuid → Option ℕ) (x : Uuid) (n : ℕ)
    → entries x ≡ entry (occurrences ids x + n)
    → unpin_all ids entries x ≡ entry n
unpin_all-entry [] entries x n h = h ∙ ap entry (sym (zero_add n))
unpin_all-entry (id ∷ ids) entries x n h =
    unpin_all-entry ids (unpin_one id entries) x n
      (unpin_one-entry id entries x (occurrences ids x + n) (h ∙ ap entry (ground arith)))

total-remove :
    (front back : List (List Uuid)) (ids : List Uuid) (x : Uuid)
    → total (front ++ (ids ∷ back)) x ≡ occurrences ids x + total (front ++ back) x
total-remove [] back ids x = refl
total-remove (g ∷ front) back ids x = omega (arith, total-remove front back ids x)

claim_pins :
    (t : System) (ids : List Uuid) (st : State)
    → claim ids t.registry ≡ some st
    → (x : Uuid) → st.pinned x ≡ t.registry.pinned x
unfolding claim
claim_pins t ids st is x = elim (Bool-cases (any_pinned t.registry ids)) [
  | inl busy ↦ absurd cc (rw busy at is)
  | inr free ↦ same (rw free at is)
]
  where
    same :
        some (record (t.registry) { doomed = λ y. contains ids y || t.registry.doomed y }) ≡ some st
        → st.pinned x ≡ t.registry.pinned x
    same e = cc

-- The count of a snapshot is the number of times the readers hold it.
pub count_lem :
    (s : System) → Reachable s → (x : Uuid) → s.registry.pinned x ≡ entry (total s.readers x)
unfolding pin unpin claim unclaim
count_lem s start x = refl
count_lem s (then_step r (reader_enters t ids)) x =
    pin_all-entry ids t.registry.pinned x (total t.readers x) (count_lem t r x)
count_lem s (then_step r (reader_leaves t front back ids is)) x =
    unpin_all-entry ids t.registry.pinned x (total (front ++ back) x) (
      count_lem t r x
      ∙ ap entry (ap (λ readers. total readers x) is ∙ total-remove front back ids x))
count_lem s (then_step r (merge_claims t ids st is)) x = claim_pins t ids st is x ∙ count_lem t r x
count_lem s (then_step r (merge_ends t front back ids is)) x = count_lem t r x

-- In every reachable state a snapshot is taken to be pinned exactly if some reader holds it.
pub any_pinned_lem :
    (s : System)
    → Reachable s
    → (ids : List Uuid)
    → any_pinned s.registry ids ≡ any (λ id. any (λ held. contains held id) s.readers) ids
unfolding any_pinned
any_pinned_lem s r [] = refl
any_pinned_lem s r (id ∷ ids) =
    rw (count_lem s r id) (ap₂ (λ a b. a || b) (held s.readers id) (any_pinned_lem s r ids))
  where
    held_in : (ids : List Uuid) (x : Uuid) → ltb 0 (occurrences ids x) ≡ contains ids x
    held_in [] x = refl
    held_in (y ∷ ids) x = ground (arith, held_in ids x)

    held_any :
        (readers : List (List Uuid)) (x : Uuid)
        → ltb 0 (total readers x) ≡ any (λ ids. contains ids x) readers
    held_any [] x = refl
    held_any (g ∷ readers) x = ground (arith, held_in g x, held_any readers x)

    of_entry : (n : ℕ) → elim (entry n) [ none ↦ false | some k ↦ ltb 0 k ] ≡ ltb 0 n
    of_entry zero = refl
    of_entry (suc n) = refl

    held :
        (readers : List (List Uuid)) (x : Uuid)
        → elim (entry (total readers x)) [ none ↦ false | some k ↦ ltb 0 k ]
          ≡ any (λ ids. contains ids x) readers
    held readers x = of_entry (total readers x) ∙ held_any readers x

-- A merge's claim is granted exactly if no reader holds one of the snapshots, and then every one of
-- them is doomed, and nothing else changes.
pub claim_lem :
    (s : System)
    → Reachable s
    → (ids : List Uuid)
    → ((claim ids s.registry ≡ none)
        ↔ (any (λ id. any (λ held. contains held id) s.readers) ids ≡ true))
      × ((st : State)
          → claim ids s.registry ≡ some st
          → (id : Uuid)
          → (is_doomed id st ≡ (contains ids id || is_doomed id s.registry))
            × (st.pinned id ≡ s.registry.pinned id))
unfolding claim is_doomed
claim_lem s r ids =
    (refused (any_pinned_lem s r ids), λ st is id. (dooms st id is, claim_pins s ids st is id))
  where
    refused :
        {b : Bool} → any_pinned s.registry ids ≡ b → (claim ids s.registry ≡ none) ↔ (b ≡ true)
    refused {b} e = elim (Bool-cases (any_pinned s.registry ids)) [
      | inl busy ↦ ((λ _. sym e ∙ busy), λ _. rw busy)
      | inr free ↦ ((λ h. absurd cc (rw free at h)), λ h. absurd cc (free, e, h))
    ]

    dooms :
        (st : State) (id : Uuid)
        → claim ids s.registry ≡ some st
        → st.doomed id ≡ (contains ids id || s.registry.doomed id)
    dooms st id is = elim (Bool-cases (any_pinned s.registry ids)) [
      | inl busy ↦ absurd cc (rw busy at is)
      | inr free ↦ sym (ap (λ o. elim o [ none ↦ false | some r ↦ r.doomed id ]) (rw free at is))
    ]

-- The wait for readers answers that the snapshots are clear exactly if, in the first state that it sees
-- or one that it wakes up in before the deadline, no reader holds any of them.
pub wait_until_unpinned_lem :
    (ids : List Uuid) (s : System) (later : List System)
    → Reachable s
    → All Reachable later
    → wait_until_unpinned ids s.registry (map (λ t. t.registry) later)
      ≡ any (λ t. not (any (λ id. any (λ held. contains held id) t.readers) ids)) (s ∷ later)
unfolding wait_until_unpinned
wait_until_unpinned_lem ids s [] r rs = rw (any_pinned_lem s r ids) (or_false (any _ ids))
  where
    or_false : (b : Bool) → not b ≡ (not b || false)
    or_false b = ground arith
wait_until_unpinned_lem ids s (t ∷ later) r rs =
    rw (any_pinned_lem s r ids, wait_until_unpinned_lem ids t later rs.0 rs.1)
      (choose (any _ ids) _)
  where
    choose : (a b : Bool) → (if a then b else true) ≡ (not a || b)
    choose a b = ground arith
