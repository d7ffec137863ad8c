-- ===== src/InFlight.antt =====
-- src/inflight.rs: the registry of the snapshots that are being read and of those that a merge has
-- claimed. Each operation runs under the registry's lock, so it is one step. A count stays far below
-- 2 ^ 64, and its `+= 1` is written without the wrap-around.
pub mod Readers
mod Tests
use moonclip.Prelude.{
  ℕ, zero, suc, ◌+◌, ◌-◌, ◌≡◌, List, [], ◌∷◌, ◌++◌, Bool, true, false, not, ◌&&◌, ◌||◌, Option,
  none, some, ◌==◌, ltb, if◌then◌else◌,
}
use moonclip.Prelude.Search.{any, contains}
use moonclip.Manifest.{Uuid}

pub record State : Type 0 where
  pub pinned : Uuid → Option ℕ
  pub doomed : Uuid → Bool

unfoldable pub any_pinned : State → List Uuid → Bool
any_pinned st ids = any (λ id. elim (st.pinned id) [ none ↦ false | some n ↦ ltb 0 n ]) ids

-- `*entry(id).or_insert(0) += 1`
abbrev pub pin_one : Uuid → (Uuid → Option ℕ) → Uuid → Option ℕ
pin_one id entries x =
    if x == id then elim (entries id) [ none ↦ some 1 | some n ↦ some (suc n) ] else entries x

abbrev pub pin_all : List Uuid → (Uuid → Option ℕ) → Uuid → Option ℕ
pin_all [] entries = entries
pin_all (id ∷ ids) entries = pin_all ids (pin_one id entries)

-- The `PinGuard` that comes back is the ids.
unfoldable pub pin : List Uuid → State → State
pin ids st = record st { pinned = pin_all ids st.pinned }

unfoldable pub is_doomed : Uuid → State → Bool
is_doomed id st = st.doomed id

-- The claim, or none where somebody reads one of the snapshots.
unfoldable pub claim : List Uuid → State → Option State
claim ids st =
    if any_pinned st ids
    then none
    else some (record st { doomed = λ x. contains ids x || st.doomed x })

-- The wait, given the states that it wakes up in until the deadline.
unfoldable pub wait_until_unpinned : List Uuid → State → List State → Bool
wait_until_unpinned ids st [] = not (any_pinned st ids)
wait_until_unpinned ids st (next ∷ later) =
    let rest = wait_until_unpinned ids next later in if any_pinned st ids then rest else true

abbrev pub unpin_one : Uuid → (Uuid → Option ℕ) → Uuid → Option ℕ
unpin_one id entries x =
    if x == id
    then elim (entries id) [ none ↦ none | some n ↦ if ltb 1 n then some (n - 1) else none ]
    else entries x

abbrev pub unpin_all : List Uuid → (Uuid → Option ℕ) → Uuid → Option ℕ
unpin_all [] entries = entries
unpin_all (id ∷ ids) entries = unpin_all ids (unpin_one id entries)

-- `PinGuard::drop`
unfoldable pub unpin : List Uuid → State → State
unpin ids st = record st { pinned = unpin_all ids st.pinned }

-- `ClaimGuard::drop`
unfoldable pub unclaim : List Uuid → State → State
unclaim ids st = record st { doomed = λ x. not (contains ids x) && st.doomed x }

abbrev pub empty_state : State
empty_state = record { pinned = λ x. none; doomed = λ x. false }

-- The registry and the guards that are held.
pub record System : Type 0 where
  pub registry : State
  pub readers : List (List Uuid)
  pub merges : List (List Uuid)

abbrev pub empty_system : System
empty_system = record { registry = empty_state; readers = []; merges = [] }

-- One operation of any thread.
pub data Step : System → System → Type 0 where
  reader_enters :
      (s : System) (ids : List Uuid)
      → Step s (record s { registry = pin ids s.registry; readers = ids ∷ s.readers })
  reader_leaves :
      (s : System) (front back : List (List Uuid)) (ids : List Uuid)
      → s.readers ≡ front ++ (ids ∷ back)
      → Step s (record s { registry = unpin ids s.registry; readers = front ++ back })
  merge_claims :
      (s : System) (ids : List Uuid) (st : State)
      → claim ids s.registry ≡ some st
      → Step s (record s { registry = st; merges = ids ∷ s.merges })
  merge_ends :
      (s : System) (front back : List (List Uuid)) (ids : List Uuid)
      → s.merges ≡ front ++ (ids ∷ back)
      → Step s (record s { registry = unclaim ids s.registry; merges = front ++ back })

-- What any interleaving of the threads reaches.
pub data Reachable : System → Type 0 where
  start : Reachable empty_system
  then_step : {s t : System} → Reachable s → Step s t → Reachable t
