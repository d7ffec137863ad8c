-- ===== src/InFlight/Tests.antt =====
-- A reader and a merge over three snapshots.
use moonclip.Prelude.{[], ◌∷◌, ◌≡◌, ◌↔◌, refl, true, not, ◌||◌, none, some, map}
use moonclip.Prelude.Search.{any, contains}
use moonclip.Manifest.{Uuid}
use moonclip.InFlight.{
  State, System, Reachable, pin, unpin, claim, is_doomed, wait_until_unpinned, empty_system, start,
  then_step, reader_enters, reader_leaves,
}
use moonclip.InFlight.Readers.{claim_lem, wait_until_unpinned_lem}

abbrev one_reader : System
one_reader = record (empty_system) {
  registry = pin (1 ∷ 2 ∷ []) (empty_system.registry);
  readers = (1 ∷ 2 ∷ []) ∷ [];
}

one_reader-Reachable : Reachable one_reader
one_reader-Reachable = then_step start (reader_enters empty_system (1 ∷ 2 ∷ []))

abbrev reader_left : System
reader_left = record (one_reader) {
  registry = unpin (1 ∷ 2 ∷ []) (one_reader.registry);
  readers = [];
}

reader_left-Reachable : Reachable reader_left
reader_left-Reachable =
    then_step one_reader-Reachable (reader_leaves one_reader [] [] (1 ∷ 2 ∷ []) refl)

claim_example :
    ((claim (2 ∷ 3 ∷ []) one_reader.registry ≡ none)
      ↔ (any (λ id. any (λ held. contains held id) one_reader.readers) (2 ∷ 3 ∷ []) ≡ true))
    × ((st : State)
        → claim (2 ∷ 3 ∷ []) one_reader.registry ≡ some st
        → (id : Uuid)
        → (is_doomed id st ≡ (contains (2 ∷ 3 ∷ []) id || is_doomed id one_reader.registry))
          × (st.pinned id ≡ one_reader.registry.pinned id))
claim_example = claim_lem one_reader one_reader-Reachable (2 ∷ 3 ∷ [])

wait_until_unpinned_example :
    wait_until_unpinned (2 ∷ []) one_reader.registry (map (λ t. t.registry) (reader_left ∷ []))
    ≡ any
        (λ t. not (any (λ id. any (λ held. contains held id) t.readers) (2 ∷ [])))
        (one_reader ∷ reader_left ∷ [])
wait_until_unpinned_example =
    wait_until_unpinned_lem (2 ∷ []) one_reader (reader_left ∷ []) one_reader-Reachable
      (reader_left-Reachable, tt)
