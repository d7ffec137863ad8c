-- ===== src/Pins/File.antt =====
-- What is written to the pins file is read back, and pinning a step changes no other.
use moonclip.Prelude.{
  ℕ, List, [], ◌∷◌, ◌++◌, ◌≡◌, ap, ◌∙◌, Bool, true, false, not, ◌||◌, Option, none, some, ◌==◌,
  if◌then◌else◌, inl, inr, Option-cases, arith,
}
use moonclip.Prelude.Search.{filter, contains, sort, contains-sort, contains-dedup, any-append}
use moonclip.Error.{Result, ok, err}
use moonclip.Error.MoonclipError.{serialization}
use moonclip.Storage.{StorageBackend, StorageLaws}
use moonclip.Storage.Padding.{trim_zeros-append}
use moonclip.Pins.{pins_file, Json, JsonLaws, parse_pins, read_pins, write_pins, set_step}

-- On any storage backend that keeps its laws, steps that were written to the pins file are what is
-- read from it, padding or not.
pub read_pins-write_pins :
    {S : Type 0} (b : StorageBackend S) (laws : StorageLaws b) (j : Json) (json : JsonLaws j)
    (steps : List ℕ) (s t : S)
    → write_pins b j steps s ≡ (ok tt, t)
    → read_pins b j t ≡ ok (some steps)
unfolding write_pins read_pins
read_pins-write_pins b laws j json steps s t h = elim (Option-cases (j.to_vec steps)) [
  | inl failed ↦ absurd cc (rw (failed, write_pins) at h)
  | inr (text, is) ↦
      let (n, got) = laws.get-put_self pins_file text s t (rw (is, write_pins) at h) in
      ap (parse_pins b j) got
      ∙ ap (λ bytes. parsed (j.from_slice bytes))
          (trim_zeros-append text n (json.ends_nonzero steps text is))
      ∙ ap parsed (json.from_slice-to_vec steps text is)
]
  where
    parsed : Option (List ℕ) → Result (Option (List ℕ))
    parsed o = elim o [ none ↦ err serialization | some read ↦ ok (some read) ]

contains-filter :
    (step x : ℕ) (steps : List ℕ)
    → contains (filter (λ s. not (s == step)) steps) x
      ≡ (if x == step then false else contains steps x)
contains-filter step x [] = ground arith
contains-filter step x (s ∷ steps) = ground (arith, contains-filter step x steps)

-- After pinning or unpinning a step, that step is pinned or not as asked, and every other one as
-- before.
pub set_step_lem :
    (step x : ℕ) (pinned : Bool) (steps : List ℕ)
    → contains (set_step step pinned steps) x ≡ (if x == step then pinned else contains steps x)
unfolding set_step
set_step_lem step x pinned steps =
    let added : List ℕ = if pinned then step ∷ [] else [] in
    let kept : List ℕ = filter (λ s. not (s == step)) steps in
    contains-dedup x (sort (kept ++ added))
    ∙ contains-sort x (kept ++ added)
    ∙ any-append (λ y. y == x) kept added
    ∙ ap (λ r. r || contains added x) (contains-filter step x steps)
    ∙ last pinned
  where
    last :
        (pinned : Bool)
        → ((if x == step then false else contains steps x)
            || contains (if pinned then step ∷ [] else []) x)
          ≡ (if x == step then pinned else contains steps x)
    last true = ground arith
    last false = ground arith
