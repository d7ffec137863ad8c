-- ===== src/Pins.antt =====
-- src/coordinator/mod.rs: the pins file, which every process with the store open reads. serde_json is
-- a parameter.
pub mod File
pub mod Set
mod Tests
use moonclip.Prelude.{
  ℕ, List, [], ◌∷◌, ◌++◌, Bool, true, false, not, Option, none, some, ◌==◌, if◌then◌else◌, map, ◌≡◌,
  ◌&&◌,
}
use moonclip.Prelude.Search.{filter, contains, sort, dedup}
use moonclip.Error.{MoonclipError, Result, ok, err, panic}
use moonclip.Error.MoonclipError.{serialization, not_found}
use moonclip.Storage.{StorageBackend, trim_zeros, rposition_nonzero, FilePath}
use moonclip.Storage.Padding.{EndsNonzero}
use moonclip.Manifest.{Manifest}
use moonclip.Retention.{sync_pins}

abbrev pub pins_file : FilePath
pins_file = "pins.json"

-- `serde_json` at a list of steps.
pub record Json : Type 0 where
  pub to_vec : List ℕ → Option (List ℕ)
  pub from_slice : List ℕ → Option (List ℕ)

-- What serde_json documents: a text that it writes is read back, and is JSON text, without a zero byte
-- at its end.
pub record JsonLaws (j : Json) : Type 0 where
  pub from_slice-to_vec :
      (steps text : List ℕ) → j.to_vec steps ≡ some text → j.from_slice text ≡ some steps
  pub ends_nonzero : (steps text : List ℕ) → j.to_vec steps ≡ some text → EndsNonzero text

module _ {S : Type 0} (b : StorageBackend S) (j : Json) where
  abbrev pub parse_pins : Result (List ℕ) → Result (Option (List ℕ))
  parse_pins (ok bytes) = elim (j.from_slice (trim_zeros bytes)) [
    | none ↦ err serialization
    | some steps ↦ ok (some steps)
  ]
  parse_pins (err (not_found path)) = ok none
  parse_pins (err e) = err e
  parse_pins panic = panic

  unfoldable pub read_pins : S → Result (Option (List ℕ))
  read_pins s = parse_pins (b.get pins_file s)

  unfoldable pub write_pins : List ℕ → S → Result (Unit {0}) × S
  write_pins steps s = elim (j.to_vec steps) [
    | none ↦ (err serialization, s)
    | some json ↦ b.put pins_file json s
  ]

-- The steps that `set_pinned` writes, from those there were.
unfoldable pub set_step : ℕ → Bool → List ℕ → List ℕ
set_step step pinned steps =
    dedup (sort (filter (λ s. not (s == step)) steps ++ (if pinned then step ∷ [] else [])))

-- The steps of the pinned snapshots, after what the pins file holds.
unfoldable pub pinned_steps : Option (List ℕ) → Manifest → List ℕ
pinned_steps pins m =
    dedup (
      sort (map (λ s. s.step) (filter (λ s. s.pinned && s.finalized) (sync_pins pins m).snapshots)))
