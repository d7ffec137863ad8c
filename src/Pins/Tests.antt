-- ===== src/Pins/Tests.antt =====
-- A pins file on the local filesystem, with a text of one byte a step and a closing byte.
use moonclip.Prelude.{
  ℕ, suc, ◌-◌, List, [], ◌∷◌, ◌≡◌, refl, sym, ap, ◌∙◌, false, Option, none, some, arith,
}
use moonclip.Error.{ok}
use moonclip.Storage.{write_file, Disk, local_storage, rposition_nonzero, store, write_parts}
use moonclip.Storage.Padding.{EndsNonzero}
use moonclip.Storage.Local.{local_storage-StorageLaws}
use moonclip.Pins.{Json, JsonLaws, read_pins, write_pins, set_step}
use moonclip.Error.{Result}
use moonclip.Prelude.{Bool, true}
use moonclip.Prelude.Assoc.{lookup, insert, remove}
use moonclip.Manifest.{RankEntry, Snapshot, Manifest, default_retention, default_lineage, zstd}
use moonclip.Storage.{padded, padding, join_parts, trim_zeros}
use moonclip.ManifestIo.{persist, write_ranks, write_index, ranks_path}
use moonclip.ManifestIo.Numbers.{numbers}
use moonclip.Pins.Set.{
  set_pinned, save_flag, target_of, with_flag, FlagSaved, Changed, set_pinned_lem,
}
use moonclip.Pins.File.{read_pins-write_pins}

abbrev print_steps : List ℕ → List ℕ
print_steps [] = 93 ∷ []
print_steps (s ∷ ss) = suc s ∷ print_steps ss

abbrev read_steps : List ℕ → Option (List ℕ)
read_steps [] = none
read_steps (x ∷ []) = some []
read_steps (x ∷ y ∷ rest) = elim (read_steps (y ∷ rest)) [
  | none ↦ none
  | some ss ↦ some ((x - 1) ∷ ss)
]

read_steps-print_steps : (ss : List ℕ) → read_steps (print_steps ss) ≡ some ss
read_steps-print_steps [] = refl
read_steps-print_steps (s ∷ []) = ap (λ t. some (t ∷ [])) (omega arith)
read_steps-print_steps (s ∷ s' ∷ ss) =
    rw (read_steps-print_steps (s' ∷ ss)) (ap (λ t. some (t ∷ s' ∷ ss)) (omega arith))

print_steps-EndsNonzero : (ss : List ℕ) → EndsNonzero (print_steps ss)
unfolding rposition_nonzero
print_steps-EndsNonzero [] = (0, refl, refl)
print_steps-EndsNonzero (s ∷ ss) =
    let (i, e, l) = print_steps-EndsNonzero ss in (suc i, rw e refl, omega (arith, l))

abbrev one_byte_json : Json
one_byte_json = record { to_vec = λ ss. some (print_steps ss); from_slice = read_steps }

one_byte_json-JsonLaws : JsonLaws one_byte_json
one_byte_json-JsonLaws = record {
  from_slice-to_vec = λ ss text h. ap read_steps (sym (same ss text h)) ∙ read_steps-print_steps ss;
  ends_nonzero = λ ss text h. rw (← same ss text h) (print_steps-EndsNonzero ss);
}
  where
    same : (ss text : List ℕ) → some (print_steps ss) ≡ some text → print_steps ss ≡ text
    same ss text h = cc

abbrev empty_disk : Disk
empty_disk = record { files = []; partial = none; locked = λ p. false; refusals = [] }

abbrev pinned_disk : Disk
pinned_disk = (write_pins (local_storage 8) one_byte_json (4 ∷ 9 ∷ []) empty_disk).1

pins_written :
    write_pins (local_storage 8) one_byte_json (4 ∷ 9 ∷ []) empty_disk ≡ (ok tt, pinned_disk)
unfolding write_pins local_storage write_parts store write_file
pins_written = refl

read_pins-write_pins_example :
    read_pins (local_storage 8) one_byte_json pinned_disk ≡ ok (some (4 ∷ 9 ∷ []))
read_pins-write_pins_example =
    read_pins-write_pins (local_storage 8) (local_storage-StorageLaws 8) one_byte_json
      one_byte_json-JsonLaws (4 ∷ 9 ∷ []) empty_disk pinned_disk pins_written

abbrev one_rank : RankEntry
one_rank = record {
  rank = 0;
  tensors = [];
  pack_file = none;
  total_compressed = 5;
  total_raw = 8;
  skipped_count = 0;
  delta_count = 0;
  full_count = 0;
}

abbrev unpinned : Snapshot
unpinned = record {
  id = 2;
  step = 100;
  created_at = 7;
  ranks = (0, one_rank) ∷ [];
  base_snapshot_id = none;
  metadata = [];
  compression = zstd 3;
  finalized = true;
  pinned = false;
}

abbrev manifest : Manifest
manifest = record {
  format_version = 2;
  world_size = 1;
  snapshots = unpinned ∷ [];
  retention = default_retention;
  lineage = default_lineage;
  ranks_written = [];
}

abbrev pinned_100 : Result Bool × Disk × Manifest
pinned_100 = set_pinned (local_storage 8) one_byte_json numbers 100 true manifest pinned_disk

set_pinned-ok :
    set_pinned (local_storage 8) one_byte_json numbers 100 true manifest pinned_disk
    ≡ (ok true, pinned_100.1, pinned_100.2)
unfolding set_pinned save_flag read_pins write_pins persist write_ranks write_index ranks_path
    local_storage write_parts store write_file padded padding join_parts insert remove trim_zeros
    rposition_nonzero lookup set_step
set_pinned-ok = refl

set_pinned_example :
    (u : Snapshot) × (target_of 100 manifest ≡ some u)
    × (pinned_100.2.snapshots
        ≡ with_flag
            (local_storage 8)
            one_byte_json
            numbers
            (local_storage-StorageLaws 8)
            one_byte_json-JsonLaws
            u.id
            true
            manifest.snapshots)
    × (s' : Disk) × FlagSaved
        (local_storage 8)
        one_byte_json
        numbers
        (local_storage-StorageLaws 8)
        one_byte_json-JsonLaws
        u.id
        true
        manifest
        pinned_disk
        pinned_100.2
        s'
    × Changed
        (local_storage 8)
        one_byte_json
        numbers
        (local_storage-StorageLaws 8)
        one_byte_json-JsonLaws
        100
        true
        pinned_100.2
        s'
        pinned_100.1
set_pinned_example =
    set_pinned_lem (local_storage 8) one_byte_json numbers (local_storage-StorageLaws 8)
      one_byte_json-JsonLaws 100 true manifest pinned_100.2 pinned_disk pinned_100.1 set_pinned-ok
