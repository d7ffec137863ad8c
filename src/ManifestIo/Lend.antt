-- ===== src/ManifestIo/Lend.antt =====
-- Reading the manifest again with the ranks that the process holds is reading it from the files.
use moonclip.Prelude.{
  ℕ, ◌≡◌, refl, sym, ap, ap₂, ◌∙◌, List, [], ◌∷◌, true, not, none, some, ◌==◌, if◌then◌else◌, inl,
  inr, Bool-cases, Option-cases, ==_iff, arith,
}
use moonclip.Prelude.Member.{Memᴰ}
use moonclip.Prelude.Search.{filter, contains}
use moonclip.Error.{Result, ok, err, panic}
use moonclip.Manifest.{Uuid, Snapshot, Manifest}
use moonclip.Storage.{StorageBackend, StorageLaws, FilePath, trim_zeros}
use moonclip.ManifestIo.{
  manifest_file, Ranks, Head, Index, ManifestJson, ManifestJsonLaws, ranks_path, read_ranks, Held,
  held_of, held_ranks, with_inline, with_file, ranks_of_file, read_heads, manifest_of, load,
}
use moonclip.ManifestIo.Files.{InFile}
use moonclip.ManifestIo.RoundTrip.{OnDisk, read_inline, read_empty, read_file}
use mathlib.Core.List.Memᴰ.{head as here, tail as later}

module _ {S : Type 0} (b : StorageBackend S) (laws : StorageLaws b) (j : ManifestJson)
    (json : ManifestJsonLaws j) where
  held_ranks-filter :
      (x id : Uuid) (held : Held b j)
      → held_ranks b j (filter (λ h. not (h.0 == x)) held) id
        ≡ (if x == id then none else held_ranks b j held id)
  held_ranks-filter x id [] = ground arith
  held_ranks-filter x id (h ∷ held) = ground (arith, held_ranks-filter x id held)

  -- What is held of an id is in its file.
  abbrev AllFiled : S → Held b j → Type 0
  AllFiled s held =
      (id : Uuid) (ranks : Ranks)
      → held_ranks b j held id ≡ some ranks
      → read_ranks b j (ranks_path b j id) id s ≡ some ranks

  AllFiled-filter :
      (s : S) (x : Uuid) (held : Held b j)
      → AllFiled s held
      → AllFiled s (filter (λ h. not (h.0 == x)) held)
  AllFiled-filter s x held filed id ranks is =
      filed id ranks (ground (arith, is, held_ranks-filter x id held))

  AllFiled-held :
      (s : S) (u : Snapshot) (held : Held b j)
      → InFile b laws j json u s
      → AllFiled s held
      → AllFiled s ((u.id, u.ranks) ∷ filter (λ h. not (h.0 == u.id)) held)
  AllFiled-held s u held file filed id ranks is = elim (Bool-cases (u.id == id)) [
    | inl same ↦
        let mine : u.ranks ≡ ranks = cc (rw (held_ranks, same) at is) in
        rw (← mine, sym ((==_iff u.id id).0 same)) file
    | inr other ↦ AllFiled-filter s u.id held filed id ranks (rw (held_ranks, other) at is)
  ]

  AllFiled-held_of :
      (written : List Uuid) (snapshots : List Snapshot) (s : S) (held : Held b j)
      → ((u : Snapshot)
          → Memᴰ u snapshots
          → contains written u.id ≡ true
          → InFile b laws j json u s)
      → AllFiled s held
      → AllFiled s (held_of b j written snapshots held)
  unfolding held_of
  AllFiled-held_of written [] s held files filed = filed
  AllFiled-held_of written (u ∷ rest) s held files filed =
      elim (Bool-cases (contains written u.id)) [
        | inl is ↦
            rw (is, held_of)
              (AllFiled-held_of written rest s
                ((u.id, u.ranks) ∷ filter (λ h. not (h.0 == u.id)) held) (λ v i. files v (later i))
                (AllFiled-held s u held (files u (here refl) is) filed))
        | inr other ↦
            rw (other, held_of)
              (AllFiled-held_of written rest s held (λ v i. files v (later i)) filed)
      ]

  ranks_of_file_held :
      (s : S) (held : Held b j) (id : Uuid)
      → AllFiled s held
      → ranks_of_file b j held (ranks_path b j id) id s ≡ read_ranks b j (ranks_path b j id) id s
  ranks_of_file_held s held id filed = elim (Option-cases (held_ranks b j held id)) [
    | inl new ↦ rw (ranks_of_file, new) refl
    | inr (ranks, is) ↦ rw (ranks_of_file, is) (sym (filed id ranks is))
  ]

  -- A head names no other file than that of its id.
  abbrev pub NamesOwnFile : Head → Type 0
  NamesOwnFile h = (path : FilePath) → h.ranks_in ≡ some path → path ≡ ranks_path b j h.id

  read_heads_held :
      (heads : List Head) (held : Held b j) (s : S)
      → AllFiled s held
      → ((h : Head) → Memᴰ h heads → NamesOwnFile h)
      → read_heads b j held heads s ≡ read_heads b j [] heads s
  unfolding read_heads
  read_heads_held [] held s filed own = refl
  read_heads_held (h ∷ rest) held s filed own = elim (Option-cases h.ranks) [
    | inr (inline, e) ↦
        read_inline b laws j json held h rest inline s e
        ∙ ap (with_inline b j h inline) (read_heads_held rest held s filed (λ g i. own g (later i)))
        ∙ sym (read_inline b laws j json [] h rest inline s e)
    | inl none_inline ↦ elim (Option-cases h.ranks_in) [
      | inl no_file ↦
          read_empty b laws j json held h rest s none_inline no_file
          ∙ ap (with_inline b j h []) (read_heads_held rest held s filed (λ g i. own g (later i)))
          ∙ sym (read_empty b laws j json [] h rest s none_inline no_file)
      | inr (path, file) ↦
          let left : List (Uuid × Ranks) = filter (λ g. not (g.0 == h.id)) held in
          read_file b laws j json held h rest path s none_inline file
          ∙ ap₂ (with_file b j h)
              (rw (own h (here refl) path file) (ranks_of_file_held s held h.id filed))
              (read_heads_held rest left s (AllFiled-filter s h.id held filed)
                (λ g i. own g (later i)))
          ∙ sym (read_file b laws j json [] h rest path s none_inline file)
    ]
  ]

  -- A manifest that is read again while the process holds the ranks of the snapshots it wrote is the
  -- one that a fresh process reads, when those ranks are in their files and the index names for each
  -- snapshot no other file than its own.
  pub load-held :
      (m : Manifest) (s : S)
      → OnDisk b laws j json m s
      → ((bytes : List ℕ) (index : Index) (h : Head)
          → b.get manifest_file s ≡ ok bytes
          → j.index_from_slice (trim_zeros bytes) ≡ some index
          → Memᴰ h index.snapshots
          → NamesOwnFile h)
      → load b j (some m) s ≡ load b j none s
  unfolding load
  load-held m s disk own = by_index (b.get manifest_file s) refl
    where
      filed : AllFiled s (held_of b j m.ranks_written m.snapshots [])
      filed =
          AllFiled-held_of m.ranks_written m.snapshots s [] disk
            (λ id ranks none_held. absurd cc none_held)

      by_index :
          (r : Result (List ℕ)) → b.get manifest_file s ≡ r → load b j (some m) s ≡ load b j none s
      by_index panic e = rw (load, e) refl
      by_index (err f) e = rw (load, e) refl
      by_index (ok bytes) e = elim (Option-cases (j.index_from_slice (trim_zeros bytes))) [
        | inl failed ↦ rw (load, e, failed) refl
        | inr (index, parsed) ↦
            rw (load, e, parsed)
              (ap (λ r. ok (some (manifest_of b j index r)))
                (read_heads_held index.snapshots (held_of b j m.ranks_written m.snapshots []) s
                  filed (λ h i. own bytes index h e parsed i)))
      ]
