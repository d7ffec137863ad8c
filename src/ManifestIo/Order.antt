-- ===== src/ManifestIo/Order.antt =====
-- What a failed write leaves, what an unreadable file takes with it, and the manifest in memory that
-- spares a reader the files.
use moonclip.Prelude.{
  ℕ, ◌≡◌, ◌≢◌, refl, sym, ap, ◌∙◌, List, [], ◌∷◌, true, Option, none, some, inl, inr, Option-cases,
  ==_refl, arith,
}
use moonclip.Prelude.Member.{Memᴰ, In-filter}
use moonclip.Prelude.Search.{contains}
use moonclip.Error.{MoonclipError, Result, ok, err, panic}
use moonclip.Manifest.{Uuid, Snapshot, Manifest}
use moonclip.Storage.{StorageBackend, StorageLaws, FilePath, trim_zeros}
use moonclip.ManifestIo.{
  manifest_file, Ranks, Head, Index, ManifestJson, ManifestJsonLaws, write_ranks, index_of,
  then_index, to_write, with_written, write_index, persist, read_ranks, with_file, ranks_of_file,
  Read, read_heads, base_is_readable, manifest_of, load,
}
use moonclip.ManifestIo.Files.{ranks_path_ne, write_ranks_keeps}
use moonclip.ManifestIo.RoundTrip.{read_inline, read_empty, read_file}
use mathlib.Core.List.Memᴰ.{not-nil, cases_cons}

module _ {S : Type 0} (b : StorageBackend S) (laws : StorageLaws b) (j : ManifestJson)
    (json : ManifestJsonLaws j) where
  write_index_failed :
      (m : Manifest) (s t : S) (e : MoonclipError)
      → write_index b j m s ≡ (err e, t)
      → b.get manifest_file t ≡ b.get manifest_file s
  unfolding write_index
  write_index_failed m s t e h = elim (Option-cases (j.index_to_vec (index_of b j m))) [
    | inl failed ↦ ap (b.get manifest_file) (sym (ap (λ r. r.1) (rw (failed, write_index) at h)))
    | inr (text, made) ↦
        laws.get-put_failed manifest_file manifest_file text s t e (rw (made, write_index) at h)
  ]

  index_kept :
      (m : Manifest) (s : S)
      → b.get manifest_file (write_ranks b j (to_write b j m) s).1 ≡ b.get manifest_file s
  index_kept m s =
      write_ranks_keeps b laws j json (to_write b j m) manifest_file s
        (λ u i. ranks_path_ne b laws j json u.id)

  then_index_failed :
      (m m' : Manifest) (r : Result (Unit {0}) × S) (t : S) (e : MoonclipError)
      → then_index b j m r ≡ (err e, t, m')
      → (b.get manifest_file t ≡ b.get manifest_file r.1) × (m'.snapshots ≡ m.snapshots)
  then_index_failed m m' (ok done, w) t e h = (
    write_index_failed (with_written b j m) w t e (ap (λ r. (r.0, r.1)) h),
    ap (λ r. r.2.snapshots) (sym h),
  )
  then_index_failed m m' (err f, w) t e h =
      (ap (b.get manifest_file) (sym (ap (λ r. r.1) h)), ap (λ r. r.2.snapshots) (sym h))
  then_index_failed m m' (panic, w) t e h = absurd cc (ap (λ r. r.0) h)

  -- A manifest whose write fails, at whichever file, leaves the index that was there before, and the
  -- snapshots in memory as they were.
  pub persist_failed_lem :
      (m m' : Manifest) (s t : S) (e : MoonclipError)
      → persist b j m s ≡ (err e, t, m')
      → (b.get manifest_file t ≡ b.get manifest_file s) × (m'.snapshots ≡ m.snapshots)
  unfolding persist
  persist_failed_lem m m' s t e h =
      let (kept, same) = then_index_failed m m' (write_ranks b j (to_write b j m) s) t e h in
      (kept ∙ index_kept m s, same)

  -- A head names a file that cannot be read.
  abbrev pub IsUnreadable : S → Head → Type 0
  IsUnreadable s h =
      (h.ranks ≡ none)
      × (path : FilePath) × (h.ranks_in ≡ some path)
      × (read_ranks b j path h.id s ≡ none)

  with_file-unreadable :
      (h : Head) (ranks : Option Ranks) (r : Read b j) (id : Uuid)
      → contains r.unreadable id ≡ true
      → contains (with_file b j h ranks r).unreadable id ≡ true
  with_file-unreadable h none r id is = ground (arith, is)
  with_file-unreadable h (some ranks) r id is = is

  still_unreadable :
      (g : Head) (rest : List Head) (s : S) (id : Uuid)
      → contains (read_heads b j [] rest s).unreadable id ≡ true
      → contains (read_heads b j [] (g ∷ rest) s).unreadable id ≡ true
  still_unreadable g rest s id is = elim (Option-cases g.ranks) [
    | inr (inline, e) ↦ rw (read_inline b laws j json [] g rest inline s e) is
    | inl none_inline ↦ elim (Option-cases g.ranks_in) [
      | inl no_file ↦ rw (read_empty b laws j json [] g rest s none_inline no_file) is
      | inr (path, file) ↦ rw (read_file b laws j json [] g rest path s none_inline file) (
          with_file-unreadable g (ranks_of_file b j [] path g.id s) (read_heads b j [] rest s) id
            is)
    ]
  ]

  first_unreadable :
      (h : Head) (rest : List Head) (s : S)
      → IsUnreadable s h
      → contains (read_heads b j [] (h ∷ rest) s).unreadable h.id ≡ true
  first_unreadable h rest s (none_inline, path, file, failed) =
      rw (read_file b laws j json [] h rest path s none_inline file, failed, ==_refl h.id) refl

  unreadable_listed :
      (heads : List Head) (s : S) (h : Head)
      → Memᴰ h heads
      → IsUnreadable s h
      → contains (read_heads b j [] heads s).unreadable h.id ≡ true
  unreadable_listed [] s h i bad = absurd (not-nil i)
  unreadable_listed (g ∷ rest) s h i bad = elim (cases_cons i) [
    | inl same ↦ rw (← same) (first_unreadable h rest s bad)
    | inr k ↦ still_unreadable g rest s h.id (unreadable_listed rest s h k bad)
  ]

  -- No snapshot that a load returns was taken against one whose file of ranks is missing or cannot be
  -- read.

  pub load-unreadable :
      (s : S) (bytes : List ℕ) (index : Index) (h : Head) (m : Manifest) (u : Snapshot)
      → b.get manifest_file s ≡ ok bytes
      → j.index_from_slice (trim_zeros bytes) ≡ some index
      → load b j none s ≡ ok (some m)
      → Memᴰ h index.snapshots
      → IsUnreadable s h
      → Memᴰ u m.snapshots
      → u.base_snapshot_id ≢ some h.id
  unfolding load
  load-unreadable s bytes index h m u got parsed is i bad k based =
      let read : Read b j = read_heads b j [] index.snapshots s in
      let same : manifest_of b j index read ≡ m = cc (rw (load, got, parsed) at is) in
      let (here_too, readable) =
        In-filter (base_is_readable b j read.unreadable) read.snapshots u (rw (← same) at k) in
      absurd cc (rw based at readable, unreadable_listed index.snapshots s h i bad)
