-- ===== src/ManifestIo/RoundTrip.antt =====
-- What is written of a manifest is what the next reader finds.
use moonclip.Prelude.{
  ◌≡◌, ◌≢◌, refl, sym, ap, ap₂, ◌∙◌, List, [], ◌∷◌, ◌++◌, map, Bool, true, false, not, Option, none,
  some, ◌==◌, inl, inr, Bool-cases, Option-cases,
}
use moonclip.Prelude.Member.{Memᴰ, In-filter, filter-In, any-filter-false}
use moonclip.Prelude.Search.{filter, contains, any-append}
use moonclip.Error.{Result, ok, err, panic}
use moonclip.Manifest.{Uuid, Snapshot, Manifest}
use moonclip.Storage.{StorageBackend, StorageLaws, FilePath}
use moonclip.Storage.Padding.{trim_zeros-append}
use moonclip.ManifestIo.{
  manifest_file, Ranks, Head, ManifestJson, ManifestJsonLaws, then_index, to_write, ranks_path,
  write_ranks, head_of, index_of, unwritten, with_written, write_index, persist, Held, with_inline,
  with_file, ranks_of_file, read_heads, base_is_readable, load,
}
use moonclip.ManifestIo.Files.{
  OneContent, InFile, ranks_path_injective, ranks_path_ne, write_ranks_keeps, read_ranks_same,
  write_ranks-InFile,
}
use mathlib.Core.List.Memᴰ.{head, tail}

module _ {S : Type 0} (b : StorageBackend S) (laws : StorageLaws b) (j : ManifestJson)
    (json : ManifestJsonLaws j) where
  -- The ids of snapshots that have their own file.
  abbrev pub filed : List Uuid → List Snapshot → List Uuid
  filed written snapshots = map (λ u. u.id) (filter (λ u. contains written u.id) snapshots)

  pub read_inline :
      (held : Held b j) (entry : Head) (rest : List Head) (inline : Ranks) (t : S)
      → entry.ranks ≡ some inline
      → read_heads b j held (entry ∷ rest) t
        ≡ with_inline b j entry inline (read_heads b j held rest t)
  unfolding read_heads
  read_inline held entry rest inline t e = rw e refl

  pub read_empty :
      (held : Held b j) (entry : Head) (rest : List Head) (t : S)
      → entry.ranks ≡ none
      → entry.ranks_in ≡ none
      → read_heads b j held (entry ∷ rest) t ≡ with_inline b j entry [] (read_heads b j held rest t)
  unfolding read_heads
  read_empty held entry rest t e f = rw (e, f) refl

  pub read_file :
      (held : Held b j) (entry : Head) (rest : List Head) (path : FilePath) (t : S)
      → entry.ranks ≡ none
      → entry.ranks_in ≡ some path
      → read_heads b j held (entry ∷ rest) t
        ≡ with_file b j entry
            (ranks_of_file b j held path entry.id t)
            (read_heads b j (filter (λ h. not (h.0 == entry.id)) held) rest t)
  unfolding read_heads
  read_file held entry rest path t e f = rw (e, f) refl

  read_heads_back :
      (written : List Uuid) (snapshots : List Snapshot) (t : S)
      → ((u : Snapshot)
          → Memᴰ u snapshots
          → contains written u.id ≡ true
          → InFile b laws j json u t)
      → read_heads b j [] (map (head_of b j written) snapshots) t
        ≡ record { snapshots = snapshots; written = filed written snapshots; unreadable = [] }
  unfolding read_heads
  read_heads_back written [] t h = refl
  read_heads_back written (u ∷ rest) t h =
      let back = read_heads_back written rest t (λ v i. h v (tail i)) in
      elim (Bool-cases (contains written u.id)) [
        | inl is ↦
            read_file [] (head_of b j written u) (map (head_of b j written) rest)
              (ranks_path b j u.id) t (rw is refl) (rw is refl)
            ∙ ap₂ (with_file b j (head_of b j written u)) (h u (head refl) is) back
            ∙ rw is refl
        | inr not_written ↦
            read_inline [] (head_of b j written u) (map (head_of b j written) rest) u.ranks t
              (rw not_written refl)
            ∙ ap (with_inline b j (head_of b j written u) u.ranks) back
            ∙ rw not_written refl
      ]

  none_unreadable : (u : Snapshot) → base_is_readable b j [] u ≡ true
  none_unreadable u = of_base u.base_snapshot_id
    where
      of_base :
          (base : Option Uuid)
          → (elim base as (λ _. Bool) [ none ↦ true | some base ↦ not (contains [] base) ]) ≡ true
      of_base none = refl
      of_base (some base) = refl

  filter_readable :
      (snapshots : List Snapshot) → filter (base_is_readable b j []) snapshots ≡ snapshots
  filter_readable [] = refl
  filter_readable (u ∷ rest) = rw (none_unreadable u) (ap (λ r. u ∷ r) (filter_readable rest))

  -- An index that was put is what the next load reads.
  load-write_index :
      (m : Manifest) (s t : S)
      → write_index b j m s ≡ (ok tt, t)
      → ((u : Snapshot)
          → Memᴰ u m.snapshots
          → contains m.ranks_written u.id ≡ true
          → InFile b laws j json u t)
      → load b j none t
        ≡ ok (
            some
              (record m { format_version = 3; ranks_written = filed m.ranks_written m.snapshots }))
  unfolding load write_index
  load-write_index m s t h files = elim (Option-cases (j.index_to_vec (index_of b j m))) [
    | inl failed ↦ absurd cc (ap (λ r. r.0) (rw (failed, write_index) at h))
    | inr (text, made) ↦
        let (n, got) = laws.get-put_self manifest_file text s t (rw (made, write_index) at h) in
        rw
          (
            load,
            got,
            trim_zeros-append text n (json.index_ends_nonzero (index_of b j m) text made),
            json.index_from_slice-to_vec (index_of b j m) text made,
            read_heads_back m.ranks_written m.snapshots t files,
            filter_readable m.snapshots,
          )
          refl
  ]

  -- What a manifest says is in files is in them.
  abbrev pub OnDisk : Manifest → S → Type 0
  OnDisk m s =
      (u : Snapshot)
      → Memᴰ u m.snapshots
      → contains m.ranks_written u.id ≡ true
      → InFile b laws j json u s

  then_index-eq-ok :
      (m m' : Manifest) (r : Result (Unit {0}) × S) (u : S)
      → then_index b j m r ≡ (ok tt, u, m')
      → (t : S) × (r ≡ (ok tt, t))
        × (write_index b j (with_written b j m) t ≡ (ok tt, u))
        × (m' ≡ with_written b j m)
  then_index-eq-ok m m' (ok tt, t) u h = (t, refl, ap (λ r. (r.0, r.1)) h, sym (ap (λ r. r.2) h))
  then_index-eq-ok m m' (err e, t) u h = absurd cc (ap (λ r. r.0) h)
  then_index-eq-ok m m' (panic, t) u h = absurd cc (ap (λ r. r.0) h)

  write_index_keeps :
      (m : Manifest) (q : FilePath) (s : S)
      → manifest_file ≢ q
      → b.get q (write_index b j m s).1 ≡ b.get q s
  unfolding write_index
  write_index_keeps m q s other = elim (Option-cases (j.index_to_vec (index_of b j m))) [
    | inl failed ↦ rw (failed, write_index) refl
    | inr (text, made) ↦ rw (made, write_index) (laws.get-put_ne manifest_file q text s other)
  ]

  was_written :
      (m : Manifest) (id : Uuid)
      → contains (with_written b j m).ranks_written id ≡ true
      → contains (unwritten b j m) id ≡ false
      → contains m.ranks_written id ≡ true
  was_written m id h new = elim (Bool-cases (contains m.ranks_written id)) [
    | inl is ↦ is
    | inr other ↦ absurd cc (
      h,
      any-filter-false (λ x. x == id) (contains (map (λ s. s.id) m.snapshots))
          (m.ranks_written ++ unwritten b j m)
          (any-append (λ x. x == id) m.ranks_written (unwritten b j m) ∙ rw (other, new) refl),
    )
  ]

  files_written :
      (m : Manifest) (s t : S)
      → OneContent b laws j json m.snapshots
      → OnDisk m s
      → write_ranks b j (to_write b j m) s ≡ (ok tt, t)
      → OnDisk (with_written b j m) t
  files_written m s t one disk h u i is = elim (Bool-cases (contains (unwritten b j m) u.id)) [
    | inl new ↦
        write_ranks-InFile b laws j json (to_write b j m) s t
          (λ v w p q. one v w (In-filter _ m.snapshots v p).0 (In-filter _ m.snapshots w q).0) h u
          (filter-In (λ v. contains (unwritten b j m) v.id) m.snapshots u i new)
    | inr old ↦ rw (ap (λ r. r.1) h) at (
        read_ranks_same b laws j json (ranks_path b j u.id) u.id s
          (write_ranks b j (to_write b j m) s).1
          (write_ranks_keeps b laws j json (to_write b j m) (ranks_path b j u.id) s (λ v k e.
            let same : v.id ≡ u.id = ranks_path_injective b laws j json v.id u.id e in
            absurd cc (
              ap (contains (unwritten b j m)) same,
              (In-filter (λ v. contains (unwritten b j m) v.id) m.snapshots v k).1,
              old,
            )))
        ∙ disk u i (was_written m u.id is old))
  ]

  -- Every write that succeeds leaves each snapshot that counts as written with its ranks in its file,
  -- when it was so before and two snapshots of one id have the same ranks.
  pub persist-OnDisk :
      (m m' : Manifest) (s t : S)
      → OneContent b laws j json m.snapshots
      → OnDisk m s
      → persist b j m s ≡ (ok tt, t, m')
      → OnDisk m' t
  unfolding persist
  persist-OnDisk m m' s t one disk h =
      let (w, files, index, same) =
        then_index-eq-ok m m' (write_ranks b j (to_write b j m) s) t h in
      rw same (λ u i is. rw (ap (λ r. r.1) index) at (
        read_ranks_same b laws j json (ranks_path b j u.id) u.id w
          (write_index b j (with_written b j m) w).1
          (write_index_keeps (with_written b j m) (ranks_path b j u.id) w
            (λ e. ranks_path_ne b laws j json u.id (sym e)))
        ∙ files_written m s w one disk files u i is))

  -- A manifest is read back as it was written, with its snapshots and all their ranks, the retention
  -- policy, the lineage and the world size, and with the snapshots that have a file as written. That
  -- is so where the write succeeded, each snapshot that counted as written before had its ranks in its
  -- file, and two snapshots of one id have the same ranks.
  pub load-persist :
      (m m' : Manifest) (s t : S)
      → OneContent b laws j json m.snapshots
      → OnDisk m s
      → persist b j m s ≡ (ok tt, t, m')
      → load b j none t
        ≡ ok (
            some
              (record m { format_version = 3; ranks_written = filed m'.ranks_written m.snapshots }))
  unfolding persist
  load-persist m m' s t one disk h =
      let (w, files, index, same) =
        then_index-eq-ok m m' (write_ranks b j (to_write b j m) s) t h in
      let back : OnDisk (with_written b j m) t = rw same at (persist-OnDisk m m' s t one disk h) in
      rw same (load-write_index (with_written b j m) w t index back)
