-- ===== src/ManifestIo/Files.antt =====
-- The files of the ranks: each write reaches its own file and no other.
use moonclip.Prelude.{
  ℕ, ◌≡◌, ◌≢◌, refl, sym, ap, ◌∙◌, List, [], ◌∷◌, false, some, ◌==◌, inl, inr, Bool-cases,
  Option-cases, ==_iff, ==_refl, arith,
}
use moonclip.Prelude.Member.{Memᴰ, any_intro, any_elim}
use moonclip.Prelude.Search.{any}
use moonclip.Error.{Result, ok, err, panic}
use moonclip.Manifest.{Uuid, Snapshot}
use moonclip.Storage.{StorageBackend, StorageLaws, FilePath}
use moonclip.Storage.Padding.{trim_zeros-append}
use moonclip.ManifestIo.{
  manifest_file, Ranks, ManifestJson, ManifestJsonLaws, then_write, ranks_path, write_ranks,
  read_ranks,
}
use Prim.Native.String.{String}
use Prim.Native.String.append
use text.Mathlib.TextLemmas.{append_cancel_left, append_cancel_right}
use mathlib.Core.List.Memᴰ.{head, tail, not-nil, cases_cons}
use Prim.Native.Char.{code}

first_code : String → ℕ
first_code String.[] = 0
first_code (String.◌∷◌ c s) = code c

module _ {S : Type 0} (b : StorageBackend S) (laws : StorageLaws b) (j : ManifestJson)
    (json : ManifestJsonLaws j) where
  pub ranks_path_injective : (a c : Uuid) → ranks_path b j a ≡ ranks_path b j c → a ≡ c
  unfolding ranks_path
  ranks_path_injective a c h =
      json.uuid_text_injective a c
        (append_cancel_right _ _ "/ranks.json" (append_cancel_left "snapshots/" _ _ h))

  pub ranks_path_ne : (id : Uuid) → ranks_path b j id ≢ manifest_file
  unfolding ranks_path first_code
  ranks_path_ne id h =
      absurd (omega (arith, ap first_code (sym (append.cons "s" "napshots/" _) ∙ h)))

  -- What a reader finds of a text that was put under a path.
  read_back :
      (id : Uuid) (ranks : Ranks) (body : List ℕ) (s t : S)
      → j.ranks_to_vec (id, ranks) ≡ some body
      → b.put (ranks_path b j id) body s ≡ (ok tt, t)
      → read_ranks b j (ranks_path b j id) id t ≡ some ranks
  unfolding read_ranks
  read_back id ranks body s t made put =
      let (n, got) = laws.get-put_self (ranks_path b j id) body s t put in
      rw
        (
          read_ranks,
          got,
          trim_zeros-append body n (json.ranks_ends_nonzero (id, ranks) body made),
          json.ranks_from_slice-to_vec (id, ranks) body made,
          ==_refl id,
        )
        refl

  then_write-keeps :
      (q : FilePath) (r : Result (Unit {0}) × S) (next : S → Result (Unit {0}) × S)
      (g : Result (List ℕ))
      → b.get q r.1 ≡ g
      → ((t : S) → b.get q t ≡ g → b.get q (next t).1 ≡ g)
      → b.get q (then_write r next).1 ≡ g
  then_write-keeps q (ok done, t) next g h k = k t h
  then_write-keeps q (err e, t) next g h k = h
  then_write-keeps q (panic, t) next g h k = h

  -- A write of ranks touches no other path.
  pub write_ranks_keeps :
      (snapshots : List Snapshot) (q : FilePath) (s : S)
      → ((snapshot : Snapshot) → Memᴰ snapshot snapshots → ranks_path b j snapshot.id ≢ q)
      → b.get q (write_ranks b j snapshots s).1 ≡ b.get q s
  unfolding write_ranks
  write_ranks_keeps [] q s other = refl
  write_ranks_keeps (snapshot ∷ rest) q s other =
      elim (Option-cases (j.ranks_to_vec (snapshot.id, snapshot.ranks))) [
        | inl failed ↦ rw (failed, write_ranks) refl
        | inr (body, made) ↦
            rw (made, write_ranks)
              (then_write-keeps q _ _ _
                (laws.get-put_ne (ranks_path b j snapshot.id) q body s (other snapshot (head refl)))
                (λ t kept. write_ranks_keeps rest q t (λ u i. other u (tail i)) ∙ kept))
      ]

  pub then_write-eq-ok :
      (r : Result (Unit {0}) × S) (next : S → Result (Unit {0}) × S) (u : S)
      → then_write r next ≡ (ok tt, u)
      → (t : S) × (r ≡ (ok tt, t)) × (next t ≡ (ok tt, u))
  then_write-eq-ok (ok tt, t) next u h = (t, refl, h)
  then_write-eq-ok (err e, t) next u h = absurd cc (ap (λ r. r.0) h)
  then_write-eq-ok (panic, t) next u h = absurd cc (ap (λ r. r.0) h)

  -- Snapshots of one id have one content.
  abbrev pub OneContent : List Snapshot → Type 0
  OneContent snapshots =
      (u v : Snapshot) → Memᴰ u snapshots → Memᴰ v snapshots → u.id ≡ v.id → u.ranks ≡ v.ranks

  -- The ranks of a snapshot are in its file.
  abbrev pub InFile : Snapshot → S → Type 0
  InFile u s = read_ranks b j (ranks_path b j u.id) u.id s ≡ some u.ranks

  pub read_ranks_same :
      (path : FilePath) (id : Uuid) (s t : S)
      → b.get path t ≡ b.get path s
      → read_ranks b j path id t ≡ read_ranks b j path id s
  unfolding read_ranks
  read_ranks_same path id s t same = rw (same, read_ranks) refl

  InFile-same : (u v : Snapshot) (t : S) → u.id ≡ v.id → u.ranks ≡ v.ranks → InFile v t → InFile u t
  InFile-same u v t ids ranks h = rw (ids, ranks) h

  -- The file that was just put stays, when the others have other paths.
  put-InFile :
      (snapshot : Snapshot) (rest : List Snapshot) (body : List ℕ) (s m : S)
      → j.ranks_to_vec (snapshot.id, snapshot.ranks) ≡ some body
      → b.put (ranks_path b j snapshot.id) body s ≡ (ok tt, m)
      → any (λ v. v.id == snapshot.id) rest ≡ false
      → InFile snapshot (write_ranks b j rest m).1
  put-InFile snapshot rest body s m made put other =
      read_ranks_same (ranks_path b j snapshot.id) snapshot.id m (write_ranks b j rest m).1 (
        write_ranks_keeps rest (ranks_path b j snapshot.id) m (λ v k e. absurd cc (
          any_intro (λ v. v.id == snapshot.id) rest v k
              ((==_iff _ _).1 (ranks_path_injective v.id snapshot.id e)),
          other,
        )))
      ∙ read_back snapshot.id snapshot.ranks body s m made put

  pub write_ranks-InFile :
      (snapshots : List Snapshot) (s t : S)
      → OneContent snapshots
      → write_ranks b j snapshots s ≡ (ok tt, t)
      → (u : Snapshot) → Memᴰ u snapshots
      → InFile u t
  unfolding write_ranks
  write_ranks-InFile [] s t one h u i = absurd (not-nil i)
  write_ranks-InFile (snapshot ∷ rest) s t one h u i =
      elim (Option-cases (j.ranks_to_vec (snapshot.id, snapshot.ranks))) [
        | inl failed ↦ absurd cc (ap (λ r. r.0) (rw (failed, write_ranks) at h))
        | inr (body, made) ↦
            let (m, put, later) =
              then_write-eq-ok (b.put (ranks_path b j snapshot.id) body s) (write_ranks b j rest) t
                (rw (made, write_ranks) at h) in
            let among : (v : Snapshot) → Memᴰ v rest → InFile v t =
              write_ranks-InFile rest m t (λ v w p q. one v w (tail p) (tail q)) later in
            elim (cases_cons i) [
              | inr k ↦ among u k
              | inl same ↦ elim (Bool-cases (any (λ v. v.id == snapshot.id) rest)) [
                | inl again ↦
                    let (v, k, e) = any_elim (λ v. v.id == snapshot.id) rest again in
                    let ids : u.id ≡ v.id = ap (λ w. w.id) same ∙ sym ((==_iff _ _).0 e) in
                    InFile-same u v t ids (one u v i (tail k) ids) (among v k)
                | inr once ↦
                    InFile-same u snapshot t (ap (λ w. w.id) same) (ap (λ w. w.ranks) same) (
                      rw (ap (λ r. r.1) later) at (put-InFile snapshot rest body s m made put once))
              ]
            ]
      ]
