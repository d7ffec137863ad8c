-- ===== src/Loading/Prefetch.antt =====
-- The base that a load reads beforehand gives what a search for each tensor gives.
use moonclip.Prelude.{
  ℕ, ◌≡◌, refl, sym, ap, ◌∙◌, List, [], ◌∷◌, Bool, true, false, not, ◌&&◌, Bool-cases, Option, none,
  some, Option-cases, ◌==◌, inl, inr, arith,
}
use moonclip.Prelude.Search.{find, any}
use moonclip.Prelude.Assoc.{lookup}
use moonclip.Error.{ok, >>=-eq-ok}
use moonclip.Manifest.{Uuid, TensorEntry, RankEntry, Snapshot, Manifest, find_snapshot}
use moonclip.Storage.{StorageBackend}
use moonclip.Tensor.{Externals}
use moonclip.Tensor.Load.{PackSource}
use moonclip.Loading.{
  rank_in, entries_by_name, BaseContext, pack_of, find_base_tensor_entry_with_pack, base_context,
  resolver, load_entries,
}
use Prim.Native.String.{String}
use mathlib.Core.Path.{fun_ext}
use text.Mathlib.Text.{◌==◌ as str_eq}

-- No two entries have one name.
abbrev pub distinct_names : List TensorEntry → Bool
distinct_names [] = true
distinct_names (t ∷ ts) = not (any (λ u. str_eq u.name t.name) ts) && distinct_names ts

lookup-entries_by_name :
    (name : String) (ts : List TensorEntry)
    → distinct_names ts ≡ true
    → lookup name (entries_by_name ts) ≡ find (λ t. str_eq t.name name) ts
unfolding lookup
lookup-entries_by_name name [] h = refl
lookup-entries_by_name name (t ∷ ts) h = elim (Bool-cases (any (λ u. str_eq u.name t.name) ts)) [
  | inl twice ↦ absurd cc (rw twice at h)
  | inr once ↦
      let rest : lookup name (entries_by_name ts) ≡ find (λ u. str_eq u.name name) ts =
        lookup-entries_by_name name ts (rw once at h) in
      rw (once, lookup, rest) refl
]

==-≡ : (a b : ℕ) → (a == b) ≡ true → a ≡ b
==-≡ a b h = ground (arith, h)

module _ {S D : Type 0} (b : StorageBackend S) (x : Externals D) (s : S) (m : Manifest)
    (rank : ℕ) where
  abbrev pub distinct_in : Option RankEntry → Bool
  distinct_in none = true
  distinct_in (some e) = distinct_names e.tensors

  -- No two tensors of the base have one name.
  unfoldable pub base_distinct : Option Uuid → Bool
  base_distinct none = true
  base_distinct (some base_id) = elim (find_snapshot m base_id) [
    | none ↦ true
    | some u ↦ distinct_in (rank_in u.ranks rank)
  ]

  resolver-none :
      (ctx : Option BaseContext) (id : Uuid) (name : String)
      → ok none ≡ ok ctx
      → resolver b x s m rank ctx id name
        ≡ find_base_tensor_entry_with_pack b x s m rank true id name
  unfolding resolver
  resolver-none none id name h = refl
  resolver-none (some c) id name h = cc

  resolver_read :
      (base_id : Uuid) (u : Snapshot) (e : RankEntry) (pack : PackSource) (id : Uuid)
      (name : String)
      → find_snapshot m base_id ≡ some u
      → rank_in u.ranks rank ≡ some e
      → pack_of b x s m rank true e.pack_file ≡ ok pack
      → distinct_names e.tensors ≡ true
      → resolver b x s m rank
          (some (base_id, entries_by_name e.tensors, u.compression, pack))
          id
          name
        ≡ find_base_tensor_entry_with_pack b x s m rank true id name
  unfolding resolver
  resolver_read base_id u e pack id name is has got distinct = elim (Bool-cases (base_id == id)) [
    | inr other ↦ rw other refl
    | inl same ↦
        let is_id : find_snapshot m id ≡ some u =
          ap (find_snapshot m) (sym (==-≡ base_id id same)) ∙ is in
        rw
          (
            same,
            find_base_tensor_entry_with_pack,
            is_id,
            has,
            got,
            lookup-entries_by_name name e.tensors distinct,
          )
          refl
  ]

  resolver_found :
      (base_id : Uuid) (u : Snapshot) (e : RankEntry) (pack : PackSource) (ctx : Option BaseContext)
      (id : Uuid) (name : String)
      → find_snapshot m base_id ≡ some u
      → rank_in u.ranks rank ≡ some e
      → pack_of b x s m rank true e.pack_file ≡ ok pack
      → distinct_names e.tensors ≡ true
      → ok (some (base_id, entries_by_name e.tensors, u.compression, pack)) ≡ ok ctx
      → resolver b x s m rank ctx id name
        ≡ find_base_tensor_entry_with_pack b x s m rank true id name
  resolver_found base_id u e pack none id name is has got distinct h = cc
  resolver_found base_id u e pack (some c) id name is has got distinct h =
      let same : some (base_id, entries_by_name e.tensors, u.compression, pack) ≡ some c = cc (h) in
      ap (λ o. resolver b x s m rank o id name) (sym same)
      ∙ resolver_read base_id u e pack id name is has got distinct

  resolver_lem :
      (needed : Bool) (base : Option Uuid) (ctx : Option BaseContext) (id : Uuid) (name : String)
      → base_distinct base ≡ true
      → base_context b x s m rank needed base ≡ ok ctx
      → resolver b x s m rank ctx id name
        ≡ find_base_tensor_entry_with_pack b x s m rank true id name
  unfolding base_context base_distinct
  resolver_lem false base ctx id name distinct h = resolver-none ctx id name h
  resolver_lem true none ctx id name distinct h = resolver-none ctx id name h
  resolver_lem true (some base_id) ctx id name distinct h =
      elim (Option-cases (find_snapshot m base_id)) [
        | inl lost ↦ resolver-none ctx id name (rw (base_context, lost) at h)
        | inr (u, is) ↦ elim (Option-cases (rank_in u.ranks rank)) [
          | inl absent ↦ resolver-none ctx id name (rw (base_context, is, absent) at h)
          | inr (e, has) ↦
              let (pack, got, last) =
                >>=-eq-ok (pack_of b x s m rank true e.pack_file)
                  (λ pack. ok (some (base_id, entries_by_name e.tensors, u.compression, pack)))
                  (rw (base_context, is, has) at h) in
              resolver_found base_id u e pack ctx id name is has got
                (rw (base_distinct, is, has) at distinct) last
        ]
      ]

  -- Where the names in the base are distinct, and the base could be read beforehand, a load gives what
  -- it gives when it searches the manifest and reads the base's pack for every tensor.
  pub load_entries-base_context :
      (needed : Bool) (base : Option Uuid) (ctx : Option BaseContext) (snap : Snapshot)
      (pack : PackSource) (entries : List TensorEntry)
      → base_distinct base ≡ true
      → base_context b x s m rank needed base ≡ ok ctx
      → load_entries b x s m rank (resolver b x s m rank ctx) snap pack entries
        ≡ load_entries b x s m rank
            (find_base_tensor_entry_with_pack b x s m rank true)
            snap
            pack
            entries
  load_entries-base_context needed base ctx snap pack entries distinct h =
      ap (λ r. load_entries b x s m rank r snap pack entries)
        (fun_ext (λ id. fun_ext (λ name. resolver_lem needed base ctx id name distinct h)))
