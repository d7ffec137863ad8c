-- ===== src/Tensor/Dedup.antt =====
-- src/tensor.rs: `dedup_plan`, which finds the tensors whose bytes another one already holds.
use moonclip.Prelude.{
  ℕ, ◌≡◌, refl, sym, ap, ◌∙◌, List, [], ◌∷◌, ◌++◌, true, false, not, ◌&&◌, Option, none, some, ltb,
  if◌then◌else◌, length, inl, inr, Bool-cases, Option-cases, arith,
}
use moonclip.Delta.{delta_min_size}
use moonclip.Tensor.{TensorData}
use Prim.Native.String.{String}
use text.Mathlib.Text.{◌==◌ as str_eq}
use text.Mathlib.TextEquality.{eq_iff}

-- A hash and a dtype, and the tensors seen first under one.
abbrev Seen : Type 0
Seen = List (String × String × String)

-- `first_seen.get`
seen_owner : String → String → Seen → Option String
seen_owner hash dtype [] = none
seen_owner hash dtype ((h, d, name) ∷ seen) =
    if str_eq h hash && str_eq d dtype then some name else seen_owner hash dtype seen

module _ (hash_hex : List ℕ → String) where
  plan_from : Seen → List TensorData → List (Option String)
  plan_from seen [] = []
  plan_from seen (t ∷ ts) = elim (ltb (length t.bytes) delta_min_size) [
    | true ↦ none ∷ plan_from seen ts
    | false ↦ elim (seen_owner (hash_hex t.bytes) t.dtype seen) [
      | some owner ↦ some owner ∷ plan_from seen ts
      | none ↦ none ∷ plan_from ((hash_hex t.bytes, t.dtype, t.name) ∷ seen) ts
    ]
  ]

  unfoldable pub dedup_plan : List TensorData → List (Option String)
  unfolding plan_from seen_owner
  dedup_plan tensors = plan_from [] tensors

  -- The first of some tensors that is not small and has the given hash and dtype.
  pub first_owner : String → String → List TensorData → Option String
  first_owner hash dtype [] = none
  first_owner hash dtype (t ∷ ts) =
      if not (ltb (length t.bytes) delta_min_size)
        && (str_eq (hash_hex t.bytes) hash && str_eq t.dtype dtype)
      then some t.name
      else first_owner hash dtype ts

  -- The tensor before `t` that holds its bytes.
  pub owner_of : List TensorData → TensorData → Option String
  owner_of before t =
      if ltb (length t.bytes) delta_min_size
      then none
      else first_owner (hash_hex t.bytes) t.dtype before

  pub owners : List TensorData → List TensorData → List (Option String)
  unfolding owner_of
  owners before [] = []
  owners before (t ∷ ts) = owner_of before t ∷ owners (before ++ (t ∷ [])) ts

  first_owner-append :
      (hash dtype : String) (before : List TensorData) (t : TensorData)
      → first_owner hash dtype (before ++ (t ∷ [])) ≡ elim (first_owner hash dtype before) [
        | some name ↦ some name
        | none ↦ first_owner hash dtype (t ∷ [])
      ]
  unfolding first_owner
  first_owner-append hash dtype [] t = refl
  first_owner-append hash dtype (u ∷ us) t = ground (arith, first_owner-append hash dtype us t)

  -- The map holds the first owner of every hash and dtype.
  abbrev Covers : Seen → List TensorData → Type 0
  Covers seen before =
      (hash dtype : String) → seen_owner hash dtype seen ≡ first_owner hash dtype before

  Covers-small :
      (seen : Seen) (before : List TensorData) (t : TensorData)
      → Covers seen before
      → ltb (length t.bytes) delta_min_size ≡ true
      → Covers seen (before ++ (t ∷ []))
  unfolding first_owner
  Covers-small seen before t h small hash dtype =
      ground (arith, h hash dtype, first_owner-append hash dtype before t)

  Covers-known :
      (seen : Seen) (before : List TensorData) (t : TensorData) (owner : String)
      → Covers seen before
      → seen_owner (hash_hex t.bytes) t.dtype seen ≡ some owner
      → Covers seen (before ++ (t ∷ []))
  unfolding first_owner
  Covers-known seen before t owner h known hash dtype = ground (
    arith,
    h hash dtype,
    first_owner-append hash dtype before t,
    eq_iff (hash_hex t.bytes) hash,
    eq_iff t.dtype dtype,
  )

  Covers-new :
      (seen : Seen) (before : List TensorData) (t : TensorData)
      → Covers seen before
      → ltb (length t.bytes) delta_min_size ≡ false
      → seen_owner (hash_hex t.bytes) t.dtype seen ≡ none
      → Covers ((hash_hex t.bytes, t.dtype, t.name) ∷ seen) (before ++ (t ∷ []))
  unfolding first_owner seen_owner
  Covers-new seen before t h large new hash dtype = ground (
    arith,
    h hash dtype,
    first_owner-append hash dtype before t,
    eq_iff (hash_hex t.bytes) hash,
    eq_iff t.dtype dtype,
  )

  plan_from_lem :
      (tensors : List TensorData) (seen : Seen) (before : List TensorData)
      → Covers seen before
      → plan_from seen tensors ≡ owners before tensors
  unfolding plan_from owners
  plan_from_lem [] seen before h = refl
  plan_from_lem (t ∷ ts) seen before h = elim (Bool-cases (ltb (length t.bytes) delta_min_size)) [
    | inl small ↦
        rw (small, plan_from, owner_of)
          (ap (λ r. none ∷ r)
            (plan_from_lem ts seen (before ++ (t ∷ [])) (Covers-small seen before t h small)))
    | inr large ↦ elim (Option-cases (seen_owner (hash_hex t.bytes) t.dtype seen)) [
      | inl new ↦
          rw (large, new, plan_from, owner_of, sym (h (hash_hex t.bytes) t.dtype) ∙ new)
            (ap (λ r. none ∷ r)
              (plan_from_lem ts ((hash_hex t.bytes, t.dtype, t.name) ∷ seen) (before ++ (t ∷ []))
                (Covers-new seen before t h large new)))
      | inr (owner, known) ↦
          rw (large, known, plan_from, owner_of, sym (h (hash_hex t.bytes) t.dtype) ∙ known)
            (ap (λ r. some owner ∷ r)
              (plan_from_lem ts seen (before ++ (t ∷ []))
                (Covers-known seen before t owner h known)))
    ]
  ]

  -- The plan gives every tensor, in order, the first tensor before it of its hash and dtype, and none
  -- to a tensor below 4096 bytes or without such a one.
  pub dedup_plan_lem : (tensors : List TensorData) → dedup_plan tensors ≡ owners [] tensors
  unfolding dedup_plan seen_owner first_owner
  dedup_plan_lem tensors = plan_from_lem tensors [] [] (λ hash dtype. refl)
