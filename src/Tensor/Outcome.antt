-- ===== src/Tensor/Outcome.antt =====
-- The three ways a tensor is stored, and what each of them wrote.
use moonclip.Prelude.{
  ℕ, ◌≡◌, refl, ap, ◌∙◌, List, Bool, true, false, Option, none, some, if◌then◌else◌, inl, inr,
  Bool-cases, Option-cases,
}
use moonclip.Prelude.Assoc.{lookup}
use moonclip.Error.{Result, ok, >>=-eq-ok}
use moonclip.Manifest.{CompressionAlgo, TensorEntry}
use moonclip.Storage.{StorageBackend}
use moonclip.Compression.{compress}
use moonclip.Cast.Policy.{DTypePolicy}
use moonclip.Cast.Convert.{Stored}
use moonclip.Shuffle.{element_size}
use moonclip.Delta.{compute_delta}
use moonclip.Tensor.{
  TensorData, ProcessedTensor, BaseCache, Externals, base_bytes, working_of, full_entry,
  make_full_entry, skipped_entry, in_planes, delta_entry, make_delta_entry, sampled_verdict,
  is_worth_it, stored_delta, delta_against, try_delta, may_delta, process_against, process_tensor,
}
use text.Mathlib.Text.{◌==◌ as str_eq}

when-eq-some :
    {A : Type 0} (c : Bool) (y : Result (Option A)) {p : A}
    → (if c then y else ok none) ≡ ok (some p)
    → y ≡ ok (some p)
when-eq-some true y h = h
when-eq-some false y h = absurd cc h

unless-eq-some :
    {A : Type 0} (c : Bool) (y : Result (Option A)) {p : A}
    → (if c then ok none else y) ≡ ok (some p)
    → y ≡ ok (some p)
unless-eq-some true y h = absurd cc h
unless-eq-some false y h = h

some_branch :
    {A B : Type 0} (o : Option A) (next : A → Result (Option B)) {p : B}
    → (elim o [ none ↦ ok none | some a ↦ next a ]) ≡ ok (some p)
    → (a : A) × (o ≡ some a) × (next a ≡ ok (some p))
some_branch none next h = cc
some_branch (some a) next h = (a, refl, h)

module _ {S D : Type 0} (b : StorageBackend S) (x : Externals D) (algo : CompressionAlgo)
    (wins : ℕ → ℕ → Bool) (tensor : TensorData) (s : S) where
  -- What a processed tensor of the given working bytes can be.
  pub data Outcome (base_cache : Option BaseCache) (working : Stored) (p : ProcessedTensor)
      : Type 0 where
    stored_whole :
        (compressed : List ℕ)
        → compress x.zstd working.0 algo ≡ ok compressed
        → p ≡ full_entry b x tensor working compressed
        → Outcome base_cache working p
    same_as_base :
        (cache : BaseCache) (base_entry : TensorEntry)
        → base_cache ≡ some cache
        → lookup tensor.name cache.entries ≡ some base_entry
        → str_eq base_entry.hash_raw (x.hash_hex working.0) ≡ true
        → p ≡ skipped_entry b x tensor working
        → Outcome base_cache working p
    delta_on_base :
        (cache : BaseCache) (base_entry : TensorEntry) (base_raw xor compressed : List ℕ)
        → base_cache ≡ some cache
        → lookup tensor.name cache.entries ≡ some base_entry
        → base_bytes b x cache base_entry s ≡ ok (some base_raw)
        → compute_delta base_raw working.0 ≡ ok (some xor)
        → compress x.zstd (in_planes b x (element_size working.1) xor) algo ≡ ok compressed
        → p ≡ delta_entry b x tensor working compressed
        → Outcome base_cache working p

  whole-Outcome :
      (base_cache : Option BaseCache) (working : Stored) (p : ProcessedTensor)
      → make_full_entry b x tensor working algo ≡ ok p
      → Outcome base_cache working p
  unfolding make_full_entry
  whole-Outcome base_cache working p h =
      let (compressed, hc, hp) = >>=-eq-ok (compress x.zstd working.0 algo) _ h in
      stored_whole compressed hc cc

  -- A delta that was made, and what it was made of.
  abbrev Made : Stored → List ℕ → ProcessedTensor → Type 0
  Made working base_raw p =
      (xor : List ℕ) × (compressed : List ℕ) × (compute_delta base_raw working.0 ≡ ok (some xor))
      × (compress x.zstd (in_planes b x (element_size working.1) xor) algo ≡ ok compressed)
      × (p ≡ delta_entry b x tensor working compressed)

  make_delta_entry_lem :
      (working : Stored) (xor : List ℕ) (p : ProcessedTensor)
      → make_delta_entry b x tensor working xor algo ≡ ok p
      → (compressed : List ℕ) × (compress x.zstd (in_planes b x (element_size working.1) xor) algo
          ≡ ok compressed)
        × (p ≡ delta_entry b x tensor working compressed)
  unfolding make_delta_entry
  make_delta_entry_lem working xor p h =
      let (compressed, hc, hp) =
        >>=-eq-ok (compress x.zstd (in_planes b x (element_size working.1) xor) algo) _ h in
      (compressed, hc, cc)

  delta_against-Made :
      (working : Stored) (verdict : Option Bool) (base_raw : List ℕ) (p : ProcessedTensor)
      → delta_against b x algo wins tensor working verdict base_raw ≡ ok (some p)
      → Made working base_raw p
  unfolding delta_against stored_delta
  delta_against-Made working verdict base_raw p h =
      let (made, hm, h1) = >>=-eq-ok (compute_delta base_raw working.0) _ (
        when-eq-some (is_worth_it b x algo wins working verdict base_raw)
          (stored_delta b x algo wins tensor working base_raw) h) in
      let (xor, hx, h2) = some_branch made _ h1 in
      let (processed, hp, h3) = >>=-eq-ok (make_delta_entry b x tensor working xor algo) _ h2 in
      let (compressed, hc, h4) = make_delta_entry_lem working xor processed hp in
      let same : p ≡ processed = cc h3 in (xor, compressed, hm ∙ ap ok hx, hc, same ∙ h4)

  try_delta-Made :
      (working : Stored) (cache : BaseCache) (base_entry : TensorEntry) (p : ProcessedTensor)
      → try_delta b x algo wins tensor working cache base_entry s ≡ ok (some p)
      → (base_raw : List ℕ) × (base_bytes b x cache base_entry s ≡ ok (some base_raw))
        × Made working base_raw p
  unfolding try_delta
  try_delta-Made working cache base_entry p h =
      let (verdict, hv, h1) =
        >>=-eq-ok (sampled_verdict b x algo wins cache base_entry tensor.name working s) _ h in
      let (base, hb, h2) =
        >>=-eq-ok (base_bytes b x cache base_entry s) _ (unless-eq-some _ _ h1) in
      let (base_raw, hr, h3) = some_branch base _ h2 in
      (base_raw, hb ∙ ap ok hr, delta_against-Made working verdict base_raw p h3)

  process_against-Outcome :
      (cache : BaseCache) (base_entry : TensorEntry) (working : Stored) (p : ProcessedTensor)
      → lookup tensor.name cache.entries ≡ some base_entry
      → process_against b x algo wins tensor working cache base_entry s ≡ ok p
      → Outcome (some cache) working p
  unfolding process_against
  process_against-Outcome cache base_entry working p found h =
      elim (Bool-cases (str_eq base_entry.hash_raw (x.hash_hex working.0))) [
        | inl same ↦
            same_as_base cache base_entry refl found same (cc (rw (same, process_against) at h))
        | inr other ↦
            let (made, hm, h1) =
              >>=-eq-ok
                (if may_delta b x algo wins working base_entry
                  then try_delta b x algo wins tensor working cache base_entry s
                  else ok none)
                _ (rw (other, process_against) at h) in
            tried made hm h1
      ]
    where
      tried :
          (made : Option ProcessedTensor)
          → (if may_delta b x algo wins working base_entry
              then try_delta b x algo wins tensor working cache base_entry s
              else ok none)
            ≡ ok made
          → (elim made [
            | some processed ↦ ok processed
            | none ↦ make_full_entry b x tensor working algo
          ])
            ≡ ok p
          → Outcome (some cache) working p
      tried none hm e = whole-Outcome (some cache) working p e
      tried (some processed) hm e = elim (Bool-cases (may_delta b x algo wins working base_entry)) [
        | inl fits ↦
            let (base_raw, hb, made_of) =
              try_delta-Made working cache base_entry processed (rw fits at hm) in
            let (xor, compressed, hx, hc, hp) = made_of in
            let same : p ≡ processed = cc e in
            delta_on_base cache base_entry base_raw xor compressed refl found hb hx hc (same ∙ hp)
        | inr refused ↦ absurd cc (rw refused at hm)
      ]

  -- A tensor that was processed was cast, and then stored whole, as a delta against its base, or not
  -- at all because the base has its hash.
  pub process_tensor-Outcome :
      (base_cache : Option BaseCache) (policy : DTypePolicy) (p : ProcessedTensor)
      → process_tensor b x algo wins tensor base_cache policy s ≡ ok p
      → (working : Stored) × (working_of b x tensor policy ≡ ok working)
        × Outcome base_cache working p
  unfolding process_tensor
  process_tensor-Outcome base_cache policy p h =
      let (working, hw, hp) = >>=-eq-ok (working_of b x tensor policy) _ h in
      (working, hw, against base_cache working hp)
    where
      against :
          (base_cache : Option BaseCache) (working : Stored)
          → (elim base_cache [
            | none ↦ make_full_entry b x tensor working algo
            | some cache ↦ elim (lookup tensor.name cache.entries) [
              | none ↦ make_full_entry b x tensor working algo
              | some base_entry ↦ process_against b x algo wins tensor working cache base_entry s
            ]
          ])
            ≡ ok p
          → Outcome base_cache working p
      against none working e = whole-Outcome none working p e
      against (some cache) working e = elim (Option-cases (lookup tensor.name cache.entries)) [
        | inl new ↦ whole-Outcome (some cache) working p (rw new at e)
        | inr (base_entry, found) ↦
            process_against-Outcome cache base_entry working p found (rw found at e)
      ]
