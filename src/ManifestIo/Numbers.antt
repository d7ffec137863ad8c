-- ===== src/ManifestIo/Numbers.antt =====
-- A text of numbers for manifests of one full snapshot, whose one rank has no tensors: it keeps the laws
-- of serde_json.
use moonclip.Prelude.{
  ℕ, zero, suc, ◌≡◌, refl, sym, ap, ◌∙◌, List, [], ◌∷◌, Bool, true, false, Option, none, some,
  if◌then◌else◌, inl, inr, Bool-cases, Option-cases, arith,
}
use moonclip.Manifest.{Uuid, RankEntry, zstd, uncompressed, CompressionAlgo, TensorEntry}
use moonclip.Storage.{rposition_nonzero}
use moonclip.Storage.Padding.{EndsNonzero}
use moonclip.ManifestIo.{Ranks, Head, Index, ManifestJson, ManifestJsonLaws}
use Prim.Native.String.{String, ◌++◌ as ◌+++◌}
use text.Mathlib.Text.{◌==◌ as str_eq}
use text.Mathlib.TextEquality.{eq_iff}

abbrev tally : ℕ → String
tally zero = String.[]
tally (suc n) = String.◌∷◌ "x" (tally n)

abbrev size : String → ℕ
size String.[] = 0
size (String.◌∷◌ c s) = suc (size s)

size-tally : (n : ℕ) → size (tally n) ≡ n
size-tally zero = refl
size-tally (suc n) = ap suc (size-tally n)

-- Ranks of one rank without tensors and without a pack.
abbrev ranks_text : Uuid × Ranks → Option (List ℕ)
ranks_text (id, (r, e) ∷ []) = elim e.tensors [
  | t ∷ ts ↦ none
  | [] ↦ elim e.pack_file [
    | some path ↦ none
    | none ↦ some (
        id ∷ r ∷ e.rank ∷ e.total_compressed ∷ e.total_raw ∷ e.skipped_count ∷ e.delta_count
        ∷ e.full_count ∷ 1 ∷ [])
  ]
]
ranks_text (id, ranks) = none

abbrev ranks_read : List ℕ → Option (Uuid × Ranks)
ranks_read (id ∷ r ∷ rank ∷ compressed ∷ raw ∷ skips ∷ deltas ∷ fulls ∷ end ∷ []) = some (
  id,
  (
    r,
    record {
      rank = rank;
      tensors = [];
      pack_file = none;
      total_compressed = compressed;
      total_raw = raw;
      skipped_count = skips;
      delta_count = deltas;
      full_count = fulls;
    },
  )
      ∷ [],
)
ranks_read text = none

ranks_back :
    (id r : ℕ) (e : RankEntry) (text : List ℕ) (ts : List TensorEntry) (pack : Option String)
    → e.tensors ≡ ts
    → e.pack_file ≡ pack
    → ranks_text (id, (r, e) ∷ []) ≡ some text
    → (ranks_read text ≡ some (id, (r, e) ∷ [])) × EndsNonzero text
unfolding rposition_nonzero
ranks_back id r e text (t ∷ ts) pack ht hp h = absurd cc (rw ht at h)
ranks_back id r e text [] (some path) ht hp h = absurd cc (rw (ht, hp) at h)
ranks_back id r e text [] none ht hp h =
    let same : id ∷ r ∷ e.rank ∷ e.total_compressed ∷ e.total_raw ∷ e.skipped_count ∷ e.delta_count
          ∷ e.full_count ∷ 1 ∷ []
        ≡ text =
      cc (rw (ht, hp) at h) in
    rw (← same) (rw (ht, hp) refl, (8, refl, refl))

ranks_law :
    (ranks : Uuid × Ranks) (text : List ℕ)
    → ranks_text ranks ≡ some text
    → (ranks_read text ≡ some ranks) × EndsNonzero text
ranks_law (id, []) text h = absurd cc h
ranks_law (id, (r, e) ∷ []) text h = ranks_back id r e text e.tensors e.pack_file refl refl h
ranks_law (id, (r, e) ∷ s ∷ rest) text h = absurd cc h

-- An index of one full snapshot, compressed by zstd, whose ranks are in their file.
abbrev pub path_of : Uuid → String
path_of id = "snapshots/" +++ (tally id +++ "/ranks.json")

abbrev flag : Bool → ℕ
flag true = 1
flag false = 0

abbrev flagged : ℕ → Bool
flagged zero = false
flagged (suc n) = true

abbrev head_text : Head → Option (List ℕ)
head_text h = elim h.ranks [
  | some ranks ↦ none
  | none ↦ elim h.ranks_in [
    | none ↦ none
    | some path ↦ elim h.base_snapshot_id [
      | some base ↦ none
      | none ↦ elim h.metadata [
        | m ∷ ms ↦ none
        | [] ↦ elim h.compression [
          | uncompressed ↦ none
          | zstd level ↦
              if str_eq path (path_of h.id)
              then some
                  (h.id ∷ h.step ∷ h.created_at ∷ level ∷ flag h.finalized ∷ flag h.pinned ∷ 1 ∷ [])
              else none
        ]
      ]
    ]
  ]
]

abbrev head_read : List ℕ → Option Head
head_read (id ∷ step ∷ created ∷ level ∷ finalized ∷ pinned ∷ end ∷ []) = some record {
  id = id;
  step = step;
  created_at = created;
  ranks = none;
  ranks_in = some (path_of id);
  base_snapshot_id = none;
  metadata = [];
  compression = zstd level;
  finalized = flagged finalized;
  pinned = flagged pinned;
}
head_read text = none

flagged-flag : (f : Bool) → flagged (flag f) ≡ f
flagged-flag true = refl
flagged-flag false = refl

head_parts :
    (h : Head) (text : List ℕ) (ranks : Option Ranks) (path : Option String) (base : Option Uuid)
    (metadata : List (String × String)) (algo : CompressionAlgo)
    → h.ranks ≡ ranks
    → h.ranks_in ≡ path
    → h.base_snapshot_id ≡ base
    → h.metadata ≡ metadata
    → h.compression ≡ algo
    → head_text h ≡ some text
    → (head_read text ≡ some h) × EndsNonzero text
unfolding rposition_nonzero
head_parts h text (some ranks) path base metadata algo hr hi hb hm hc e = absurd cc (rw hr at e)
head_parts h text none none base metadata algo hr hi hb hm hc e = absurd cc (rw (hr, hi) at e)
head_parts h text none (some path) (some base) metadata algo hr hi hb hm hc e =
    absurd cc (rw (hr, hi, hb) at e)
head_parts h text none (some path) none (m ∷ ms) algo hr hi hb hm hc e =
    absurd cc (rw (hr, hi, hb, hm) at e)
head_parts h text none (some path) none [] uncompressed hr hi hb hm hc e =
    absurd cc (rw (hr, hi, hb, hm, hc) at e)
head_parts h text none (some path) none [] (zstd level) hr hi hb hm hc e =
    elim (Bool-cases (str_eq path (path_of h.id))) [
      | inr other ↦ absurd cc (rw (hr, hi, hb, hm, hc, other) at e)
      | inl own ↦
          let same : h.id
                ∷ h.step
                ∷ h.created_at
                ∷ level
                ∷ flag h.finalized
                ∷ flag h.pinned
                ∷ 1
                ∷ []
              ≡ text =
            cc (rw (hr, hi, hb, hm, hc, own) at e) in
          let in_path : h.ranks_in ≡ some (path_of h.id) =
            hi ∙ ap some ((eq_iff path (path_of h.id)).0 own) in
          rw (← same) (
            rw (flagged-flag h.finalized, flagged-flag h.pinned, ← hr, ← in_path, ← hb, ← hm, ← hc)
                refl,
            (6, refl, refl),
          )
    ]

head_back :
    (h : Head) (text : List ℕ)
    → head_text h ≡ some text
    → (head_read text ≡ some h) × EndsNonzero text
head_back h text e =
    head_parts h text h.ranks h.ranks_in h.base_snapshot_id h.metadata h.compression refl refl refl
      refl refl e

abbrev with_head : Index → Option (List ℕ) → Option (List ℕ)
with_head index none = none
with_head index (some text) = some (
    index.format_version ∷ index.world_size ∷ index.retention.max_full_snapshots
    ∷ index.retention.max_deltas_per_full ∷ index.retention.full_snapshot_every_steps
    ∷ index.lineage.rollback_interval_steps ∷ index.lineage.max_rollback_snapshots ∷ text)

abbrev pub index_text : Index → Option (List ℕ)
index_text index = elim index.snapshots [
  | [] ↦ none
  | h ∷ rest ↦ elim rest [
    | g ∷ gs ↦ none
    | [] ↦ elim index.retention.max_total_snapshots [
      | some cap ↦ none
      | none ↦ with_head index (head_text h)
    ]
  ]
]

abbrev with_read : ℕ → ℕ → ℕ → ℕ → ℕ → ℕ → ℕ → Option Head → Option Index
with_read version world full deltas every interval rollbacks none = none
with_read version world full deltas every interval rollbacks (some h) = some record {
  format_version = version;
  world_size = world;
  snapshots = h ∷ [];
  retention = record {
    max_full_snapshots = full;
    max_deltas_per_full = deltas;
    full_snapshot_every_steps = every;
    max_total_snapshots = none;
  };
  lineage = record { rollback_interval_steps = interval; max_rollback_snapshots = rollbacks };
}

abbrev index_read : List ℕ → Option Index
index_read (version ∷ world ∷ full ∷ deltas ∷ every ∷ interval ∷ rollbacks ∷ text) =
    with_read version world full deltas every interval rollbacks (head_read text)
index_read text = none

EndsNonzero-cons : (x : ℕ) (text : List ℕ) → EndsNonzero text → EndsNonzero (x ∷ text)
unfolding rposition_nonzero
EndsNonzero-cons x text (i, found, last) = (suc i, rw found refl, omega (arith, last))

index_parts :
    (index : Index) (text : List ℕ) (snapshots : List Head) (cap : Option ℕ)
    → index.snapshots ≡ snapshots
    → index.retention.max_total_snapshots ≡ cap
    → index_text index ≡ some text
    → (index_read text ≡ some index) × EndsNonzero text
index_parts index text [] cap hs hc e = absurd cc (rw hs at e)
index_parts index text (h ∷ g ∷ gs) cap hs hc e = absurd cc (rw hs at e)
index_parts index text (h ∷ []) (some n) hs hc e = absurd cc (rw (hs, hc) at e)
index_parts index text (h ∷ []) none hs hc e = elim (Option-cases (head_text h)) [
  | inl failed ↦ absurd cc (rw (hs, hc, failed) at e)
  | inr (inner, made) ↦
      let (read, ends) = head_back h inner made in
      let same : index.format_version ∷ index.world_size ∷ index.retention.max_full_snapshots
            ∷ index.retention.max_deltas_per_full ∷ index.retention.full_snapshot_every_steps
            ∷ index.lineage.rollback_interval_steps ∷ index.lineage.max_rollback_snapshots ∷ inner
          ≡ text =
        cc (rw (hs, hc, made) at e) in
      rw (← same) (
        rw read (rw (← hs, ← hc) refl),
        EndsNonzero-cons _ _ (
            EndsNonzero-cons _ _ (
              EndsNonzero-cons _ _ (
                EndsNonzero-cons _ _
                  (EndsNonzero-cons _ _ (EndsNonzero-cons _ _ (EndsNonzero-cons _ _ ends)))))),
      )
]

abbrev pub numbers : ManifestJson
numbers = record {
  ranks_to_vec = ranks_text;
  ranks_from_slice = ranks_read;
  index_to_vec = index_text;
  index_from_slice = index_read;
  uuid_text = tally;
}

pub numbers-ManifestJsonLaws : ManifestJsonLaws numbers
numbers-ManifestJsonLaws = record {
  ranks_from_slice-to_vec = λ ranks text h. (ranks_law ranks text h).0;
  ranks_ends_nonzero = λ ranks text h. (ranks_law ranks text h).1;
  index_from_slice-to_vec =
      λ index text h. (index_parts index text index.snapshots _ refl refl h).0;
  index_ends_nonzero = λ index text h. (index_parts index text index.snapshots _ refl refl h).1;
  uuid_text_injective = λ a c h. sym (size-tally a) ∙ ap size h ∙ size-tally c;
}
