-- ===== src/Recovery/Intact.antt =====
-- The data that recovery checks is what a load of the snapshot reads.
use moonclip.Prelude.{
  Option, ℕ, ◌≡◌, refl, ap, ◌∙◌, List, [], ◌∷◌, Bool, true, false, ◌&&◌, some, ◌==◌, inl, inr,
  Option-cases, length, arith,
}
use moonclip.Prelude.Member.{Memᴰ}
use moonclip.Prelude.Search.{all}
use moonclip.Error.{Result, ok, err, panic}
use moonclip.Manifest.{TensorEntry, RankEntry, Snapshot, CompressionAlgo, Uuid, full}
use moonclip.Storage.{StorageBackend, FilePath}
use moonclip.Compression.{decompress}
use moonclip.Tensor.{Externals}
use moonclip.Tensor.Load.{
  BaseEntry, ranged, extract_compressed, load_full, load_on_base, load_tensor_raw,
}
use moonclip.Recovery.{RecoveryExternals, or_none, tensor_is_intact, snapshot_data_is_intact}
use Prim.Native.String.{String}
use text.Mathlib.Text.{◌==◌ as str_eq}
use mathlib.Core.List.Memᴰ.{not-nil, cases_cons}

all_In :
    {A : Type 0} (p : A → Bool) (xs : List A) (x : A) → all p xs ≡ true → Memᴰ x xs → p x ≡ true
all_In p [] x h i = absurd (not-nil i)
all_In p (y ∷ xs) x h i = elim (cases_cons i) [
  | inl e ↦ ap p e ∙ ground (arith, h)
  | inr k ↦ all_In p xs x (ground (arith, h)) k
]

both : (p q : Bool) → (p && q) ≡ true → (p ≡ true) × (q ≡ true)
both true q h = (refl, h)
both false q h = absurd cc h

or_none-some : {A : Type 0} (r : Result A) (a : A) → or_none r ≡ some a → r ≡ ok a
or_none-some (ok v) a h = cc h
or_none-some (err e) a h = cc h
or_none-some panic a h = cc h

module _ {S D : Type 0} (b : StorageBackend S) (x : RecoveryExternals S) (y : Externals D) (s : S)
    (same_hash : (bytes : List ℕ) → y.hash_hex bytes ≡ x.hash_hex bytes) where
  -- The stored bytes of a tensor that passed the check are read, with their size and their hash.
  intact_bytes :
      (entry : RankEntry) (t : TensorEntry) (path : FilePath) (hash : String)
      → entry.pack_file ≡ some path
      → t.hash_compressed ≡ some hash
      → tensor_is_intact b x s entry t ≡ true
      → (bytes : List ℕ) × (extract_compressed b y s t (ranged path) ≡ ok bytes)
        × (str_eq (y.hash_hex bytes) hash ≡ true)
  unfolding tensor_is_intact extract_compressed
  intact_bytes entry t path hash has_pack has_hash intact =
      elim (Option-cases (or_none (b.get_range path t.offset t.compressed_size s))) [
        | inl failed ↦ absurd cc (rw (tensor_is_intact, has_hash, has_pack, failed) at intact)
        | inr (bytes, read) ↦
            let got = or_none-some (b.get_range path t.offset t.compressed_size s) bytes read in
            let checks : ((length bytes == t.compressed_size) && str_eq (x.hash_hex bytes) hash)
                ≡ true =
              rw (tensor_is_intact, has_hash, has_pack, read) at intact in
            let (size, hashes) =
              both (length bytes == t.compressed_size) (str_eq (x.hash_hex bytes) hash) checks in
            (bytes, rw (got, size) refl, rw (same_hash bytes) hashes)
      ]

  -- In a snapshot that passed the check, take a tensor stored in full with a stored hash, of a rank
  -- with a pack. A load that takes the same hash finds its stored bytes in the pack and accepts their
  -- hash: it comes to what decompressing them comes to, whatever the base.
  pub snapshot_data_is_intact-loads :
      (u : Snapshot) (rank : ℕ) (entry : RankEntry) (t : TensorEntry) (path : FilePath)
      (hash : String) (find_base_entry : Uuid → String → Result BaseEntry) (base : Option Uuid)
      (algo : CompressionAlgo)
      → snapshot_data_is_intact b x s u ≡ true
      → Memᴰ (rank, entry) u.ranks
      → entry.pack_file ≡ some path
      → Memᴰ t entry.tensors
      → t.storage ≡ full
      → t.hash_compressed ≡ some hash
      → (bytes : List ℕ) × (extract_compressed b y s t (ranged path) ≡ ok bytes)
        × (load_tensor_raw b y s find_base_entry t base algo (ranged path)
            ≡ decompress y.zstd bytes algo)
  unfolding snapshot_data_is_intact load_tensor_raw load_on_base load_full
  snapshot_data_is_intact-loads u rank entry t path hash find_base_entry base algo intact i has_pack
        k is_full has_hash =
      let (bytes, got, hashes) = intact_bytes entry t path hash has_pack has_hash (
        all_In (tensor_is_intact b x s entry) entry.tensors t
          (all_In (λ r. all (tensor_is_intact b x s r.1) r.1.tensors) u.ranks (rank, entry) intact
            i)
          k) in
      (
        bytes,
        got,
        rw (load_tensor_raw, load_on_base, is_full, load_full, got, has_hash, hashes) refl,
      )
