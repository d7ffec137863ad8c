-- ===== src/Tensor/Extract.antt =====
-- The compressed bytes of a tensor are the same whichever way its pack is read.
use moonclip.Prelude.{
  ℕ, ◌+◌, ◌^◌, ◌≤◌, ◌<◌, ◌≡◌, refl, List, length, take, drop, length-take, length-drop, arith,
  ==_iff,
}
use moonclip.Error.{ok}
use moonclip.Manifest.{TensorEntry}
use moonclip.Storage.{StorageBackend, StorageLaws, FilePath}
use moonclip.Tensor.{Externals}
use moonclip.Tensor.Load.{whole, ranged, extract_compressed}

pub extract_whole :
    {S D : Type 0} (b : StorageBackend S) (x : Externals D) (s : S) (entry : TensorEntry)
    (bytes : List ℕ)
    → length bytes < 2 ^ 64
    → entry.offset + entry.compressed_size ≤ length bytes
    → extract_compressed b x s entry (whole bytes)
      ≡ ok (take entry.compressed_size (drop entry.offset bytes))
unfolding extract_compressed
extract_whole b x s entry bytes small inside = ground arith

-- A span that lies inside its pack is found by a ranged read of the file exactly as in the whole pack
-- in memory, and it is the bytes at the entry's offset.
pub extract_compressed_lem :
    {S D : Type 0} (b : StorageBackend S) (laws : StorageLaws b) (x : Externals D) (s : S)
    (entry : TensorEntry) (path : FilePath) (bytes : List ℕ)
    → b.get path s ≡ ok bytes
    → length bytes < 2 ^ 64
    → entry.offset + entry.compressed_size ≤ length bytes
    → (extract_compressed b x s entry (ranged path)
        ≡ ok (take entry.compressed_size (drop entry.offset bytes)))
      × (extract_compressed b x s entry (whole bytes)
          ≡ ok (take entry.compressed_size (drop entry.offset bytes)))
unfolding extract_compressed
extract_compressed_lem b laws x s entry path bytes got small inside =
    let span : length (take entry.compressed_size (drop entry.offset bytes))
        ≡ entry.compressed_size =
      omega (
        arith,
        length-take entry.compressed_size (drop entry.offset bytes),
        length-drop entry.offset bytes,
      ) in
    (
      rw
          (
            laws.get_range_lem path entry.offset entry.compressed_size s bytes got,
            (==_iff _ _).1 span,
          )
          refl,
      extract_whole b x s entry bytes small inside,
    )
