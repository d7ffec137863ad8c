-- ===== src/Pack.antt =====
-- src/pack.rs: the fixed-size header of a pack file, and the descriptor that it points at.
pub mod Header
mod Tests
use moonclip.Prelude.{
  ℕ, ◌+◌, List, [], ◌∷◌, ◌++◌, not, ◌||◌, Option, none, some, ◌==◌, ltb, if◌then◌else◌, length,
  take, drop,
}
use moonclip.Prelude.Chunks.{bytes_eq}
use moonclip.Prelude.Words.{to_le, from_le}
use moonclip.Manifest.{Uuid, CompressionAlgo, RankEntry}
use Prim.Native.String.{String}

-- `MAGIC`, the bytes of "MOONPACK"; `VERSION`; `HEADER_LEN`
abbrev pub magic : List ℕ
magic = b'M' ∷ b'O' ∷ b'O' ∷ b'N' ∷ b'P' ∷ b'A' ∷ b'C' ∷ b'K' ∷ []

abbrev pub version : ℕ
version = 1

abbrev pub header_len : ℕ
header_len = 32

pub record PackDescriptor : Type 0 where
  pub snapshot_id : Uuid
  pub step : ℕ
  pub created_at : ℕ
  pub base_snapshot_id : Option Uuid
  pub metadata : List (String × String)
  pub compression : CompressionAlgo
  pub world_size : ℕ
  pub rank : RankEntry

unfoldable pub encode_header : ℕ → ℕ → List ℕ
unfolding to_le
encode_header descriptor_offset descriptor_len =
    magic
    ++ (to_le 4 version ++ (to_le 4 0 ++ (to_le 8 descriptor_offset ++ to_le 8 descriptor_len)))

-- The bytes from `lo` up to `hi`, of a slice that is long enough.
abbrev pub slice : ℕ → ℕ → List ℕ → List ℕ
slice lo width bytes = take width (drop lo bytes)

unfoldable pub decode_header : List ℕ → Option (ℕ × ℕ)
unfolding from_le
decode_header bytes =
    if ltb (length bytes) header_len || not (bytes_eq (take 8 bytes) magic)
    then none
    else if not (from_le (slice 8 4 bytes) == version)
    then none
    else some (from_le (slice 16 8 bytes), from_le (slice 24 8 bytes))
