-- ===== src/Delta.antt =====
-- src/delta.rs: XOR deltas between equal-length buffers, and when one is worth storing.
pub mod RoundTrip
pub mod Density
mod Tests
use moonclip.Prelude.{
  ℕ, zero, suc, ◌+◌, ◌*◌, ◌^◌, min, bit_xor, List, [], ◌∷◌, Bool, true, false, not, ◌&&◌, ◌||◌,
  Option, none, some, ◌==◌, ltb, leb, if◌then◌else◌, length, take, map,
}
use moonclip.Prelude.Tabulate.{concat}
use moonclip.Prelude.Chunks.{chunks, zip_with, any_differs}
use moonclip.Error.{MoonclipError, Result, ok, err, panic, ◌>>=◌}
use moonclip.Manifest.{CompressionAlgo}
use moonclip.Shuffle.{shuffle}

-- `DELTA_MIN_SIZE`, `DECISION_SAMPLE`, `DECISION_MIN` and `SCAN_CHUNK`
abbrev pub delta_min_size : ℕ
delta_min_size = 4096

abbrev pub decision_sample : ℕ
decision_sample = 65536

abbrev pub decision_min : ℕ
decision_min = 8192

abbrev pub scan_chunk : ℕ
scan_chunk = 1048576

-- The assertion on the lengths, then the chunks in pairs.
pub xor_bytes : List ℕ → List ℕ → Result (List ℕ)
xor_bytes base target =
    if length base == length target
    then ok
        (concat (zip_with (zip_with bit_xor) (chunks scan_chunk base) (chunks scan_chunk target)))
    else panic

pub buffers_equal : List ℕ → List ℕ → Bool
buffers_equal base target =
    (length base == length target)
    && not (any_differs (chunks scan_chunk base) (chunks scan_chunk target))

-- `none` asks for no delta: the buffers are identical, too small, or of different sizes.
pub compute_delta : List ℕ → List ℕ → Result (Option (List ℕ))
compute_delta base target =
    if not (length base == length target)
    then ok none
    else if ltb (length base) delta_min_size
    then ok none
    else if buffers_equal base target
    then ok none
    else do xor ← xor_bytes base target; ok (some xor)

pub apply_delta : List ℕ → List ℕ → Result (List ℕ)
apply_delta base delta =
    if not (length base == length delta) then err MoonclipError.delta else xor_bytes base delta

-- `compress` is `compression::compress` under one algorithm, and `wins d f` the comparison of two
-- compressed lengths in floating point, `d < f * max_ratio`.
module _ (compress : List ℕ → Result (List ℕ)) (wins : ℕ → ℕ → Bool) where
  judge : Result (List ℕ) → Result (List ℕ) → Bool
  judge (ok delta_c) (ok (f ∷ full_c)) = wins (length delta_c) (length (f ∷ full_c))
  judge _ _ = true

  pub pays_off : List ℕ → List ℕ → ℕ → Bool
  unfolding judge
  pays_off base target itemsize =
      let n = min (min (length base) (length target)) decision_sample in
      let xor = zip_with bit_xor (take n base) (take n target) in
      if ltb n decision_min
      then true
      else judge (compress (if ltb 1 itemsize then shuffle xor itemsize else xor))
          (compress (take n target))

-- The bytes that differ from 0 and the length, whose quotient is the density (0 of an empty delta).
nonzero : List ℕ → ℕ
nonzero [] = 0
nonzero (b ∷ bs) = (if b == 0 then 0 else 1) + nonzero bs

sum : List ℕ → ℕ
sum [] = 0
sum (n ∷ ns) = n + sum ns

pub delta_density : List ℕ → ℕ × ℕ
unfolding nonzero sum
delta_density delta = (sum (map nonzero (chunks scan_chunk delta)), length delta)
