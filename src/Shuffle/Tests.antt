-- ===== src/Shuffle/Tests.antt =====
-- The plane transform at concrete buffers.
use moonclip.Prelude.{ℕ, List, [], ◌∷◌, ◌≡◌, refl}
use moonclip.Shuffle.{shuffle, unshuffle}
use moonclip.Shuffle.RoundTrip.{unshuffle-shuffle}

-- Two elements of four bytes, and a byte behind them.
abbrev two_floats : List ℕ
two_floats = 1 ∷ 2 ∷ 3 ∷ 4 ∷ 11 ∷ 12 ∷ 13 ∷ 14 ∷ 99 ∷ []

shuffled_planes : shuffle two_floats 4 ≡ 1 ∷ 11 ∷ 2 ∷ 12 ∷ 3 ∷ 13 ∷ 4 ∷ 14 ∷ 99 ∷ []
unfolding shuffle
shuffled_planes = refl

unshuffle-shuffle_example : unshuffle (shuffle two_floats 4) 4 ≡ two_floats
unshuffle-shuffle_example = unshuffle-shuffle two_floats 4
