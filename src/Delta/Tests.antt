-- ===== src/Delta/Tests.antt =====
-- Deltas at concrete buffers.
use moonclip.Prelude.{ℕ, List, [], ◌∷◌, ◌≡◌, ◌≢◌, some, length, replicate}
use moonclip.Error.{MoonclipError, ok, err}
use moonclip.Delta.{compute_delta, apply_delta, delta_min_size}
use moonclip.Delta.RoundTrip.{apply_delta-compute_delta, apply_delta_total, compute_delta_lem}

abbrev old_weights : List ℕ
old_weights = 3 ∷ replicate delta_min_size 7

abbrev new_weights : List ℕ
new_weights = 5 ∷ replicate delta_min_size 7

abbrev one_byte : List ℕ
one_byte = 1 ∷ []

abbrev two_bytes : List ℕ
two_bytes = 1 ∷ 2 ∷ []

abbrev weights_delta : List ℕ
weights_delta = 6 ∷ replicate delta_min_size 0

made : compute_delta old_weights new_weights ≡ ok (some weights_delta)
made = compute_delta_lem old_weights new_weights

apply_delta-compute_delta_example : apply_delta old_weights weights_delta ≡ ok new_weights
apply_delta-compute_delta_example =
    apply_delta-compute_delta old_weights new_weights weights_delta made

apply_delta_total_example :
    (length one_byte ≢ length two_bytes → apply_delta one_byte two_bytes ≡ err MoonclipError.delta)
    × (length one_byte ≡ length two_bytes
        → (target : List ℕ) × (apply_delta one_byte two_bytes ≡ ok target)
          × (length target ≡ length one_byte)
          × (apply_delta one_byte target ≡ ok two_bytes))
apply_delta_total_example = apply_delta_total one_byte two_bytes
