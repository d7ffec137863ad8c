-- ===== src/Prelude/Words.antt =====
-- Machine words as little-endian bytes.
use Prim.Native.Nat.{ℕ, zero, suc, ◌+◌, ◌*◌, ◌/◌, ◌%◌, ◌^◌, ◌<◌}
use mathlib.Core.Path.{◌≡◌, refl, ap, ap₂, ◌∙◌}
use mathlib.Core.List.{List, [], ◌∷◌}
use native.Mathlib.Nat.{pow-suc}
use native.Mathlib.Omega.{arith}
use moonclip.Prelude.Lists.{length, All}

abbrev pub IsByte : ℕ → Type 0
IsByte b = b < 256

-- The low `w` bytes of a number, lowest first: `to_le_bytes` of a `w`-byte word.
unfoldable pub to_le : ℕ → ℕ → List ℕ
to_le zero v = []
to_le (suc w) v = (v % 256) ∷ to_le w (v / 256)

-- `from_le_bytes`
unfoldable pub from_le : List ℕ → ℕ
from_le [] = 0
from_le (b ∷ bs) = b + 256 * from_le bs

pub length-to_le : (w v : ℕ) → length (to_le w v) ≡ w
unfolding to_le
length-to_le zero v = refl
length-to_le (suc w) v = ap suc (length-to_le w (v / 256))

pub from_le-to_le : (w v : ℕ) → v < 256 ^ w → from_le (to_le w v) ≡ v
unfolding to_le from_le
from_le-to_le zero v h = omega arith
from_le-to_le (suc w) v h = omega (arith, from_le-to_le w (v / 256) (omega (arith, pow-suc 256 w)))

pub to_le-from_le : (bs : List ℕ) → All IsByte bs → to_le (length bs) (from_le bs) ≡ bs
unfolding to_le from_le
to_le-from_le [] h = refl
to_le-from_le (b ∷ bs) h =
    ap₂ (λ x xs. x ∷ xs) low (ap (to_le (length bs)) high ∙ to_le-from_le bs h.1)
  where
    low : (b + 256 * from_le bs) % 256 ≡ b
    low = omega arith

    high : (b + 256 * from_le bs) / 256 ≡ from_le bs
    high = omega arith

pub from_le_bound : (bs : List ℕ) → All IsByte bs → from_le bs < 256 ^ length bs
unfolding from_le
from_le_bound [] h = omega arith
from_le_bound (b ∷ bs) h = omega (arith, from_le_bound bs h.1, pow-suc 256 (length bs))

pub to_le-IsByte : (w v : ℕ) → All IsByte (to_le w v)
unfolding to_le
to_le-IsByte zero v = tt
to_le-IsByte (suc w) v = (omega arith, to_le-IsByte w (v / 256))
