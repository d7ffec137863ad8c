-- ===== src/Shuffle.antt =====
-- src/shuffle.rs: the byte-plane transpose that XOR deltas go through before compression.
pub mod RoundTrip
mod Tests
use Prim.Native.String.{String}
use moonclip.Prelude.{
  ℕ, zero, suc, ◌+◌, ◌-◌, ◌*◌, ◌/◌, min, List, [], ◌++◌, ◌==◌, leb, if◌then◌else◌, length, get_or,
  drop, ◌||◌, Bool,
}
use moonclip.Prelude.Tabulate.{rows}
use text.Mathlib.Text.{◌==◌ as str_eq}

-- `UNSHUFFLE_BLOCK`
abbrev pub unshuffle_block : ℕ
unshuffle_block = 8192

-- The planes of `count` whole elements, and the trailing partial element as it is. The chunk of the
-- output for `plane` holds byte `plane` of every element.
transpose : List ℕ → ℕ → ℕ → List ℕ
transpose bytes itemsize count =
    rows 0 itemsize count (λ plane i. get_or bytes (i * itemsize + plane) 0)
    ++ drop (count * itemsize) bytes

pub shuffle : List ℕ → ℕ → List ℕ
unfolding transpose
shuffle bytes itemsize =
    if leb itemsize 1
    then bytes
    else if length bytes / itemsize == 0
    then bytes
    else transpose bytes itemsize (length bytes / itemsize)

-- The chunks of `itemsize * block` bytes of the output's first `left` bytes, from chunk `index` on;
-- `fuel` bounds their number.
scatter : List ℕ → ℕ → ℕ → ℕ → ℕ → ℕ → ℕ → List ℕ
scatter bytes itemsize count block zero index left = []
scatter bytes itemsize count block (suc fuel) index left =
    let dst = min left (itemsize * block) in
    let first = index * block in
    let rest = scatter bytes itemsize count block fuel (index + 1) (left - dst) in
    if left == 0
    then []
    else rows 0 (dst / itemsize) itemsize (λ i plane. get_or bytes (plane * count + first + i) 0)
      ++ rest

pub unshuffle : List ℕ → ℕ → List ℕ
unfolding scatter
unshuffle bytes itemsize =
    let count = length bytes / itemsize in
    if leb itemsize 1
    then bytes
    else if count == 0
    then bytes
    else scatter bytes itemsize count unshuffle_block count 0 (count * itemsize)
      ++ drop (count * itemsize) bytes

infixl 40 ◌is◌
abbrev ◌is◌ : String → String → Bool
s is t = str_eq s t

pub element_size : String → ℕ
element_size dtype =
    if dtype is "complex128"
    then 16
    else if dtype is "float64" || dtype is "int64" || dtype is "uint64" || dtype is "complex64"
    then 8
    else if dtype is "float32" || dtype is "int32" || dtype is "uint32" || dtype is "complex32"
    then 4
    else if dtype is "float16" || dtype is "bfloat16" || dtype is "int16" || dtype is "uint16"
    then 2
    else 1
