-- ===== src/Shuffle/RoundTrip.antt =====
-- `unshuffle` undoes `shuffle`, and both are permutations of positions.
use moonclip.Prelude.{
  ℕ, zero, suc, ◌+◌, ◌-◌, ◌*◌, ◌/◌, ◌≤◌, ◌<◌, min, ◌≡◌, sym, ap, ◌∙◌, List, ◌++◌, ◌==◌, leb, length,
  get_or, take, drop, length-append, length-drop, take-append-drop, drop-append, Bool-cases,
  ==_zero_pos, inl, inr, false, arith, ◌⊎◌,
}
use moonclip.Prelude.Tabulate.{
  rows, rows-add, rows_ext, length-rows, get_or-rows, rows-get_or, rows_shift,
}
use moonclip.Shuffle.{shuffle, unshuffle, transpose, scatter, unshuffle_block}
use native.Mathlib.Nat.{mul-div_cancel, mul_comm, add-mul, add_assoc, zero-add, div-mul-le_self}

-- One element of the output, read back from the planes.
abbrev gather : List ℕ → ℕ → ℕ → ℕ → ℕ
gather bytes count i plane = get_or bytes (plane * count + i) 0

length-transpose :
    (bytes : List ℕ) (k c : ℕ) → c * k ≤ length bytes → length (transpose bytes k c) ≡ length bytes
unfolding transpose
length-transpose bytes k c h = omega (
  arith,
  length-append (rows 0 k c (λ plane i. get_or bytes (i * k + plane) 0)) (drop (c * k) bytes),
  length-rows 0 k c (λ plane i. get_or bytes (i * k + plane) 0),
  length-drop (c * k) bytes,
)

drop-transpose :
    (bytes : List ℕ) (k c : ℕ) → drop (c * k) (transpose bytes k c) ≡ drop (c * k) bytes
unfolding transpose
drop-transpose bytes k c =
    ap (λ n. drop n (planes ++ drop (c * k) bytes)) (same (length-rows 0 k c reads))
    ∙ drop-append planes (drop (c * k) bytes)
  where
    reads : ℕ → ℕ → ℕ
    reads plane i = get_or bytes (i * k + plane) 0

    planes : List ℕ
    planes = rows 0 k c reads

    same : length planes ≡ k * c → c * k ≡ length planes
    same e = omega arith

min_mul : (e b k : ℕ) → min (e * k) (k * b) ≡ min e b * k
min_mul e b k = elim (le_cases e b) [
  | inl h ↦ rw (small e b h) (omega (arith, times e b h, mul_comm k b))
  | inr h ↦ rw (large e b h) (omega (arith, times b e h, mul_comm k b))
]
  where
    le_cases : (x y : ℕ) → (x ≤ y) ⊎ (y ≤ x)
    le_cases x y = grind arith

    times : (x y : ℕ) → x ≤ y → x * k ≤ y * k
    times x y h = grind arith

    small : (x y : ℕ) → x ≤ y → min x y ≡ x
    small x y h = omega arith

    large : (x y : ℕ) → y ≤ x → min x y ≡ y
    large x y h = omega arith

-- What is left after `m` of `e` elements.
sub_mul : (e m k : ℕ) → m ≤ e → e * k - m * k ≡ (e - m) * k
sub_mul e m k h = omega (arith, add-mul (e - m) m k, ap (λ (t : ℕ). t * k) whole)
  where
    whole : (e - m) + m ≡ e
    whole = omega arith

block_rows :
    (bytes : List ℕ) (k c first m : ℕ)
    → rows 0 m k (λ i plane. get_or bytes (plane * c + first + i) 0)
      ≡ rows first m k (gather bytes c)
block_rows bytes k c first m =
    rows_ext 0 m k _ (λ i plane. gather bytes c (first + i) plane)
      (λ i plane _ _ _. ap (λ j. get_or bytes j 0) (add_assoc (plane * c) first i))
    ∙ rows_shift first m k (gather bytes c)

scatter_step :
    (bytes : List ℕ) (k c block fuel index e : ℕ)
    → 0 < k
    → 0 < e
    → scatter bytes k c block (suc fuel) index (e * k)
      ≡ rows (index * block) (min e block) k (gather bytes c)
        ++ scatter bytes k c block fuel (index + 1) ((e - min e block) * k)
unfolding scatter
scatter_step bytes k c block fuel index e hk he = rw (
  ==_zero_pos (e * k) pos,
  min_mul e block k,
  mul-div_cancel (min e block) hk,
  block_rows bytes k c (index * block) (min e block),
  sub_mul e (min e block) k (omega arith),
)
  where
    pos : 0 < e * k
    pos = grind arith

-- The chunks together are one array of `e` elements, whatever the block size.
scatter-rows :
    (bytes : List ℕ) (k c block fuel index e : ℕ)
    → 0 < k
    → 0 < block
    → e ≤ fuel
    → scatter bytes k c block fuel index (e * k) ≡ rows (index * block) e k (gather bytes c)
scatter-rows bytes k c block zero index e hk hb hf =
    unfold scatter in ap (λ n. rows (index * block) n k (gather bytes c)) (none_left e hf)
  where
    none_left : (n : ℕ) → n ≤ 0 → 0 ≡ n
    none_left n h = omega arith
scatter-rows bytes k c block (suc fuel) index zero hk hb hf = unfold scatter in ground arith
scatter-rows bytes k c block (suc fuel) index (suc e) hk hb hf =
    scatter_step bytes k c block fuel index (suc e) hk (omega arith)
    ∙ ap (λ t. rows (index * block) m k (gather bytes c) ++ t)
        (scatter-rows bytes k c block fuel (index + 1) (suc e - m) hk hb (omega arith)
          ∙ start_at (min_cases (suc e) block))
    ∙ sym (rows-add (index * block) m (suc e - m) k (gather bytes c))
    ∙ ap (λ n. rows (index * block) n k (gather bytes c)) {x = m + (suc e - m)} {y = suc e}
        (omega arith)
  where
    m : ℕ
    m = min (suc e) block

    min_cases : (x y : ℕ) → (x - min x y ≡ 0) ⊎ (min x y ≡ y)
    min_cases x y = grind arith

    start_at :
        ((suc e - m ≡ 0) ⊎ (m ≡ block))
        → rows ((index + 1) * block) (suc e - m) k (gather bytes c)
          ≡ rows (index * block + m) (suc e - m) k (gather bytes c)
    start_at (inl none_left) = rw none_left
    start_at (inr full) =
        ap (λ a. rows a (suc e - m) k (gather bytes c)) {x = (index + 1) * block} (omega arith)

-- The planes of every whole element, read back in order, are its front.
gather-transpose :
    (bytes : List ℕ) (k c : ℕ)
    → c * k ≤ length bytes
    → rows 0 c k (gather (transpose bytes k c) c) ≡ take (c * k) bytes
unfolding transpose
gather-transpose bytes k c h =
    rows_ext 0 c k _ (λ i plane. get_or bytes (i * k + plane) 0)
      (λ i plane _ hi hp.
        get_or-rows 0 k c plane i (λ p j. get_or bytes (j * k + p) 0) (drop (c * k) bytes) 0 hp
          (omega arith)
        ∙ ap (λ p. get_or bytes (i * k + p) 0) (zero-add plane))
    ∙ rows-get_or 0 c k bytes 0 (omega arith)
    ∙ ap (λ n. take (c * k) (drop n bytes)) {x = 0 * k} {y = 0} (omega arith)

unshuffle-transpose :
    (bytes : List ℕ) (k : ℕ)
    → 1 < k
    → 0 < length bytes / k
    → unshuffle (transpose bytes k (length bytes / k)) k ≡ bytes
unfolding unshuffle
unshuffle-transpose bytes k hk hc =
    rw
      (
        wide k hk,
        length-transpose bytes k c fits,
        ==_zero_pos c hc,
        scatter-rows (transpose bytes k c) k c unshuffle_block c 0 c (omega arith) (omega arith)
            (omega arith),
        drop-transpose bytes k c,
      )
      (ap (λ t. t ++ drop (c * k) bytes)
          (ap (λ a. rows a c k (gather (transpose bytes k c) c)) {x = 0 * unshuffle_block} {y = 0}
              (omega arith)
            ∙ gather-transpose bytes k c fits)
        ∙ take-append-drop (c * k) bytes)
  where
    c : ℕ
    c = length bytes / k

    fits : c * k ≤ length bytes
    fits = div-mul-le_self (length bytes) k

    wide : (n : ℕ) → 1 < n → leb n 1 ≡ false
    wide n h = ground arith

-- For every buffer and element width, whole elements or not, `unshuffle` gives back exactly the
-- bytes that `shuffle` was given.
pub unshuffle-shuffle :
    (bytes : List ℕ) (itemsize : ℕ) → unshuffle (shuffle bytes itemsize) itemsize ≡ bytes
unfolding shuffle
unshuffle-shuffle bytes itemsize = elim (Bool-cases (leb itemsize 1)) [
  | inl narrow ↦ rw narrow (unfold unshuffle in rw narrow)
  | inr wide ↦ elim (Bool-cases (length bytes / itemsize == 0)) [
    | inl short ↦ rw (wide, short) (unfold unshuffle in rw (wide, short))
    | inr long ↦ rw (wide, long) (unshuffle-transpose bytes itemsize (ground arith) (ground arith))
  ]
]

-- `shuffle` moves bytes and neither adds nor drops one.
pub length-shuffle :
    (bytes : List ℕ) (itemsize : ℕ) → length (shuffle bytes itemsize) ≡ length bytes
unfolding shuffle
length-shuffle bytes itemsize = ground (
  arith,
  length-transpose bytes itemsize (length bytes / itemsize),
  div-mul-le_self (length bytes) itemsize,
)
