-- ===== src/Prelude/Tabulate.antt =====
-- Arrays filled by index: `tabulate a n f` lists `f a, …, f (a + n - 1)`.
use Prim.Native.Nat.{ℕ, zero, suc, ◌+◌, ◌*◌, ◌≤◌, ◌<◌}
use mathlib.Core.Path.{◌≡◌, refl, sym, ap, ap₂, ◌∙◌}
use mathlib.Core.List.{List, [], ◌∷◌, ◌++◌, append_assoc}
use native.Mathlib.Omega.{arith}
use native.Mathlib.Nat.{add-zero}
use moonclip.Prelude.Lists.{length, get_or, take, drop, length-append}

module _ {ℓ} {A : Type ℓ} where
  abbrev pub tabulate : ℕ → ℕ → (ℕ → A) → List A
  tabulate a zero f = []
  tabulate a (suc n) f = f a ∷ tabulate (suc a) n f

  abbrev pub concat : List (List A) → List A
  concat [] = []
  concat (xs ∷ xss) = xs ++ concat xss

  pub length-tabulate : (a n : ℕ) (f : ℕ → A) → length (tabulate a n f) ≡ n
  length-tabulate a zero f = refl
  length-tabulate a (suc n) f = ap suc (length-tabulate (suc a) n f)

  pub tabulate_ext :
      (a n : ℕ) (f g : ℕ → A)
      → ((i : ℕ) → a ≤ i → i < a + n → f i ≡ g i)
      → tabulate a n f ≡ tabulate a n g
  tabulate_ext a zero f g h = refl
  tabulate_ext a (suc n) f g h =
      ap₂ (λ x xs. x ∷ xs) (h a (omega arith) (omega arith))
        (tabulate_ext (suc a) n f g (λ i lo hi. h i (omega arith) (omega arith)))

  pub tabulate_shift :
      (a b n : ℕ) (f : ℕ → A) → tabulate (b + a) n f ≡ tabulate a n (λ i. f (b + i))
  tabulate_shift a b zero f = refl
  tabulate_shift a b (suc n) f =
      ap (λ t. f (b + a) ∷ t) (ap (λ k. tabulate k n f) (next a b) ∙ tabulate_shift (suc a) b n f)
    where
      next : (x y : ℕ) → suc (y + x) ≡ y + suc x
      next x y = omega arith

  pub tabulate-add :
      (a m n : ℕ) (f : ℕ → A) → tabulate a (m + n) f ≡ tabulate a m f ++ tabulate (a + m) n f
  tabulate-add a zero n f = ap₂ (λ k b. tabulate b k f) (omega arith) (omega arith)
  tabulate-add a (suc m) n f =
      ap (λ k. tabulate a k f) (next m n)
      ∙ ap (λ t. f a ∷ t)
          (tabulate-add (suc a) m n f ∙ ap (λ k. tabulate (suc a) m f ++ tabulate k n f) (move a m))
    where
      next : (x y : ℕ) → suc x + y ≡ suc (x + y)
      next x y = omega arith

      move : (x y : ℕ) → suc x + y ≡ x + suc y
      move x y = omega arith

  -- Reading an array by index gives the slice back.
  pub tabulate-get_or :
      (a n : ℕ) (xs : List A) (d : A)
      → a + n ≤ length xs
      → tabulate a n (λ i. get_or xs i d) ≡ take n (drop a xs)
  tabulate-get_or a zero xs d h = refl
  tabulate-get_or a (suc n) xs d h =
      ap (λ t. get_or xs a d ∷ t) (tabulate-get_or (suc a) n xs d (omega arith))
      ∙ sym (take_step a n xs d (omega arith))
    where
      take_step :
          (b m : ℕ) (ys : List A) (e : A)
          → b < length ys
          → take (suc m) (drop b ys) ≡ get_or ys b e ∷ take m (drop (suc b) ys)
      take_step b m [] e q = absurd (omega arith)
      take_step zero m (y ∷ ys) e q = refl
      take_step (suc b) m (y ∷ ys) e q = take_step b m ys e (omega arith)

  pub get_or-append_left :
      (xs ys : List A) (i : ℕ) (d : A) → i < length xs → get_or (xs ++ ys) i d ≡ get_or xs i d
  get_or-append_left [] ys i d h = absurd (omega arith)
  get_or-append_left (x ∷ xs) ys zero d h = refl
  get_or-append_left (x ∷ xs) ys (suc i) d h = get_or-append_left xs ys i d (omega arith)

  pub get_or-append_right :
      (xs ys : List A) (i : ℕ) (d : A) → get_or (xs ++ ys) (length xs + i) d ≡ get_or ys i d
  get_or-append_right [] ys i d = ap (λ k. get_or ys k d) (omega arith)
  get_or-append_right (x ∷ xs) ys i d =
      ap (λ k. get_or (x ∷ (xs ++ ys)) k d) (next (length xs) i) ∙ get_or-append_right xs ys i d
    where
      next : (x y : ℕ) → suc x + y ≡ suc (x + y)
      next x y = omega arith

  pub get_or-tabulate :
      (a n i : ℕ) (f : ℕ → A) (d : A) → i < n → get_or (tabulate a n f) i d ≡ f (a + i)
  get_or-tabulate a zero i f d h = absurd (omega arith)
  get_or-tabulate a (suc n) zero f d h = ap f (omega arith)
  get_or-tabulate a (suc n) (suc i) f d h =
      get_or-tabulate (suc a) n i f d (omega arith) ∙ ap f (omega arith)

-- Arrays of rows of one width.
module _ {ℓ} {A : Type ℓ} where
  abbrev pub rows : ℕ → ℕ → ℕ → (ℕ → ℕ → A) → List A
  rows a k c f = concat (tabulate a k (λ p. tabulate 0 c (f p)))

  pub length-rows : (a k c : ℕ) (f : ℕ → ℕ → A) → length (rows a k c f) ≡ k * c
  length-rows a zero c f = omega arith
  length-rows a (suc k) c f = omega (
    arith,
    length-append (tabulate 0 c (f a)) (rows (suc a) k c f),
    length-tabulate 0 c (f a),
    length-rows (suc a) k c f,
  )

  pub rows-add :
      (a m n c : ℕ) (f : ℕ → ℕ → A) → rows a (m + n) c f ≡ rows a m c f ++ rows (a + m) n c f
  rows-add a zero n c f = ap₂ (λ k b. rows b k c f) (omega arith) (omega arith)
  rows-add a (suc m) n c f =
      ap (λ k. rows a k c f) (next m n)
      ∙ ap (λ t. tabulate 0 c (f a) ++ t)
          (rows-add (suc a) m n c f ∙ ap (λ k. rows (suc a) m c f ++ rows k n c f) (move a m))
      ∙ sym (append_assoc (tabulate 0 c (f a)) (rows (suc a) m c f) (rows (a + suc m) n c f))
    where
      next : (x y : ℕ) → suc x + y ≡ suc (x + y)
      next x y = omega arith

      move : (x y : ℕ) → suc x + y ≡ x + suc y
      move x y = omega arith

  pub rows_ext :
      (a k c : ℕ) (f g : ℕ → ℕ → A)
      → ((p i : ℕ) → a ≤ p → p < a + k → i < c → f p i ≡ g p i)
      → rows a k c f ≡ rows a k c g
  rows_ext a k c f g h = ap concat (
      tabulate_ext a k (λ p. tabulate 0 c (f p)) (λ p. tabulate 0 c (g p))
        λ p lo hi. tabulate_ext 0 c (f p) (g p) (λ i _ top. h p i lo hi (omega arith)))

  pub rows_shift : (b k c : ℕ) (f : ℕ → ℕ → A) → rows 0 k c (λ p. f (b + p)) ≡ rows b k c f
  rows_shift b k c f = ap concat (
      sym (tabulate_shift 0 b k (λ p. tabulate 0 c (f p)))
      ∙ ap (λ a. tabulate a k (λ p. tabulate 0 c (f p))) (add-zero b))

  -- Entry `i` of row `p` stands at `p * c + i`.
  pub get_or-rows :
      (a k c p i : ℕ) (f : ℕ → ℕ → A) (rest : List A) (d : A)
      → p < k
      → i < c
      → get_or (rows a k c f ++ rest) (p * c + i) d ≡ f (a + p) i
  get_or-rows a zero c p i f rest d hp hi = absurd (omega arith)
  get_or-rows a (suc k) c zero i f rest d hp hi =
      ap₂ (λ l j. get_or l j d) (append_assoc row (rows (suc a) k c f) rest) (omega arith)
      ∙ get_or-append_left row (rows (suc a) k c f ++ rest) i d
          (omega (arith, length-tabulate 0 c (f a)))
      ∙ get_or-tabulate 0 c i (f a) d hi
      ∙ ap₂ f (omega arith) (omega arith)
    where
      row : List A
      row = tabulate 0 c (f a)
  get_or-rows a (suc k) c (suc p) i f rest d hp hi =
      ap₂ (λ l j. get_or l j d) (append_assoc row (rows (suc a) k c f) rest)
        (omega (arith, length-tabulate 0 c (f a)))
      ∙ get_or-append_right row (rows (suc a) k c f ++ rest) (p * c + i) d
      ∙ get_or-rows (suc a) k c p i f rest d (omega arith) hi
      ∙ ap (λ q. f q i) (omega arith)
    where
      row : List A
      row = tabulate 0 c (f a)

  -- Rows that read an array in order give its front back.
  pub rows-get_or :
      (a k c : ℕ) (xs : List A) (d : A)
      → (a + k) * c ≤ length xs
      → rows a k c (λ p i. get_or xs (p * c + i) d) ≡ take (k * c) (drop (a * c) xs)
  rows-get_or a k c xs d h = rows_flat a k ∙ tabulate-get_or (a * c) (k * c) xs d (omega arith)
    where
      none : 0 ≡ 0 * c
      none = omega arith

      join : (m : ℕ) → c + m * c ≡ suc m * c
      join m = omega arith

      next : (x : ℕ) → suc x * c ≡ x * c + c
      next x = omega arith

      rows_flat :
          (b m : ℕ)
          → rows b m c (λ p i. get_or xs (p * c + i) d)
            ≡ tabulate (b * c) (m * c) (λ j. get_or xs j d)
      rows_flat b zero = ap (λ n. tabulate (b * c) n (λ j. get_or xs j d)) none
      rows_flat b (suc m) =
          ap₂ (λ s t. s ++ t)
            (sym (tabulate_shift 0 (b * c) c (λ j. get_or xs j d))
              ∙ ap (λ s. tabulate s c (λ j. get_or xs j d)) (add-zero (b * c)))
            (rows_flat (suc b) m ∙ ap (λ s. tabulate s (m * c) (λ j. get_or xs j d)) (next b))
          ∙ sym (tabulate-add (b * c) c (m * c) (λ j. get_or xs j d))
          ∙ ap (λ n. tabulate (b * c) n (λ j. get_or xs j d)) (join m)
