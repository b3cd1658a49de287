-- ===== src/Prelude/Ranges.antt =====
-- The values that a counted `for` loop walks, and the cells of a grid in raster order.
use Prim.Native.Nat.{ℕ, zero, suc, ◌+◌, ◌*◌, ◌≤◌, ◌<◌}
use mathlib.Core.Path.{◌≡◌, refl, ap, subst, ◌∙◌}
use mathlib.Core.List.{List, [], ◌∷◌, ◌++◌, foldl, foldl-append}
use native.Mathlib.Decide.{ℕ_discrete}
use native.Mathlib.Omega.{arith}
use serena_de.Prelude.Lists.{
  length, length-append, All, All-append, All-append_left, All-append_right,
}

-- for (i = start; i < start + n; ++i)
abbrev pub range_from : ℕ → ℕ → List ℕ
range_from start zero = []
range_from start (suc n) = start ∷ range_from (start + 1) n

-- for (i = 0; i < n; ++i)
abbrev pub up_to : ℕ → List ℕ
up_to = range_from 0

pub length-range_from : (start n : ℕ) → length (range_from start n) ≡ n
length-range_from start zero = refl
length-range_from start (suc n) = ap suc (length-range_from (start + 1) n)

-- Every value of the range is reached, and no other.
pub All-range_from :
    (P : ℕ → Type 0) (start n i : ℕ) → All P (range_from start n) → start ≤ i → i < start + n → P i
All-range_from P start zero i h lo hi = absurd (omega arith)
All-range_from P start (suc n) i h lo hi = elim (ℕ_discrete start i) [
  | yes e ↦ rw (← e) h.0
  | no ne ↦ All-range_from P (start + 1) n i h.1 (omega arith) (omega arith)
]

pub range_from-All :
    (P : ℕ → Type 0) (start n : ℕ)
    → ((i : ℕ) → start ≤ i → i < start + n → P i)
    → All P (range_from start n)
range_from-All P start zero f = tt
range_from-All P start (suc n) f = (
  f start (omega arith) (omega arith),
  range_from-All P (start + 1) n (λ i lo hi. f i (omega arith) (omega arith)),
)

pub record Pixel : Type 0 where
  pub x : ℕ
  pub y : ℕ

abbrev pub row : ℕ → List ℕ → List Pixel
row y [] = []
row y (x ∷ xs) = record { x = x; y = y } ∷ row y xs

abbrev pub rows : List ℕ → List ℕ → List Pixel
rows xs [] = []
rows xs (y ∷ ys) = row y xs ++ rows xs ys

-- The pixels of a w by h image, row by row.
abbrev pub pixels : ℕ → ℕ → List Pixel
pixels w h = rows (up_to w) (up_to h)

length-row : (y : ℕ) (xs : List ℕ) → length (row y xs) ≡ length xs
length-row y [] = refl
length-row y (x ∷ xs) = ap suc (length-row y xs)

length-rows : (xs ys : List ℕ) → length (rows xs ys) ≡ length ys * length xs
length-rows xs [] = omega arith
length-rows xs (y ∷ ys) =
    length-append (row y xs) (rows xs ys) ∙ omega (arith, length-row y xs, length-rows xs ys)

pub length-pixels : (w h : ℕ) → length (pixels w h) ≡ w * h
length-pixels w h =
    length-rows (up_to w) (up_to h) ∙ grind (arith, length-range_from 0 w, length-range_from 0 h)

module _ (P : Pixel → Type 0) where
  All-row : (y : ℕ) (xs : List ℕ) → All P (row y xs) → All (λ x. P (record { x = x; y = y })) xs
  All-row y [] h = tt
  All-row y (x ∷ xs) h = (h.0, All-row y xs h.1)

  row-All : (y : ℕ) (xs : List ℕ) → All (λ x. P (record { x = x; y = y })) xs → All P (row y xs)
  row-All y [] h = tt
  row-All y (x ∷ xs) h = (h.0, row-All y xs h.1)

  All-rows : (xs ys : List ℕ) → All P (rows xs ys) → All (λ y. All P (row y xs)) ys
  All-rows xs [] h = tt
  All-rows xs (y ∷ ys) h = (
    All-append_left P (row y xs) (rows xs ys) h,
    All-rows xs ys (All-append_right P (row y xs) (rows xs ys) h),
  )

  rows-All : (xs ys : List ℕ) → All (λ y. All P (row y xs)) ys → All P (rows xs ys)
  rows-All xs [] h = tt
  rows-All xs (y ∷ ys) h = All-append P (row y xs) (rows xs ys) h.0 (rows-All xs ys h.1)

  pub All-pixels :
      (w h : ℕ) → All P (pixels w h) → (x y : ℕ) → x < w → y < h → P (record { x = x; y = y })
  All-pixels w h all x y hx hy =
      let whole =
        All-range_from (λ k. All P (row k (up_to w))) 0 h y (All-rows (up_to w) (up_to h) all)
          (omega arith) (omega arith) in
      All-range_from (λ k. P (record { x = k; y = y })) 0 w x (All-row y (up_to w) whole)
        (omega arith) (omega arith)

  pub pixels-All :
      (w h : ℕ) → ((x y : ℕ) → x < w → y < h → P (record { x = x; y = y })) → All P (pixels w h)
  pixels-All w h f = rows-All (up_to w) (up_to h) (
      range_from-All (λ y. All P (row y (up_to w))) 0 h
        λ y _ hy. row-All y (up_to w) (
          range_from-All (λ x. P (record { x = x; y = y })) 0 w
            λ x _ hx. f x y (omega arith) (omega arith)))

-- Nested loops over rows and columns are one loop over the pixels.
module _ {S : Type 0} (body : S → Pixel → S) where
  abbrev pub scan_row : List ℕ → S → ℕ → S
  scan_row xs s y = foldl (λ t x. body t (record { x = x; y = y })) s xs

  -- for (y = 0; y < h; ++y) for (x = 0; x < w; ++x) s = body s x y
  pub scan : ℕ → ℕ → S → S
  scan w h s = foldl (scan_row (up_to w)) s (up_to h)

  scan_row-foldl : (y : ℕ) (xs : List ℕ) (s : S) → scan_row xs s y ≡ foldl body s (row y xs)
  scan_row-foldl y [] s = refl
  scan_row-foldl y (x ∷ xs) s = scan_row-foldl y xs (body s (record { x = x; y = y }))

  scan_rows-foldl : (xs ys : List ℕ) (s : S) → foldl (scan_row xs) s ys ≡ foldl body s (rows xs ys)
  scan_rows-foldl xs [] s = refl
  scan_rows-foldl xs (y ∷ ys) s =
      rw (foldl-append body s (row y xs) (rows xs ys), ← scan_row-foldl y xs s)
        (scan_rows-foldl xs ys (scan_row xs s y))

  pub scan-foldl : (w h : ℕ) (s : S) → scan w h s ≡ foldl body s (pixels w h)
  unfolding scan
  scan-foldl w h s = scan_rows-foldl (up_to w) (up_to h) s

-- A counted loop that sets one observed place in some turn and never unsets it, and one that leaves
-- it alone.
module _ {M V : Type 0} (step : M → ℕ → M) (at : M → V) where
  pub loop_keeps :
      (v : V)
      → ((m : M) (i : ℕ) → at m ≡ v → at (step m i) ≡ v)
      → (is : List ℕ) (m : M) → at m ≡ v
      → at (foldl step m is) ≡ v
  loop_keeps v keep [] m h = h
  loop_keeps v keep (i ∷ is) m h = loop_keeps v keep is (step m i) (keep m i h)

  pub loop_sets :
      (v : V)
      → ((m : M) (i : ℕ) → at m ≡ v → at (step m i) ≡ v)
      → (n start j : ℕ) → j < n
      → ((m : M) → at (step m (start + j)) ≡ v)
      → (m : M) → at (foldl step m (range_from start n)) ≡ v
  loop_sets v keep zero start j h set m = absurd (omega arith)
  loop_sets v keep (suc n) start zero h set m =
      loop_keeps v keep (range_from (start + 1) n) (step m start)
        (subst (λ i. at (step m i) ≡ v) (omega arith) (set m))
  loop_sets v keep (suc n) start (suc j) h set m =
      loop_sets v keep n (start + 1) j (omega arith)
        (λ m'. subst (λ i. at (step m' i) ≡ v) (omega arith) (set m')) (step m start)

  pub loop_spares :
      (n start : ℕ)
      → ((m : M) (i : ℕ) → start ≤ i → i < start + n → at (step m i) ≡ at m)
      → (m : M) → at (foldl step m (range_from start n)) ≡ at m
  loop_spares zero start spare m = refl
  loop_spares (suc n) start spare m =
      loop_spares n (start + 1) (λ m' i lo hi. spare m' i (omega arith) (omega arith))
        (step m start)
      ∙ spare m start (omega arith) (omega arith)
