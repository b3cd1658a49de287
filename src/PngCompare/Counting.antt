-- ===== src/PngCompare/Counting.antt =====
-- `differing_pixels` of compare_pngs, src/Launcher/PngCompare.h.
use mathlib.Core.List.{◌∷◌}
use serena_de.Prelude.{
  Bool-cases, inl, inr, sym, ◌≤◌, count_if_mono, count_if-congr, ℕ, ◌+◌, ◌≡◌, ◌∙◌, Bool, true, ◌||◌,
  List, [], foldl, if◌then◌else◌, arith, count_if, Pixel, pixels,
}
use serena_de.Prelude.Int.{◌≤ℤ◌, ℤ, pos, ltb_ℤ}
use serena_de.PngCompare.Loop.{compare_pngs-foldl}
use mathlib.Core.Path.{ap₂}
use serena_de.PngCompare.{
  Bitmap, PngCompareResult, abs_diff, channel, keep_larger, pixel_delta, grow_box, compare_pixel,
  same_size, compare_pngs,
}

abbrev over : ℤ → ℕ → Bool
over tolerance delta = ltb_ℤ tolerance (pos delta)

-- Whether some channel of the pixel differs by more than the tolerance.
abbrev pub differs : Bitmap → Bitmap → ℤ → Pixel → Bool
differs actual golden tolerance p = at 0 || at 1 || at 2 || at 3
  where
    at : ℕ → Bool
    at c = over tolerance (abs_diff (channel actual p c) (channel golden p c))

-- A disjunction of four tests, test by test.
any_of :
    {a b c d a' b' c' d' : Bool}
    → (a ≡ true → a' ≡ true)
    → (b ≡ true → b' ≡ true)
    → (c ≡ true → c' ≡ true)
    → (d ≡ true → d' ≡ true)
    → (a || b || c || d) ≡ true
    → (a' || b' || c' || d') ≡ true
any_of f g h k e = ground arith

over-keep_larger : (t : ℤ) (a b : ℕ) → over t (keep_larger a b) ≡ (over t a || over t b)
unfolding keep_larger
over-keep_larger t a b = ground arith

over-four :
    (t : ℤ) (a b c d : ℕ)
    → over t (keep_larger (keep_larger (keep_larger (keep_larger 0 a) b) c) d)
      ≡ (over t a || over t b || over t c || over t d)
over-four t a b c d = ground (
  arith,
  over-keep_larger t (keep_larger (keep_larger (keep_larger 0 a) b) c) d,
  over-keep_larger t (keep_larger (keep_larger 0 a) b) c,
  over-keep_larger t (keep_larger 0 a) b,
  over-keep_larger t 0 a,
)

module _ (actual golden : Bitmap) (tolerance : ℤ) where
  -- The four channels decide whether the largest of their differences is over.
  pub pixel_delta-differs :
      (p : Pixel)
      → ltb_ℤ tolerance (pos (pixel_delta actual golden p)) ≡ differs actual golden tolerance p
  unfolding pixel_delta
  pixel_delta-differs p = over-four tolerance _ _ _ _

  pub compare_pixel-count :
      (r : PngCompareResult) (p : Pixel)
      → (compare_pixel actual golden tolerance r p).differing_pixels
        ≡ r.differing_pixels + (if differs actual golden tolerance p then 1 else 0)
  unfolding compare_pixel grow_box
  compare_pixel-count r p = rw (← pixel_delta-differs p) (ground arith)

  foldl-count :
      (ps : List Pixel) (r : PngCompareResult)
      → (foldl (compare_pixel actual golden tolerance) r ps).differing_pixels
        ≡ r.differing_pixels + count_if (differs actual golden tolerance) ps
  foldl-count [] r = omega arith
  foldl-count (p ∷ ps) r =
      foldl-count ps (compare_pixel actual golden tolerance r p)
      ∙ omega (arith, compare_pixel-count r p)

  -- When the sizes match, the count is the number of pixels of the image with a channel that
  -- differs by more than the tolerance.
  pub compare_pngs-count :
      same_size actual golden ≡ true
      → (compare_pngs actual golden tolerance).differing_pixels
        ≡ count_if (differs actual golden tolerance) (pixels actual.width actual.height)
  compare_pngs-count e =
      rw (compare_pngs-foldl actual golden tolerance e) (rw foldl-count (omega arith))

abs_diff_comm : (a b : ℕ) → abs_diff a b ≡ abs_diff b a
abs_diff_comm a b = ground arith

same_size_comm : (a g : Bitmap) → same_size a g ≡ same_size g a
same_size_comm a g = ground arith

-- The number of differing pixels does not depend on which image is called the golden one.
pub compare_pngs-count_comm :
    (actual golden : Bitmap) (tolerance : ℤ)
    → (compare_pngs actual golden tolerance).differing_pixels
      ≡ (compare_pngs golden actual tolerance).differing_pixels
compare_pngs-count_comm a g t = elim (Bool-cases (same_size a g)) [
  | inl e ↦
      compare_pngs-count a g t e
      ∙ count_if-congr (differs a g t) (differs g a t) same (pixels a.width a.height)
      ∙ ap₂ (λ w h. count_if (differs g a t) (pixels w h)) (width_eq e) (height_eq e)
      ∙ sym (compare_pngs-count g a t (sym (same_size_comm a g) ∙ e))
  | inr e ↦ unfold compare_pngs in rw (e, sym (same_size_comm a g) ∙ e)
]
  where
    same : (p : Pixel) → differs a g t p ≡ differs g a t p
    same p = rw (
      abs_diff_comm (channel a p 0) (channel g p 0),
      abs_diff_comm (channel a p 1) (channel g p 1),
      abs_diff_comm (channel a p 2) (channel g p 2),
      abs_diff_comm (channel a p 3) (channel g p 3),
    )

    width_eq : same_size a g ≡ true → a.width ≡ g.width
    width_eq e = ground arith

    height_eq : same_size a g ≡ true → a.height ≡ g.height
    height_eq e = ground arith

over_mono : (s t : ℤ) (d : ℕ) → s ≤ℤ t → over t d ≡ true → over s d ≡ true
over_mono s t d h e = ground arith

differs_mono :
    (a g : Bitmap) (s t : ℤ)
    → s ≤ℤ t
    → (p : Pixel) → differs a g t p ≡ true
    → differs a g s p ≡ true
differs_mono a g s t h p e =
    let d = λ (c : ℕ). abs_diff (channel a p c) (channel g p c) in
    any_of (over_mono s t (d 0) h) (over_mono s t (d 1) h) (over_mono s t (d 2) h)
      (over_mono s t (d 3) h) e

-- A larger tolerance never counts more pixels.
pub compare_pngs-count_mono :
    (actual golden : Bitmap) (strict lax : ℤ)
    → strict ≤ℤ lax
    → (compare_pngs actual golden lax).differing_pixels
      ≤ (compare_pngs actual golden strict).differing_pixels
compare_pngs-count_mono a g strict lax h = elim (Bool-cases (same_size a g)) [
  | inl e ↦
      rw (compare_pngs-count a g strict e, compare_pngs-count a g lax e)
        (count_if_mono (differs a g lax) (differs a g strict) (differs_mono a g strict lax h)
          (pixels a.width a.height))
  | inr e ↦ unfold compare_pngs in rw e (omega arith)
]
