-- ===== src/PngCompare/Loop.antt =====
-- The loops of compare_pngs (src/Launcher/PngCompare.h) as one fold, and the sizes in its result.
use mathlib.Core.Bool.{false≢true}
use serena_de.Prelude.{
  arith, Bool-cases, inl, inr, sym, refl, ◌∙◌, false, List, [], ◌∷◌, ◌≡◌, true, foldl, Pixel,
  pixels, scan-foldl,
}
use serena_de.Prelude.Int.{ℤ}
use serena_de.PngCompare.{
  Bitmap, PngCompareResult, initial_result, grow_box, compare_pixel, same_size, compare_pngs,
}

module _ (actual golden : Bitmap) (tolerance : ℤ) (e : same_size actual golden ≡ true) where
  -- The result with which the loops begin.
  abbrev pub start : PngCompareResult
  start = record (initial_result actual golden) { sizes_match = true }

  pub compare_pngs-foldl :
      compare_pngs actual golden tolerance
      ≡ foldl (compare_pixel actual golden tolerance) start (pixels actual.width actual.height)
  unfolding compare_pngs
  compare_pngs-foldl =
      rw e (scan-foldl (compare_pixel actual golden tolerance) actual.width actual.height start)

-- The fields that the loops leave alone.
record SameSizes (r q : PngCompareResult) : Type 0 where
  sizes_match : q.sizes_match ≡ r.sizes_match
  actual_width : q.actual_width ≡ r.actual_width
  actual_height : q.actual_height ≡ r.actual_height
  golden_width : q.golden_width ≡ r.golden_width
  golden_height : q.golden_height ≡ r.golden_height

module _ (actual golden : Bitmap) (tolerance : ℤ) where
  compare_pixel-SameSizes :
      (r : PngCompareResult) (p : Pixel) → SameSizes r (compare_pixel actual golden tolerance r p)
  unfolding compare_pixel grow_box
  compare_pixel-SameSizes r p = ground arith

  foldl-SameSizes :
      (ps : List Pixel) (r : PngCompareResult)
      → SameSizes r (foldl (compare_pixel actual golden tolerance) r ps)
  foldl-SameSizes [] r = record {
    sizes_match = refl;
    actual_width = refl;
    actual_height = refl;
    golden_width = refl;
    golden_height = refl;
  }
  foldl-SameSizes (p ∷ ps) r =
      let first = compare_pixel-SameSizes r p in
      let later = foldl-SameSizes ps (compare_pixel actual golden tolerance r p) in
      record {
        sizes_match = later.sizes_match ∙ first.sizes_match;
        actual_width = later.actual_width ∙ first.actual_width;
        actual_height = later.actual_height ∙ first.actual_height;
        golden_width = later.golden_width ∙ first.golden_width;
        golden_height = later.golden_height ∙ first.golden_height;
      }

  -- The result holds the two sizes and says whether they are the same; if they are not, no pixel
  -- is counted.
  pub compare_pngs-sizes :
      let r = compare_pngs actual golden tolerance in
      (r.sizes_match ≡ same_size actual golden)
      × (r.actual_width ≡ actual.width)
      × (r.actual_height ≡ actual.height)
      × (r.golden_width ≡ golden.width)
      × (r.golden_height ≡ golden.height)
      × (same_size actual golden ≡ false → r.differing_pixels ≡ 0)
  compare_pngs-sizes = elim (Bool-cases (same_size actual golden)) [
    | inl e ↦
        let s =
          foldl-SameSizes (pixels actual.width actual.height) (start actual golden tolerance e) in
        rw (compare_pngs-foldl actual golden tolerance e) (
          s.sizes_match ∙ sym e,
          s.actual_width,
          s.actual_height,
          s.golden_width,
          s.golden_height,
          λ d. absurd (false≢true (sym d ∙ e)),
        )
    | inr e ↦ unfold compare_pngs in rw e (refl, refl, refl, refl, refl, λ d. refl)
  ]
