-- ===== src/GoldenTest/Agreement.antt =====
-- compare_golden of src/Launcher/main.cpp beside main of tests/screenshot_test.cpp.
use serena_de.CString.{CString}
use mathlib.Core.Path.{ap₂}
use serena_de.PngCompare.Loop.{compare_pngs-sizes}
use serena_de.PngCompare.Counting.{differs, compare_pngs-count}
use serena_de.PngCompare.{same_size, Bitmap, PngCompareResult, compare_pngs}
use serena_de.GoldenTest.{
  Gfx, ErrorOr, ok, err, load_png_bitmap, compare_golden, screenshot_test, golden_verdict,
  test_verdict, within_a_thousandth, parse_options, defaults, test_loaded, golden_loaded, run_test,
}
use serena_de.Prelude.{
  count_if, pixels, ℕ, ◌*◌, ◌≤◌, ◌<◌, ◌≡◌, refl, ◌↔◌, Bool, true, false, List, some, arith,
  if◌then◌else◌,
}
use serena_de.Prelude.Int.{ℤ}

verdicts_agree :
    (r : PngCompareResult)
    → 0 < r.actual_width * r.actual_height
    → test_verdict r ≡ (if golden_verdict r then 0 else 1)
unfolding test_verdict golden_verdict within_a_thousandth
verdicts_agree r h = ground arith

-- The size that a result reports is that of the actual image.
result_size :
    (actual golden : Bitmap) (tolerance : ℤ)
    → let r = compare_pngs actual golden tolerance in
      r.actual_width * r.actual_height ≡ actual.width * actual.height
result_size actual golden tolerance =
    let sizes = compare_pngs-sizes actual golden tolerance in
    ap₂ (λ (w h : ℕ). w * h) sizes.1 sizes.2

-- The two programs on what the two loads gave.
both_loaded :
    (tolerance : ℤ) (a g : ErrorOr Bitmap)
    → ((bmp : Bitmap) → a ≡ ok bmp → 0 < bmp.width * bmp.height)
    → test_loaded tolerance a g ≡ (if golden_loaded tolerance a g then 0 else 1)
unfolding test_loaded golden_loaded
both_loaded tolerance (err e) g h = refl
both_loaded tolerance (ok a) (err e) h = refl
both_loaded tolerance (ok a) (ok g) h =
    verdicts_agree (compare_pngs a g tolerance) (rw (result_size a g tolerance) (h a refl))

-- Every image that loads from the actual path has a pixel.
abbrev pub HasPixels : Gfx → CString → Type 0
HasPixels gfx path = (bmp : Bitmap) → load_png_bitmap gfx path ≡ ok bmp → 0 < bmp.width * bmp.height

run_test-compare_golden :
    (gfx : Gfx) (actual golden : CString) (tolerance : ℤ)
    → HasPixels gfx actual
    → run_test gfx actual golden tolerance
      ≡ (if compare_golden gfx actual golden tolerance then 0 else 1)
unfolding run_test compare_golden
run_test-compare_golden gfx actual golden tolerance h =
    both_loaded tolerance (load_png_bitmap gfx actual) (load_png_bitmap gfx golden)
      (λ bmp e. h bmp e)

-- Given both paths, screenshot_test exits with 0 exactly where the launcher accepts the screenshot
-- at the same tolerance, and with 1 elsewhere, as long as the screenshot, if it loads, has a pixel.
pub screenshot_test-compare_golden :
    (gfx : Gfx) (argv : List CString) (actual golden : CString) (tolerance : ℤ)
    → parse_options argv defaults
      ≡ some
          (record { actual_path = some actual; golden_path = some golden; tolerance = tolerance })
    → HasPixels gfx actual
    → screenshot_test gfx argv ≡ (if compare_golden gfx actual golden tolerance then 0 else 1)
unfolding screenshot_test
screenshot_test-compare_golden gfx argv actual golden tolerance e h =
    rw (e, screenshot_test) (run_test-compare_golden gfx actual golden tolerance h)

golden_verdict_iff :
    (r : PngCompareResult) (same : Bool) (total differing : ℕ)
    → r.sizes_match ≡ same
    → r.actual_width * r.actual_height ≡ total
    → (same ≡ true → r.differing_pixels ≡ differing)
    → (golden_verdict r ≡ true) ↔ ((same ≡ true) × (0 < total) × (differing * 1000 ≤ total))
unfolding golden_verdict within_a_thousandth
golden_verdict_iff r true total differing es et ed = rw es (verdict_iff (ed refl))
  where
    verdict_iff :
        r.differing_pixels ≡ differing
        → (within_a_thousandth r.differing_pixels (r.actual_width * r.actual_height) ≡ true)
          ↔ (◌≡◌ {A = Bool} true true × (0 < total) × (differing * 1000 ≤ total))
    verdict_iff e = rw (e, et) (ground arith)
golden_verdict_iff r false total differing es et ed = ground arith

-- When both images load, the launcher accepts the screenshot exactly when they have one size and a
-- pixel, and at most one pixel in a thousand has a channel that differs by more than the tolerance.
pub compare_golden_iff :
    (gfx : Gfx) (screenshot golden : CString) (tolerance : ℤ) (a g : Bitmap)
    → load_png_bitmap gfx screenshot ≡ ok a
    → load_png_bitmap gfx golden ≡ ok g
    → (compare_golden gfx screenshot golden tolerance ≡ true) ↔ (
        (same_size a g ≡ true)
        × (0 < a.width * a.height)
        × (count_if (differs a g tolerance) (pixels a.width a.height) * 1000 ≤ a.width * a.height))
unfolding compare_golden
compare_golden_iff gfx screenshot golden tolerance a g ea eg =
    rw (ea, eg, compare_golden)
      (golden_verdict_iff (compare_pngs a g tolerance) (same_size a g) _ _
        (compare_pngs-sizes a g tolerance).0 (result_size a g tolerance)
        (compare_pngs-count a g tolerance))
