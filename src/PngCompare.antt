-- ===== src/PngCompare.antt =====
-- src/Launcher/PngCompare.h: the pixel-wise comparison of two decoded images, and the fraction of
-- pixels off the dominant colour. A decoded image is LibGfx's: the code reads its size and its
-- bytes, four to a pixel, through the three operations of `Bitmap`.
pub mod Loop
pub mod Counting
pub mod Deltas
pub mod BoundingBox
pub mod Background
mod Tests
use serena_de.Prelude.{
  ℕ, ◌+◌, ◌-◌, ◌*◌, ◌≡◌, Bool, true, false, ◌&&◌, ◌||◌, not, foldl, ltb, leb, ◌==◌, if◌then◌else◌,
  Pixel, scan, up_to,
}
use serena_de.Prelude.Int.{ℤ, pos, negsuc, ltb_ℤ}

-- `Gfx::Bitmap`: width(), height() and the byte at an offset of scanline_u8(row).
pub record Bitmap : Type 0 where
  pub width : ℕ
  pub height : ℕ
  pub scanline_u8 : ℕ → ℕ → ℕ

pub record PngCompareResult : Type 0 where
  pub sizes_match : Bool
  pub actual_width : ℕ
  pub actual_height : ℕ
  pub golden_width : ℕ
  pub golden_height : ℕ
  pub differing_pixels : ℕ
  pub max_channel_delta : ℕ
  pub diff_min_x : ℤ
  pub diff_max_x : ℤ
  pub diff_min_y : ℤ
  pub diff_max_y : ℤ

-- std::abs of a difference of two bytes.
abbrev pub abs_diff : ℕ → ℕ → ℕ
abs_diff a b = if ltb a b then b - a else a - b

abbrev pub channel : Bitmap → Pixel → ℕ → ℕ
channel bmp p c = bmp.scanline_u8 p.y (p.x * 4 + c)

-- `if (delta > pixel_delta) pixel_delta = delta;`
unfoldable pub keep_larger : ℕ → ℕ → ℕ
keep_larger so_far delta = if ltb so_far delta then delta else so_far

-- The largest difference over the four channels of a pixel.
unfoldable pub pixel_delta : Bitmap → Bitmap → Pixel → ℕ
pixel_delta actual golden p =
    foldl (λ so_far c. keep_larger so_far (abs_diff (channel actual p c) (channel golden p c))) 0
      (up_to 4)

-- The box grows to hold one more pixel; `diff_max_x` below 0 means that it holds none yet.
unfoldable pub grow_box : PngCompareResult → Pixel → PngCompareResult
grow_box r p =
    if ltb_ℤ r.diff_max_x (pos 0)
    then record r {
      diff_min_x = pos p.x;
      diff_max_x = pos p.x;
      diff_min_y = pos p.y;
      diff_max_y = pos p.y;
    }
    else record r {
      diff_min_x = if ltb_ℤ (pos p.x) r.diff_min_x then pos p.x else r.diff_min_x;
      diff_max_x = if ltb_ℤ r.diff_max_x (pos p.x) then pos p.x else r.diff_max_x;
      diff_min_y = if ltb_ℤ (pos p.y) r.diff_min_y then pos p.y else r.diff_min_y;
      diff_max_y = if ltb_ℤ r.diff_max_y (pos p.y) then pos p.y else r.diff_max_y;
    }

-- The body of the two loops.
unfoldable pub compare_pixel : Bitmap → Bitmap → ℤ → PngCompareResult → Pixel → PngCompareResult
compare_pixel actual golden tolerance r p =
    let delta = pixel_delta actual golden p in
    let raised = record r { max_channel_delta = keep_larger r.max_channel_delta delta } in
    if ltb_ℤ tolerance (pos delta)
    then grow_box (record raised { differing_pixels = raised.differing_pixels + 1 }) p
    else raised

-- The result before any pixel is read.
abbrev pub initial_result : Bitmap → Bitmap → PngCompareResult
initial_result actual golden = record {
  sizes_match = false;
  actual_width = actual.width;
  actual_height = actual.height;
  golden_width = golden.width;
  golden_height = golden.height;
  differing_pixels = 0;
  max_channel_delta = 0;
  diff_min_x = pos 0;
  diff_max_x = negsuc 0;
  diff_min_y = pos 0;
  diff_max_y = negsuc 0;
}

abbrev pub same_size : Bitmap → Bitmap → Bool
same_size actual golden = actual.width == golden.width && actual.height == golden.height

unfoldable pub compare_pngs : Bitmap → Bitmap → ℤ → PngCompareResult
compare_pngs actual golden tolerance =
    let result = initial_result actual golden in
    if not (same_size actual golden)
    then result
    else scan (compare_pixel actual golden tolerance) actual.width actual.height
        (record result { sizes_match = true })

-- `budget total` is static_cast<size_t>(total * max_diff_fraction).
unfoldable pub pngs_match_within : Bitmap → Bitmap → ℤ → (ℕ → ℕ) → Bool
pngs_match_within actual golden tolerance budget =
    let result = compare_pngs actual golden tolerance in
    if not result.sizes_match
    then false
    else leb result.differing_pixels (budget (actual.width * actual.height))
