-- ===== src/GoldenTest/Tests.antt =====
-- The two programs on files that hold images of two pixels.
use serena_de.CString.{CString, text, equal, atoi}
use serena_de.GoldenTest.Agreement.{HasPixels, screenshot_test-compare_golden, compare_golden_iff}
use serena_de.GoldenTest.{
  Gfx, ErrorOr, ok, err, load_png_bitmap, compare_golden, screenshot_test, parse_options,
}
use serena_de.PngCompare.Counting.{differs}
use serena_de.PngCompare.{Bitmap, same_size}
use serena_de.Prelude.{
  ℕ, ◌*◌, ◌<◌, ◌≤◌, ◌≡◌, refl, ap, ◌↔◌, true, List, [], ◌∷◌, some, arith, count_if, pixels, length,
  if◌then◌else◌,
}
use serena_de.Prelude.Int.{pos}

-- The file's path is its only content, and the image has a pixel for each byte of the path.
abbrev wide : CString → Bitmap
wide path = record { width = length path; height = 1; scanline_u8 = λ y o. 0 }

abbrev gfx : Gfx
gfx = record {
  File = CString;
  Data = CString;
  Decoder = CString;
  open_file = λ path. ok path;
  read_until_eof = λ f. ok f;
  try_create_for_raw_bytes = λ d. ok d;
  frame = λ d n. ok (some (wide d));
}

loads : (path : CString) → load_png_bitmap gfx path ≡ ok (wide path)
unfolding load_png_bitmap
loads path = refl

abbrev command_line : List CString
command_line =
    text "--actual" ∷ text "ab" ∷ text "--golden" ∷ text "cd" ∷ text "--tolerance" ∷ text "9" ∷ []

abbrev area : ErrorOr Bitmap → ℕ
area (ok bmp) = bmp.width * bmp.height
area (err _) = 0

ab-HasPixels : HasPixels gfx (text "ab")
unfolding load_png_bitmap
ab-HasPixels bmp e = let two = ap area e in omega (arith, two)

compare_golden_iff_example : (compare_golden gfx (text "ab") (text "cd") (pos 9) ≡ true) ↔ (
    (same_size (wide (text "ab")) (wide (text "cd")) ≡ true)
    × (0 < 2 * 1)
    × (count_if (differs (wide (text "ab")) (wide (text "cd")) (pos 9)) (pixels 2 1) * 1000
        ≤ 2 * 1))
compare_golden_iff_example =
    compare_golden_iff gfx (text "ab") (text "cd") (pos 9) (wide (text "ab")) (wide (text "cd"))
      (loads (text "ab")) (loads (text "cd"))

parsed :
    parse_options command_line serena_de.GoldenTest.defaults
    ≡ some (record {
      actual_path = some (text "ab");
      golden_path = some (text "cd");
      tolerance = pos 9;
    })
unfolding parse_options equal atoi
parsed = refl

screenshot_test-compare_golden_example :
    screenshot_test gfx command_line
    ≡ (if compare_golden gfx (text "ab") (text "cd") (pos 9) then 0 else 1)
screenshot_test-compare_golden_example =
    screenshot_test-compare_golden gfx command_line (text "ab") (text "cd") (pos 9) parsed
      ab-HasPixels
