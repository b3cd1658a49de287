-- ===== src/GoldenTest.antt =====
-- The two programs that compare a screenshot with a golden image: compare_golden of
-- src/Launcher/main.cpp and main of tests/screenshot_test.cpp. Both load through load_png_bitmap of
-- src/Launcher/PngCompare.h, whose file and decoder calls are the parameter `Gfx`. What is printed
-- is left out; an exit status and a Boolean result are what remains.
pub mod Agreement
mod Tests
use serena_de.CString.{CString, text, equal, atoi}
use serena_de.PngCompare.{Bitmap, PngCompareResult, compare_pngs}
use serena_de.Prelude.{
  ℕ, suc, ◌+◌, ◌*◌, ◌/◌, Bool, true, false, not, ◌&&◌, List, [], ◌∷◌, Option, none, some, ltb, leb,
  if◌then◌else◌,
}
use serena_de.Prelude.Int.{ℤ, pos}

-- ErrorOr: the message of an error is its only content.
pub data ErrorOr (A : Type 0) : Type 0 where
  ok : A → ErrorOr A
  err : CString → ErrorOr A

infixl 5 ◌>>=◌
abbrev pub ◌>>=◌ : {A B : Type 0} → ErrorOr A → (A → ErrorOr B) → ErrorOr B
ok a >>= f = f a
err e >>= f = err e

-- LibCore's file access and LibGfx's image decoder.
pub record Gfx : Type 1 where
  pub File : Type 0
  pub Data : Type 0
  pub Decoder : Type 0
  pub open_file : CString → ErrorOr File
  pub read_until_eof : File → ErrorOr Data
  pub try_create_for_raw_bytes : Data → ErrorOr Decoder
  -- The image of a frame; a frame may have none.
  pub frame : Decoder → ℕ → ErrorOr (Option Bitmap)

or_error : Option Bitmap → ErrorOr Bitmap
or_error none = err (text "PNG frame has no image data")
or_error (some bitmap) = ok bitmap

unfoldable pub load_png_bitmap : Gfx → CString → ErrorOr Bitmap
unfolding or_error
load_png_bitmap gfx path = do
  file ← gfx.open_file path
  contents ← gfx.read_until_eof file
  decoder ← gfx.try_create_for_raw_bytes contents
  image ← gfx.frame decoder 0
  or_error image

-- `fraction <= 0.001`, where the fraction of an image with no pixel is not a number.
unfoldable pub within_a_thousandth : ℕ → ℕ → Bool
within_a_thousandth differing total = ltb 0 total && leb (differing * 1000) total

golden_verdict : PngCompareResult → Bool
golden_verdict result =
    if not result.sizes_match
    then false
    else within_a_thousandth result.differing_pixels (result.actual_width * result.actual_height)

-- What compare_golden makes of the two loads.
golden_loaded : ℤ → ErrorOr Bitmap → ErrorOr Bitmap → Bool
unfolding golden_verdict within_a_thousandth
golden_loaded tolerance (ok actual) (ok golden) =
    golden_verdict (compare_pngs actual golden tolerance)
golden_loaded tolerance (ok actual) (err _) = false
golden_loaded tolerance (err _) _ = false

unfoldable pub compare_golden : Gfx → CString → CString → ℤ → Bool
unfolding golden_loaded
compare_golden gfx screenshot_path golden_path tolerance =
    golden_loaded tolerance (load_png_bitmap gfx screenshot_path) (load_png_bitmap gfx golden_path)

-- The variables that the option loop of screenshot_test sets.
pub record Arguments : Type 0 where
  pub actual_path : Option CString
  pub golden_path : Option CString
  pub tolerance : ℤ

-- The loop over argv[1..]; `none` is the usage message and exit status 2. An option whose value is
-- missing is no option.
unfoldable pub parse_options : List CString → Arguments → Option Arguments
parse_options [] a = some a
parse_options (arg ∷ []) a = none
parse_options (arg ∷ value ∷ rest) a =
    let with_actual = parse_options rest (record a { actual_path = some value }) in
    let with_golden = parse_options rest (record a { golden_path = some value }) in
    let with_tolerance = parse_options rest (record a { tolerance = atoi value }) in
    if equal arg (text "--actual")
    then with_actual
    else if equal arg (text "--golden")
    then with_golden
    else if equal arg (text "--tolerance")
    then with_tolerance
    else none

-- The exit status for the result of a comparison.
test_verdict : PngCompareResult → ℕ
test_verdict result =
    if not result.sizes_match
    then 1
    else if ltb (result.actual_width * result.actual_height / 1000) result.differing_pixels
    then 1
    else 0

-- What screenshot_test makes of the two loads.
test_loaded : ℤ → ErrorOr Bitmap → ErrorOr Bitmap → ℕ
unfolding test_verdict
test_loaded tolerance (ok actual) (ok golden) = test_verdict (compare_pngs actual golden tolerance)
test_loaded tolerance (ok actual) (err _) = 1
test_loaded tolerance (err _) _ = 1

run_test : Gfx → CString → CString → ℤ → ℕ
unfolding test_loaded
run_test gfx actual_path golden_path tolerance =
    test_loaded tolerance (load_png_bitmap gfx actual_path) (load_png_bitmap gfx golden_path)

with_paths : Gfx → Option CString → Option CString → ℤ → ℕ
unfolding run_test
with_paths gfx (some actual_path) (some golden_path) tolerance =
    run_test gfx actual_path golden_path tolerance
with_paths gfx _ _ tolerance = 2

-- The values before any option is read.
abbrev pub defaults : Arguments
defaults = record { actual_path = none; golden_path = none; tolerance = pos 16 }

-- main of screenshot_test: its exit status for argv[1..].
unfoldable pub screenshot_test : Gfx → List CString → ℕ
unfolding with_paths parse_options
screenshot_test gfx argv = elim (parse_options argv defaults) [
  | none ↦ 2
  | some a ↦ with_paths gfx a.actual_path a.golden_path a.tolerance
]
