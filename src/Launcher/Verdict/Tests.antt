-- ===== src/Launcher/Verdict/Tests.antt =====
-- A launcher whose app shows its window at the third screenshot. A double is a whole number of
-- thousandths, above -1.
use serena_de.CString.{text}
use serena_de.GoldenTest.{Gfx, err}
use serena_de.Launcher.Verdict.{Shot, image, Doubles, Golden, take_screenshots, exit_status}
use serena_de.Launcher.Verdict.Window.{IsOrdered, Succeeds, exit_status-Succeeds}
use serena_de.PngCompare.{Bitmap}
use serena_de.Prelude.{
  [], false, ℕ, ◌+◌, ◌*◌, ◌/◌, ◌≤◌, ◌≡◌, refl, ap, ◌↔◌, not, none, arith, ltb, leb, ◌==◌,
  if◌then◌else◌,
}
use serena_de.Prelude.Int.{pos}

abbrev doubles : Doubles
doubles = record {
  Double = ℕ;
  zero_point = 1;
  minus_one = 0;
  quotient = λ f. f.numerator * 1000 / f.denominator + 1;
  at_least = λ a b. leb b a;
  below = ltb;
}

doubles-IsOrdered : IsOrdered doubles 101
doubles-IsOrdered = record {
  total = λ f h. swapped (f.numerator * 1000 / f.denominator + 1);
  nonneg = λ f h. above (f.numerator * 1000 / f.denominator);
  unset = refl;
}
  where
    swapped : (n : ℕ) → ltb n 101 ≡ not (leb 101 n)
    swapped n = ground arith

    above : (n : ℕ) → ltb (n + 1) 1 ≡ mathlib.Core.Bool.false
    above n = ground arith

-- Two pixels: from the third screenshot on, the right one is bright.
abbrev screen : ℕ → Bitmap
screen i = record {
  width = 2;
  height = 1;
  scanline_u8 = λ y o. if leb 2 i then (if o == 4 then 255 else 0) else 0;
}

abbrev gfx : Gfx
gfx = record {
  File = ℕ;
  Data = ℕ;
  Decoder = ℕ;
  open_file = λ path. err path;
  read_until_eof = λ f. err [];
  try_create_for_raw_bytes = λ d. err [];
  frame = λ d n. err [];
}

abbrev golden : Golden
golden = record {
  gfx = gfx;
  screenshot_path = text "out.png";
  golden_path = none;
  tolerance = pos 16;
}

abbrev area : Shot → ℕ
area (image bmp) = bmp.width * bmp.height
area _ = 2

exit_status-Succeeds_example :
    let shot = λ (i : ℕ). image (screen i) in
    let p = take_screenshots doubles 101 shot in
    ((exit_status doubles 101 golden p ≡ 0) ↔ Succeeds doubles 101 shot 9 0) × (p.requests ≤ 10)
exit_status-Succeeds_example =
    exit_status-Succeeds doubles 101 (λ i. image (screen i)) golden refl doubles-IsOrdered
      (λ i bmp e. let two = ap area e in omega (arith, two))
