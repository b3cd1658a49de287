-- ===== src/Launcher/Verdict.antt =====
-- The end of main of src/Launcher/main.cpp: the first screenshot, the polling for a window, and the
-- exit status. The i-th request for a screenshot is answered by `shot i`; killing the children and
-- the clean-up in between do not change the status, and what is printed is left out.
pub mod Window
mod Tests
use serena_de.CString.{CString}
use serena_de.GoldenTest.{Gfx, compare_golden}
use serena_de.Prelude.Int.{ℤ}
use serena_de.PngCompare.Background.{Fraction, non_background_fraction}
use serena_de.PngCompare.{Bitmap}
use serena_de.Prelude.{
  ℕ, zero, suc, ◌+◌, Bool, true, false, not, Option, none, some, ◌==◌, if◌then◌else◌,
}

-- What a request leaves at the screenshot's path.
pub data Shot : Type 0 where
  missing unreadable : Shot
  image : Bitmap → Shot

-- The comparisons of doubles that the code makes, and the quotient of two whole numbers.
pub record Doubles : Type 1 where
  pub Double : Type 0
  pub zero_point : Double
  pub minus_one : Double
  pub quotient : Fraction → Double
  -- `a >= b` and `a < b`
  pub at_least : Double → Double → Bool
  pub below : Double → Double → Bool

-- got_screenshot and window_fraction, and how many requests were made.
pub record Polled (D : Doubles) : Type 0 where
  pub got_screenshot : Bool
  pub window_fraction : D.Double
  pub requests : ℕ

abbrev pub fraction_of : (D : Doubles) → Bitmap → D.Double
fraction_of D bmp = D.quotient (non_background_fraction bmp 24)

module _ (D : Doubles) (expect_window_min : D.Double) (shot : ℕ → Shot) where
  abbrev polled : Bool → D.Double → ℕ → Polled D
  polled got fraction requests = record {
    got_screenshot = got;
    window_fraction = fraction;
    requests = requests;
  }

  -- The loop after request `i`, with one poll and `left` more remaining. At the last it ends whatever
  -- the image shows.
  unfoldable pub poll : ℕ → ℕ → D.Double → Polled D
  poll zero i fraction = elim (shot i) [
    | missing ↦ polled false fraction (i + 1)
    | unreadable ↦ polled true fraction (i + 1)
    | image bmp ↦ polled true (fraction_of D bmp) (i + 1)
  ]
  poll (suc left) i fraction = elim (shot i) [
    | missing ↦ polled false fraction (i + 1)
    | unreadable ↦ polled true fraction (i + 1)
    | image bmp ↦
        let rest = poll left (i + 1) (fraction_of D bmp) in
        if D.at_least (fraction_of D bmp) expect_window_min
        then polled true (fraction_of D bmp) (i + 1)
        else rest
  ]

  got : Shot → Bool
  got missing = false
  got _ = true

  -- Ten polls at most, and one request alone where no window is expected.
  unfoldable pub take_screenshots : Polled D
  unfolding got
  take_screenshots =
      if D.at_least expect_window_min D.zero_point
      then poll 9 0 D.minus_one
      else polled (got (shot 0)) D.minus_one 1

-- What the golden check needs.
pub record Golden : Type 1 where
  pub gfx : Gfx
  pub screenshot_path : CString
  pub golden_path : Option CString
  pub tolerance : ℤ

abbrev pub golden_status : Golden → ℕ
golden_status g = elim g.golden_path [
  | none ↦ 0
  | some path ↦ if compare_golden g.gfx g.screenshot_path path g.tolerance then 0 else 1
]

abbrev pub window_status : (D : Doubles) → D.Double → D.Double → ℕ
window_status D expect_window_min fraction =
    if D.below fraction D.zero_point then 1 else if D.below fraction expect_window_min then 1 else 0

-- The exit status of main for what the polling gave.
unfoldable pub exit_status : (D : Doubles) → D.Double → Golden → Polled D → ℕ
exit_status D expect_window_min g p =
    if not p.got_screenshot
    then 1
    else if D.at_least expect_window_min D.zero_point
    then window_status D expect_window_min p.window_fraction
    else golden_status g
