-- ===== src/PngCompare/Background.antt =====
-- non_background_fraction of src/Launcher/PngCompare.h. The quotient of two doubles at its end is
-- kept as the two whole numbers that are divided.
pub mod Histogram
pub mod Dominant
pub mod Uniform
use Prim.Native.Nat.{bit_or}
use serena_de.Prelude.{
  ℕ, ◌+◌, ◌*◌, ◌/◌, ◌^◌, List, foldl, ltb, ◌==◌, if◌then◌else◌, Pixel, scan, up_to,
}
use serena_de.PngCompare.{Bitmap, abs_diff, channel}

-- The fraction `numerator / denominator`.
pub record Fraction : Type 0 where
  pub numerator : ℕ
  pub denominator : ℕ

-- The bucket of a colour: the top four bits of each channel.
unfoldable pub bucket : ℕ → ℕ → ℕ → ℕ
bucket c0 c1 c2 = bit_or (bit_or (c0 / 2 ^ 4 * 2 ^ 8) (c1 / 2 ^ 4 * 2 ^ 4)) (c2 / 2 ^ 4)

abbrev pub Counts : Type 0
Counts = ℕ → ℕ

unfoldable pub count_pixel : Bitmap → Counts → Pixel → Counts
count_pixel bmp counts p =
    let idx = bucket (channel bmp p 0) (channel bmp p 1) (channel bmp p 2) in
    λ i. if i == idx then counts i + 1 else counts i

unfoldable pub histogram : Bitmap → Counts
histogram bmp = scan (count_pixel bmp) bmp.width bmp.height (λ i. 0)

-- The bucket index that the three inner loop variables make.
unfoldable pub bucket_index : ℕ → ℕ → ℕ → ℕ
bucket_index r g b = bit_or (bit_or (r * 2 ^ 8) (g * 2 ^ 4)) b

pub record Best : Type 0 where
  pub best : ℕ
  pub br : ℕ
  pub bg : ℕ
  pub bb : ℕ

unfoldable pub consider : Counts → ℕ → ℕ → Best → ℕ → Best
consider counts r g s b =
    let n = counts (bucket_index r g b) in
    if ltb s.best n then record { best = n; br = r * 17; bg = g * 17; bb = b * 17 } else s

-- The three nested loops over the buckets, the innermost first.
unfoldable pub over_b : Counts → ℕ → Best → ℕ → Best
over_b counts r s g = foldl (consider counts r g) s (up_to 16)

unfoldable pub over_g : Counts → Best → ℕ → Best
over_g counts s r = foldl (over_b counts r) s (up_to 16)

unfoldable pub dominant : Counts → Best
dominant counts = foldl (over_g counts) (record { best = 0; br = 0; bg = 0; bb = 0 }) (up_to 16)

-- `d0 > d1 ? (d0 > d2 ? d0 : d2) : (d1 > d2 ? d1 : d2)`
unfoldable pub largest : ℕ → ℕ → ℕ → ℕ
largest d0 d1 d2 =
    if ltb d1 d0 then (if ltb d2 d0 then d0 else d2) else (if ltb d2 d1 then d1 else d2)

-- The largest of the three channel differences to the background colour.
unfoldable pub distance : Bitmap → Best → Pixel → ℕ
distance bmp s p =
    largest (abs_diff (channel bmp p 0) s.br) (abs_diff (channel bmp p 1) s.bg)
      (abs_diff (channel bmp p 2) s.bb)

unfoldable pub count_nonbg : Bitmap → ℕ → Best → ℕ → Pixel → ℕ
count_nonbg bmp fuzz s nonbg p = if ltb fuzz (distance bmp s p) then nonbg + 1 else nonbg

unfoldable pub non_background_fraction : Bitmap → ℕ → Fraction
non_background_fraction bmp fuzz =
    let s = dominant (histogram bmp) in
    record {
      numerator = scan (count_nonbg bmp fuzz s) bmp.width bmp.height 0;
      denominator = bmp.width * bmp.height;
    }
