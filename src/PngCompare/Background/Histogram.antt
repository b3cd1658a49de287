-- ===== src/PngCompare/Background/Histogram.antt =====
-- The histogram of non_background_fraction, src/Launcher/PngCompare.h, and its bucket indices.
use Prim.Native.Nat.{bit_or}
use serena_de.Prelude.{
  all_below, all_below_sound, ℕ, ◌+◌, ◌*◌, ◌/◌, ◌^◌, ◌<◌, ◌≡◌, refl, ◌∙◌, Bool, true, List, [], ◌∷◌,
  foldl, ◌==◌, ==_iff, arith, count_if, Pixel, pixels, scan-foldl,
}
use serena_de.PngCompare.{Bitmap, channel}
use serena_de.PngCompare.Background.{bucket, bucket_index, Counts, count_pixel, histogram}

high_table :
    all_below 16 (λ r. all_below 16 (λ g. bit_or (r * 2 ^ 8) (g * 2 ^ 4) == (r * 16 + g) * 16))
    ≡ true
unfolding all_below
high_table = refl

low_table : all_below 256 (λ n. all_below 16 (λ b. bit_or (n * 16) b == n * 16 + b)) ≡ true
unfolding all_below
low_table = refl

-- The three fields do not overlap, so `|` adds them.
pub bucket_index-sum :
    (r g b : ℕ) → r < 16 → g < 16 → b < 16 → bucket_index r g b ≡ r * 256 + g * 16 + b
unfolding bucket_index
bucket_index-sum r g b hr hg hb =
    let high = (==_iff _ _).0 (all_below_sound 16 _ g (all_below_sound 16 _ r high_table hr) hg) in
    let low =
      (==_iff _ _).0
        (all_below_sound 16 _ b (all_below_sound 256 _ (r * 16 + g) low_table (omega arith)) hb) in
    rw high (low ∙ omega arith)

pub bucket-bucket_index :
    (c0 c1 c2 : ℕ) → bucket c0 c1 c2 ≡ bucket_index (c0 / 16) (c1 / 16) (c2 / 16)
unfolding bucket bucket_index
bucket-bucket_index c0 c1 c2 = refl

abbrev pub in_bucket : Bitmap → ℕ → Pixel → Bool
in_bucket bmp i p = i == bucket (channel bmp p 0) (channel bmp p 1) (channel bmp p 2)

foldl-count :
    (bmp : Bitmap) (i : ℕ) (ps : List Pixel) (counts : Counts)
    → foldl (count_pixel bmp) counts ps i ≡ counts i + count_if (in_bucket bmp i) ps
foldl-count bmp i [] counts = omega arith
foldl-count bmp i (p ∷ ps) counts =
    foldl-count bmp i ps (count_pixel bmp counts p) ∙ unfold count_pixel in ground arith

pub histogram-count :
    (bmp : Bitmap) (i : ℕ)
    → histogram bmp i ≡ count_if (in_bucket bmp i) (pixels bmp.width bmp.height)
unfolding histogram
histogram-count bmp i =
    rw (scan-foldl (count_pixel bmp) bmp.width bmp.height)
      (foldl-count bmp i (pixels bmp.width bmp.height) (λ j. 0) ∙ omega arith)
