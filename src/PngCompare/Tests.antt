-- ===== src/PngCompare/Tests.antt =====
-- The comparison on images of two pixels.
use serena_de.PngCompare.Background.{histogram, dominant}
use serena_de.PngCompare.Background.Dominant.{bucket_size, dominant-histogram}
use serena_de.PngCompare.BoundingBox.{IsTight, compare_pngs-IsTight}
use serena_de.PngCompare.Counting.{differs, compare_pngs-count}
use serena_de.PngCompare.Deltas.{delta_at, compare_pngs-max_channel_delta}
use serena_de.PngCompare.{Bitmap, compare_pngs}
use serena_de.Prelude.{
  ℕ, ◌*◌, ◌<◌, ◌≤◌, ◌≡◌, refl, ◌⊎◌, arith, count_if, pixels, Pixel, ◌==◌, if◌then◌else◌,
}
use serena_de.Prelude.Int.{pos}

abbrev dark : Bitmap
dark = record { width = 2; height = 1; scanline_u8 = λ y o. 0 }

-- The right pixel differs in one channel, by 200.
abbrev spot : Bitmap
spot = record { width = 2; height = 1; scanline_u8 = λ y o. if o == 5 then 200 else 0 }

one_differs : (compare_pngs spot dark (pos 16)).differing_pixels ≡ 1
one_differs = compare_pngs-count spot dark (pos 16) refl

compare_pngs-count_example :
    (compare_pngs spot dark (pos 16)).differing_pixels
    ≡ count_if (differs spot dark (pos 16)) (pixels 2 1)
compare_pngs-count_example = compare_pngs-count spot dark (pos 16) refl

compare_pngs-IsTight_example :
    IsTight spot dark (pos 16) (compare_pngs spot dark (pos 16)) (pixels 2 1)
compare_pngs-IsTight_example =
    compare_pngs-IsTight spot dark (pos 16) refl (omega (arith, one_differs))

compare_pngs-max_channel_delta_example :
    let m = (compare_pngs spot dark (pos 16)).max_channel_delta in
    ((x y c : ℕ) → x < 2 → y < 1 → c < 4 → delta_at spot dark (record { x = x; y = y }) c ≤ m)
    × ((m ≡ 0)
        ⊎ ((p : Pixel) × (c : ℕ) × (c < 4) × (delta_at spot dark p c ≡ m) × (p.x < 2) × (p.y < 1)))
compare_pngs-max_channel_delta_example = compare_pngs-max_channel_delta spot dark (pos 16) refl

dominant-histogram_example :
    let s = dominant (histogram spot) in
    ((r g b : ℕ) → r < 16 → g < 16 → b < 16 → bucket_size spot r g b ≤ s.best)
    × ((s.best ≡ 0)
        ⊎ ((r g b : ℕ) × (r < 16)
            × (g < 16)
            × (b < 16)
            × (bucket_size spot r g b ≡ s.best)
            × (s.br ≡ r * 17)
            × (s.bg ≡ g * 17)
            × (s.bb ≡ b * 17)))
dominant-histogram_example = dominant-histogram spot (λ p c. ground arith)
