-- ===== src/PngCompare/Background/Uniform.antt =====
-- The fraction of non_background_fraction, src/Launcher/PngCompare.h, and images of one colour.
use serena_de.Prelude.{
  Bool, Bool-cases, ◌&&◌, ◌==◌, ==_refl, ℕ, ◌+◌, ◌*◌, ◌/◌, ◌≤◌, ◌<◌, ◌≡◌, refl, ◌∙◌, inl, inr, true,
  false, List, [], ◌∷◌, foldl, ltb, arith, All, count_if, count_if-All, count_if-none,
  count_if-le-length, length, length-pixels, All-map, pixels-All, Pixel, pixels, scan-foldl,
}
use native.Mathlib.Decide.{dec_lt}
use native.Mathlib.Nat.{le_trans}
use serena_de.PngCompare.{Bitmap, abs_diff, channel}
use serena_de.PngCompare.Background.Dominant.{has_colour, HasBytes, bucket_size, dominant-histogram}
use serena_de.PngCompare.Background.{
  Best, largest, histogram, dominant, distance, count_nonbg, non_background_fraction,
}

module _ (bmp : Bitmap) (fuzz : ℕ) where
  foldl-nonbg :
      (s : Best) (ps : List Pixel) (n : ℕ)
      → foldl (count_nonbg bmp fuzz s) n ps ≡ n + count_if (λ p. ltb fuzz (distance bmp s p)) ps
  foldl-nonbg s [] n = omega arith
  foldl-nonbg s (p ∷ ps) n =
      foldl-nonbg s ps (count_nonbg bmp fuzz s n p) ∙ unfold count_nonbg in ground arith

  -- The numerator counts the pixels whose distance to the background colour is over the fuzz.
  nonbg-count :
      (non_background_fraction bmp fuzz).numerator
      ≡ count_if
          (λ p. ltb fuzz (distance bmp (dominant (histogram bmp)) p))
          (pixels bmp.width bmp.height)
  unfolding non_background_fraction
  nonbg-count =
      scan-foldl (count_nonbg bmp fuzz (dominant (histogram bmp))) bmp.width bmp.height 0
      ∙ foldl-nonbg (dominant (histogram bmp)) (pixels bmp.width bmp.height) 0
      ∙ omega arith

  -- The fraction is at most 1: its numerator is at most its denominator.
  pub non_background_fraction-le :
      (non_background_fraction bmp fuzz).numerator ≤ (non_background_fraction bmp fuzz).denominator
  non_background_fraction-le = omega (
    arith,
    nonbg-count,
    count_if-le-length off (pixels bmp.width bmp.height),
    length-pixels bmp.width bmp.height,
    denominator,
  )
    where
      off : Pixel → Bool
      off p = ltb fuzz (distance bmp (dominant (histogram bmp)) p)

      denominator : (non_background_fraction bmp fuzz).denominator ≡ bmp.width * bmp.height
      denominator = unfold non_background_fraction in refl

-- The colour of a bucket lies within 15 of each colour of the bucket.
largest-le : (n a b c : ℕ) → a ≤ n → b ≤ n → c ≤ n → ltb n (largest a b c) ≡ false
unfolding largest
largest-le n a b c ha hb hc = ground arith

near : (c : ℕ) → c < 256 → abs_diff c (c / 16 * 17) ≤ 15
near c h = ground arith

-- Every pixel of the image has this colour.
abbrev pub IsUniform : Bitmap → ℕ → ℕ → ℕ → Pixel → Type 0
IsUniform bmp c0 c1 c2 p = (channel bmp p 0 ≡ c0) × (channel bmp p 1 ≡ c1) × (channel bmp p 2 ≡ c2)

module _ (bmp : Bitmap) (fuzz c0 c1 c2 : ℕ) (h0 : c0 < 256) (h1 : c1 < 256) (h2 : c2 < 256)
    (wide : 15 ≤ fuzz) (bytes : HasBytes bmp)
    (uniform : (x y : ℕ)
      → x < bmp.width
      → y < bmp.height
      → IsUniform bmp c0 c1 c2 (record { x = x; y = y })) where
  ps : List Pixel
  ps = pixels bmp.width bmp.height

  All-IsUniform : All (IsUniform bmp c0 c1 c2) ps
  unfolding ps
  All-IsUniform = pixels-All (IsUniform bmp c0 c1 c2) bmp.width bmp.height uniform

  -- At the colour's own bucket no pixel is off.
  distance_near :
      (s : Best) (p : Pixel)
      → s.br ≡ c0 / 16 * 17
      → s.bg ≡ c1 / 16 * 17
      → s.bb ≡ c2 / 16 * 17
      → IsUniform bmp c0 c1 c2 p
      → ltb fuzz (distance bmp s p) ≡ false
  unfolding distance
  distance_near s p e0 e1 e2 (u0, u1, u2) =
      rw (e0, e1, e2, u0, u1, u2)
        (largest-le fuzz _ _ _ (le_trans (near c0 h0) wide) (le_trans (near c1 h1) wide)
          (le_trans (near c2 h2) wide))

  -- The pixels of a bucket that the colour has are all, and of any other none.
  own_bucket : bucket_size bmp (c0 / 16) (c1 / 16) (c2 / 16) ≡ length ps
  unfolding ps
  own_bucket =
      count_if-All (has_colour bmp (c0 / 16) (c1 / 16) (c2 / 16)) ps
        (All-map (IsUniform bmp c0 c1 c2) _ (λ p u. own p u) ps All-IsUniform)
    where
      own :
          (p : Pixel)
          → IsUniform bmp c0 c1 c2 p
          → has_colour bmp (c0 / 16) (c1 / 16) (c2 / 16) p ≡ true
      own p (u0, u1, u2) =
          rw (u0, u1, u2, ==_refl (c0 / 16), ==_refl (c1 / 16), ==_refl (c2 / 16)) refl

  -- A bucket with a pixel in it is the colour's own.
  only_bucket :
      (r g b : ℕ)
      → r < 16
      → g < 16
      → b < 16
      → 0 < bucket_size bmp r g b
      → (r ≡ c0 / 16) × (g ≡ c1 / 16) × (b ≡ c2 / 16)
  unfolding ps
  only_bucket r g b hr hg hb h = elim (Bool-cases (c0 / 16 == r && c1 / 16 == g && c2 / 16 == b)) [
    | inl same ↦ (ground arith, ground arith, ground arith)
    | inr differs ↦ absurd (omega (arith, empty differs))
  ]
    where
      foreign :
          (c0 / 16 == r && c1 / 16 == g && c2 / 16 == b) ≡ false
          → (p : Pixel) → IsUniform bmp c0 c1 c2 p
          → has_colour bmp r g b p ≡ false
      foreign differs p (u0, u1, u2) = rw (u0, u1, u2) differs

      empty : (c0 / 16 == r && c1 / 16 == g && c2 / 16 == b) ≡ false → bucket_size bmp r g b ≡ 0
      empty differs =
          count_if-none (has_colour bmp r g b) ps
            (All-map (IsUniform bmp c0 c1 c2) _ (λ p u. foreign differs p u) ps All-IsUniform)

  -- The best count is that of all pixels.
  all_counted : length ps ≤ (dominant (histogram bmp)).best
  all_counted = rw (← own_bucket) (
      (dominant-histogram bmp bytes).0 (c0 / 16) (c1 / 16) (c2 / 16) (omega arith) (omega arith)
        (omega arith))

  no_pixels : length ps ≡ 0 → (non_background_fraction bmp fuzz).numerator ≡ 0
  unfolding ps
  no_pixels e = omega (
    arith,
    nonbg-count bmp fuzz,
    e,
    count_if-le-length (λ p. ltb fuzz (distance bmp (dominant (histogram bmp)) p)) ps,
  )

  -- An image of one colour shows no pixel off the background, if the fuzz is 15 or more.
  pub non_background_fraction_uniform : (non_background_fraction bmp fuzz).numerator ≡ 0
  unfolding ps
  non_background_fraction_uniform = elim (dominant-histogram bmp bytes).1 [
    | inl e ↦ no_pixels (omega (arith, all_counted))
    | inr (r, g, b, hr, hg, hb, e, er, eg, eb) ↦ elim (dec_lt 0 (length ps)) [
      | no none ↦ no_pixels (omega arith)
      | yes h ↦
          let (qr, qg, qb) = only_bucket r g b hr hg hb (omega (arith, e, all_counted)) in
          nonbg-count bmp fuzz
          ∙ count_if-none (λ p. ltb fuzz (distance bmp (dominant (histogram bmp)) p)) ps
              (All-map (IsUniform bmp c0 c1 c2) _
                (λ p u.
                  distance_near (dominant (histogram bmp)) p (rw (← qr) er) (rw (← qg) eg)
                    (rw (← qb) eb) u)
                ps All-IsUniform)
    ]
  ]
