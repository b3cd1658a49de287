-- ===== src/PngCompare/Deltas.antt =====
-- `max_channel_delta` of compare_pngs, src/Launcher/PngCompare.h.
use serena_de.Prelude.{
  ℕ, ◌≤◌, ◌<◌, ◌≡◌, refl, sym, ◌∙◌, ◌⊎◌, inl, inr, true, List, [], ◌∷◌, foldl, zero, suc, arith,
  All, Some, Some-All, All-pixels, pixels-All, Pixel, pixels,
}
use serena_de.Prelude.Int.{ℤ}
use serena_de.PngCompare.Loop.{start, compare_pngs-foldl}
use serena_de.PngCompare.{
  Bitmap, PngCompareResult, abs_diff, channel, keep_larger, pixel_delta, grow_box, compare_pixel,
  same_size, compare_pngs,
}

keep_larger-bounds : (a b : ℕ) → (a ≤ keep_larger a b) × (b ≤ keep_larger a b)
unfolding keep_larger
keep_larger-bounds a b = ground arith

keep_larger_either : (a b : ℕ) → (keep_larger a b ≡ a) ⊎ (keep_larger a b ≡ b)
unfolding keep_larger
keep_larger_either a b = ground arith

four_bounds :
    (a b c d : ℕ)
    → let m = keep_larger (keep_larger (keep_larger (keep_larger 0 a) b) c) d in
      (a ≤ m) × (b ≤ m) × (c ≤ m) × (d ≤ m)
unfolding keep_larger
four_bounds a b c d = ground arith

four_either :
    (a b c d : ℕ)
    → let m = keep_larger (keep_larger (keep_larger (keep_larger 0 a) b) c) d in
      (m ≡ a) ⊎ (m ≡ b) ⊎ (m ≡ c) ⊎ (m ≡ d)
unfolding keep_larger
four_either a b c d = ground arith

abbrev pub delta_at : Bitmap → Bitmap → Pixel → ℕ → ℕ
delta_at actual golden p c = abs_diff (channel actual p c) (channel golden p c)

module _ (actual golden : Bitmap) (tolerance : ℤ) where
  abbrev Within : ℕ → Pixel → Type 0
  Within m p = (c : ℕ) → c < 4 → delta_at actual golden p c ≤ m

  abbrev Attains : ℕ → Pixel → Type 0
  Attains m p = (c : ℕ) × (c < 4) × (delta_at actual golden p c ≡ m)

  below_four :
      (p : Pixel) (m c : ℕ)
      → c < 4
      → delta_at actual golden p 0 ≤ m
      → delta_at actual golden p 1 ≤ m
      → delta_at actual golden p 2 ≤ m
      → delta_at actual golden p 3 ≤ m
      → delta_at actual golden p c ≤ m
  below_four p m zero h h0 h1 h2 h3 = h0
  below_four p m (suc zero) h h0 h1 h2 h3 = h1
  below_four p m (suc (suc zero)) h h0 h1 h2 h3 = h2
  below_four p m (suc (suc (suc zero))) h h0 h1 h2 h3 = h3
  below_four p m (suc (suc (suc (suc c)))) h h0 h1 h2 h3 = absurd (omega arith)

  pixel_delta-Within : (p : Pixel) → Within (pixel_delta actual golden p) p
  unfolding pixel_delta
  pixel_delta-Within p c h =
      let (h0, h1, h2, h3) = four_bounds _ _ _ _ in below_four p _ c h h0 h1 h2 h3

  pixel_delta-Attains : (p : Pixel) → Attains (pixel_delta actual golden p) p
  unfolding pixel_delta
  pixel_delta-Attains p = elim (four_either (d 0) (d 1) (d 2) (d 3)) [
    | inl e ↦ (0, omega arith, sym e)
    | inr (inl e) ↦ (1, omega arith, sym e)
    | inr (inr (inl e)) ↦ (2, omega arith, sym e)
    | inr (inr (inr e)) ↦ (3, omega arith, sym e)
  ]
    where
      d : ℕ → ℕ
      d = delta_at actual golden p

  compare_pixel-max :
      (r : PngCompareResult) (p : Pixel)
      → (compare_pixel actual golden tolerance r p).max_channel_delta
        ≡ keep_larger r.max_channel_delta (pixel_delta actual golden p)
  unfolding compare_pixel grow_box
  compare_pixel-max r p = ground arith

  foldl-max-le :
      (ps : List Pixel) (r : PngCompareResult)
      → r.max_channel_delta ≤ (foldl (compare_pixel actual golden tolerance) r ps).max_channel_delta
  foldl-max-le [] r = omega arith
  foldl-max-le (p ∷ ps) r = omega (
    arith,
    foldl-max-le ps (compare_pixel actual golden tolerance r p),
    compare_pixel-max r p,
    (keep_larger-bounds r.max_channel_delta (pixel_delta actual golden p)).0,
  )

  foldl-max-Within :
      (ps : List Pixel) (r : PngCompareResult)
      → All (Within (foldl (compare_pixel actual golden tolerance) r ps).max_channel_delta) ps
  foldl-max-Within [] r = tt
  foldl-max-Within (p ∷ ps) r =
      let q = compare_pixel actual golden tolerance r p in
      (
        λ c h. omega (
          arith,
          pixel_delta-Within p c h,
          foldl-max-le ps q,
          compare_pixel-max r p,
          (keep_larger-bounds r.max_channel_delta (pixel_delta actual golden p)).1,
        ),
        foldl-max-Within ps q,
      )

  foldl-max-Attains :
      (ps : List Pixel) (r : PngCompareResult)
      → let m = (foldl (compare_pixel actual golden tolerance) r ps).max_channel_delta in
        (m ≡ r.max_channel_delta) ⊎ Some (Attains m) ps
  foldl-max-Attains [] r = inl refl
  foldl-max-Attains (p ∷ ps) r =
      let q = compare_pixel actual golden tolerance r p in
      elim (foldl-max-Attains ps q) [
        | inr later ↦ inr (inr later)
        | inl e ↦ elim (keep_larger_either r.max_channel_delta (pixel_delta actual golden p)) [
          | inl old ↦ inl (e ∙ compare_pixel-max r p ∙ old)
          | inr new ↦ inr (inl (rw (e ∙ compare_pixel-max r p ∙ new) (pixel_delta-Attains p)))
        ]
      ]

  -- When the sizes match, no two corresponding bytes of the images differ by more than
  -- `max_channel_delta`, and it is 0 or the difference of two corresponding bytes.
  pub compare_pngs-max_channel_delta :
      same_size actual golden ≡ true
      → let m = (compare_pngs actual golden tolerance).max_channel_delta in
        ((x y c : ℕ)
          → x < actual.width
          → y < actual.height
          → c < 4
          → delta_at actual golden (record { x = x; y = y }) c ≤ m)
        × ((m ≡ 0)
            ⊎ ((p : Pixel) × (c : ℕ) × (c < 4)
                × (delta_at actual golden p c ≡ m)
                × (p.x < actual.width)
                × (p.y < actual.height)))
  compare_pngs-max_channel_delta e =
      rw (compare_pngs-foldl actual golden tolerance e)
        (λ x y c hx hy hc. All-pixels (Within m) w h within x y hx hy c hc, attained)
    where
      w : ℕ
      w = actual.width

      h : ℕ
      h = actual.height

      m : ℕ
      m =
          (foldl (compare_pixel actual golden tolerance) (start actual golden tolerance e)
            (pixels w h)).max_channel_delta

      within : All (Within m) (pixels w h)
      within = foldl-max-Within (pixels w h) (start actual golden tolerance e)

      inside : All (λ p. (p.x < w) × (p.y < h)) (pixels w h)
      inside = pixels-All (λ p. (p.x < w) × (p.y < h)) w h (λ x y hx hy. (hx, hy))

      attained :
          (m ≡ 0)
          ⊎ ((p : Pixel) × (c : ℕ) × (c < 4)
              × (delta_at actual golden p c ≡ m)
              × (p.x < w)
              × (p.y < h))
      attained = elim (foldl-max-Attains (pixels w h) (start actual golden tolerance e)) [
        | inl z ↦ inl z
        | inr s ↦
            let (p, (c, hc, hd), (hx, hy)) = Some-All (pixels w h) s inside in
            inr (p, c, hc, hd, hx, hy)
      ]
