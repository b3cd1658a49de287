-- ===== src/PngCompare/Background/Dominant.antt =====
-- The loops over the buckets in non_background_fraction, src/Launcher/PngCompare.h.
use serena_de.Prelude.{
  All-map, Bool-cases, Bool, ◌&&◌, ◌==◌, ◌+◌, ◌/◌, ap, subst, Pixel, count_if-congr, sym, ◌∙◌, ℕ,
  ◌*◌, ◌≤◌, ◌<◌, ◌≡◌, refl, ◌⊎◌, inl, inr, List, [], ◌∷◌, foldl, ltb, arith, All, All-range_from,
  range_from-All, up_to, count_if, pixels,
}
use serena_de.PngCompare.{Bitmap, channel}
use serena_de.PngCompare.Background.Histogram.{
  in_bucket, histogram-count, bucket_index-sum, bucket-bucket_index,
}
use serena_de.PngCompare.Background.{
  bucket, bucket_index, Counts, histogram, Best, consider, over_b, over_g, dominant,
}

-- A loop that never lowers `best`, and raises it to `reach x` in the round of `x`.
module _ (body : Best → ℕ → Best) (reach : ℕ → Best → Type 0) where
  foldl-grows :
      ((s : Best) (x : ℕ) → s.best ≤ (body s x).best)
      → (xs : List ℕ) (s : Best) → s.best ≤ (foldl body s xs).best
  foldl-grows grows [] s = omega arith
  foldl-grows grows (x ∷ xs) s = omega (arith, grows s x, foldl-grows grows xs (body s x))

  foldl-reach :
      ((s : Best) (x : ℕ) → s.best ≤ (body s x).best)
      → ((s : Best) (x : ℕ) → reach x (body s x))
      → ((x : ℕ) (s t : Best) → s.best ≤ t.best → reach x s → reach x t)
      → (xs : List ℕ) (s : Best) → All (λ x. reach x (foldl body s xs)) xs
  foldl-reach grows hits up [] s = tt
  foldl-reach grows hits up (x ∷ xs) s = (
    up x (body s x) _ (foldl-grows grows xs (body s x)) (hits s x),
    foldl-reach grows hits up xs (body s x),
  )

foldl-keeps :
    (body : Best → ℕ → Best) (Q : Best → Type 0) (n : ℕ) (xs : List ℕ)
    → ((s : Best) (x : ℕ) → x < n → Q s → Q (body s x))
    → All (λ x. x < n) xs
    → (s : Best) → Q s
    → Q (foldl body s xs)
foldl-keeps body Q n [] keep h s q = q
foldl-keeps body Q n (x ∷ xs) keep h s q =
    foldl-keeps body Q n xs keep h.1 (body s x) (keep s x h.0 q)

sixteen : All (λ x. x < 16) (up_to 16)
sixteen = range_from-All (λ x. x < 16) 0 16 (λ i _ h. omega (arith, h))

module _ (counts : Counts) where
  -- Bucket (r, g, b) holds no more than the best so far.
  abbrev Reached : ℕ → ℕ → ℕ → Best → Type 0
  Reached r g b s = counts (bucket_index r g b) ≤ s.best

  -- The best so far is the count of a bucket, and its colour is that bucket's.
  abbrev pub IsBucket : Best → Type 0
  IsBucket s =
      (r g b : ℕ) × (r < 16)
      × (g < 16)
      × (b < 16)
      × (counts (bucket_index r g b) ≡ s.best)
      × (s.br ≡ r * 17)
      × (s.bg ≡ g * 17)
      × (s.bb ≡ b * 17)

  consider-grows : (r g : ℕ) (s : Best) (b : ℕ) → s.best ≤ (consider counts r g s b).best
  unfolding consider
  consider-grows r g s b = ground arith

  consider-Reached : (r g : ℕ) (s : Best) (b : ℕ) → Reached r g b (consider counts r g s b)
  unfolding consider
  consider-Reached r g s b = ground arith

  over_b-grows : (r : ℕ) (s : Best) (g : ℕ) → s.best ≤ (over_b counts r s g).best
  unfolding over_b
  over_b-grows r s g =
      foldl-grows (consider counts r g) (Reached r g) (consider-grows r g) (up_to 16) s

  over_b-Reached :
      (r : ℕ) (s : Best) (g : ℕ) → All (λ b. Reached r g b (over_b counts r s g)) (up_to 16)
  unfolding over_b
  over_b-Reached r s g =
      foldl-reach (consider counts r g) (Reached r g) (consider-grows r g) (consider-Reached r g)
        (λ b u v h k. omega arith) (up_to 16) s

  abbrev RowReached : ℕ → ℕ → Best → Type 0
  RowReached r g s = All (λ b. Reached r g b s) (up_to 16)

  RowReached-up : (r g : ℕ) (s t : Best) → s.best ≤ t.best → RowReached r g s → RowReached r g t
  RowReached-up r g s t h =
      All-map (λ b. Reached r g b s) (λ b. Reached r g b t) (λ b k. omega arith) (up_to 16)

  over_g-grows : (s : Best) (r : ℕ) → s.best ≤ (over_g counts s r).best
  unfolding over_g
  over_g-grows s r = foldl-grows (over_b counts r) (RowReached r) (over_b-grows r) (up_to 16) s

  abbrev SliceReached : ℕ → Best → Type 0
  SliceReached r s = All (λ g. RowReached r g s) (up_to 16)

  over_g-SliceReached : (s : Best) (r : ℕ) → SliceReached r (over_g counts s r)
  unfolding over_g
  over_g-SliceReached s r =
      foldl-reach (over_b counts r) (RowReached r) (over_b-grows r) (over_b-Reached r)
        (RowReached-up r) (up_to 16) s

  SliceReached-up : (r : ℕ) (s t : Best) → s.best ≤ t.best → SliceReached r s → SliceReached r t
  SliceReached-up r s t h =
      All-map (λ g. RowReached r g s) (λ g. RowReached r g t) (λ g. RowReached-up r g s t h)
        (up_to 16)

  dominant-Reached : All (λ r. SliceReached r (dominant counts)) (up_to 16)
  unfolding dominant
  dominant-Reached =
      foldl-reach (over_g counts) SliceReached over_g-grows over_g-SliceReached SliceReached-up
        (up_to 16) _

  pub dominant-most :
      (r g b : ℕ) → r < 16 → g < 16 → b < 16 → counts (bucket_index r g b) ≤ (dominant counts).best
  dominant-most r g b hr hg hb =
      let s = dominant counts in
      let slice = All-range_from (λ k. SliceReached k s) 0 16 r dominant-Reached (omega arith) hr in
      let line = All-range_from (λ k. RowReached r k s) 0 16 g slice (omega arith) hg in
      All-range_from (λ k. Reached r g k s) 0 16 b line (omega arith) hb

  abbrev Found : Best → Type 0
  Found s = (s.best ≡ 0) ⊎ IsBucket s

  consider-Found :
      (r g : ℕ)
      → r < 16
      → g < 16
      → (s : Best) (b : ℕ) → b < 16
      → Found s
      → Found (consider counts r g s b)
  unfolding consider
  consider-Found r g hr hg s b hb f = elim (Bool-cases (ltb s.best (counts (bucket_index r g b)))) [
    | inl more ↦ rw more (inr (r, g, b, hr, hg, hb, refl, refl, refl, refl))
    | inr less ↦ rw less f
  ]

  over_b-Found :
      (r : ℕ) → r < 16 → (s : Best) (g : ℕ) → g < 16 → Found s → Found (over_b counts r s g)
  unfolding over_b
  over_b-Found r hr s g hg f =
      foldl-keeps (consider counts r g) Found 16 (up_to 16) (consider-Found r g hr hg) sixteen s f

  over_g-Found : (s : Best) (r : ℕ) → r < 16 → Found s → Found (over_g counts s r)
  unfolding over_g
  over_g-Found s r hr f =
      foldl-keeps (over_b counts r) Found 16 (up_to 16) (over_b-Found r hr) sixteen s f

  pub dominant-IsBucket : ((dominant counts).best ≡ 0) ⊎ IsBucket (dominant counts)
  unfolding dominant
  dominant-IsBucket =
      foldl-keeps (over_g counts) Found 16 (up_to 16) over_g-Found sixteen _ (inl refl)

-- Two buckets are the same exactly when their three parts are.
same_bucket :
    (x y z r g b : ℕ)
    → y < 16
    → z < 16
    → g < 16
    → b < 16
    → (r * 256 + g * 16 + b == x * 256 + y * 16 + z) ≡ (x == r && y == g && z == b)
same_bucket x y z r g b hy hz hg hb = ground arith

-- Whether the top four bits of the three channels are these.
abbrev pub has_colour : Bitmap → ℕ → ℕ → ℕ → Pixel → Bool
has_colour bmp r g b p =
    channel bmp p 0 / 16 == r && channel bmp p 1 / 16 == g && channel bmp p 2 / 16 == b

-- How many pixels of the image have such a colour.
abbrev pub bucket_size : Bitmap → ℕ → ℕ → ℕ → ℕ
bucket_size bmp r g b = count_if (has_colour bmp r g b) (pixels bmp.width bmp.height)

-- The channels are bytes.
abbrev pub HasBytes : Bitmap → Type 0
HasBytes bmp = (p : Pixel) (c : ℕ) → channel bmp p c < 256

in_bucket-has_colour :
    (bmp : Bitmap) (r g b : ℕ)
    → HasBytes bmp
    → r < 16
    → g < 16
    → b < 16
    → (p : Pixel) → in_bucket bmp (bucket_index r g b) p ≡ has_colour bmp r g b p
in_bucket-has_colour bmp r g b bytes hr hg hb p =
    let h0 = bytes p 0 in
    let h1 = bytes p 1 in
    let h2 = bytes p 2 in
    let c0 = channel bmp p 0 in
    let c1 = channel bmp p 1 in
    let c2 = channel bmp p 2 in
    ap (λ i. i == bucket c0 c1 c2) (bucket_index-sum r g b hr hg hb)
    ∙ ap (λ i. r * 256 + g * 16 + b == i)
        (bucket-bucket_index c0 c1 c2
          ∙ bucket_index-sum (c0 / 16) (c1 / 16) (c2 / 16) (omega arith) (omega arith)
              (omega arith))
    ∙ same_bucket (c0 / 16) (c1 / 16) (c2 / 16) r g b (omega arith) (omega arith) hg hb

histogram-bucket_size :
    (bmp : Bitmap) (r g b : ℕ)
    → HasBytes bmp
    → r < 16
    → g < 16
    → b < 16
    → histogram bmp (bucket_index r g b) ≡ bucket_size bmp r g b
histogram-bucket_size bmp r g b bytes hr hg hb =
    histogram-count bmp (bucket_index r g b)
    ∙ count_if-congr _ _ (in_bucket-has_colour bmp r g b bytes hr hg hb)
        (pixels bmp.width bmp.height)

-- The colour that stands for the background is seventeen times the top four bits of its channels, and
-- at least as many pixels have these top bits as any other three; with no pixel at all, `best` is 0.
-- The image's channels are bytes.
pub dominant-histogram :
    (bmp : Bitmap)
    → HasBytes bmp
    → let s = dominant (histogram bmp) in
      ((r g b : ℕ) → r < 16 → g < 16 → b < 16 → bucket_size bmp r g b ≤ s.best)
      × ((s.best ≡ 0)
          ⊎ ((r g b : ℕ) × (r < 16)
              × (g < 16)
              × (b < 16)
              × (bucket_size bmp r g b ≡ s.best)
              × (s.br ≡ r * 17)
              × (s.bg ≡ g * 17)
              × (s.bb ≡ b * 17)))
dominant-histogram bmp bytes = (
  λ r g b hr hg hb.
      subst (λ n. n ≤ (dominant (histogram bmp)).best)
        (histogram-bucket_size bmp r g b bytes hr hg hb)
        (dominant-most (histogram bmp) r g b hr hg hb),
  elim (dominant-IsBucket (histogram bmp)) [
    | inl e ↦ inl e
    | inr (r, g, b, hr, hg, hb, e, er, eg, eb) ↦
        inr (
          r,
          g,
          b,
          hr,
          hg,
          hb,
          sym (histogram-bucket_size bmp r g b bytes hr hg hb) ∙ e,
          er,
          eg,
          eb,
        )
  ],
)
