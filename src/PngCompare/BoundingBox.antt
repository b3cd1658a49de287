-- ===== src/PngCompare/BoundingBox.antt =====
-- The bounding box of compare_pngs, src/Launcher/PngCompare.h.
pub mod Growth
use mathlib.Core.Bool.{false≢true}
use serena_de.Prelude.{
  count_if-none, ◌+◌, ◌<◌, ◌≡◌, refl, sym, ◌∙◌, ◌⊎◌, inl, inr, true, false, List, [], ◌∷◌, foldl,
  arith, Bool-cases, All, Some, Pixel, pixels,
}
use serena_de.Prelude.Int.{ℤ, pos, negsuc, ◌≤ℤ◌}
use serena_de.PngCompare.Counting.{differs, pixel_delta-differs, compare_pngs-count}
use serena_de.PngCompare.Loop.{start, compare_pngs-foldl}
use serena_de.PngCompare.{
  Bitmap, PngCompareResult, keep_larger, pixel_delta, grow_box, compare_pixel, same_size,
  compare_pngs,
}
use serena_de.PngCompare.BoundingBox.Growth.{
  Grows, Touched, Side, Side-skip, Touched-first, Side-step, left, top, IsStarted, InBox-Grows,
  Grows-trans, SameBox, same-Grows, grow_box-InBox, grow_box-Grows, grow_box-IsStarted,
  grow_box_sides, grow_box_first, InBox,
}

module _ (actual golden : Bitmap) (tolerance : ℤ) where
  step : PngCompareResult → Pixel → PngCompareResult
  step = compare_pixel actual golden tolerance

  abbrev Differs : Pixel → Type 0
  Differs p = differs actual golden tolerance p ≡ true

  step_same :
      (r : PngCompareResult) (p : Pixel)
      → differs actual golden tolerance p ≡ false
      → SameBox r (step r p)
  unfolding step compare_pixel
  step_same r p e = rw (pixel_delta-differs actual golden tolerance p ∙ e) (ground arith)

  -- The result when the box grows: the counters have moved and the box has not.
  abbrev raised : PngCompareResult → Pixel → PngCompareResult
  raised r p = record r {
    max_channel_delta = keep_larger r.max_channel_delta (pixel_delta actual golden p);
    differing_pixels = r.differing_pixels + 1;
  }

  step_grows : (r : PngCompareResult) (p : Pixel) → Differs p → step r p ≡ grow_box (raised r p) p
  unfolding step compare_pixel
  step_grows r p e = rw (pixel_delta-differs actual golden tolerance p ∙ e)

  -- From a box that holds a pixel: it only grows, it takes in every differing pixel, and no side
  -- moves but to one of them.
  record Fold (r q : PngCompareResult) (ps : List Pixel) : Type 0 where
    grows : Grows r q
    holds : All (λ p. Differs p → InBox q p) ps
    min_x : Side Differs left r.diff_min_x q.diff_min_x ps
    max_x : Side Differs left r.diff_max_x q.diff_max_x ps
    min_y : Side Differs top r.diff_min_y q.diff_min_y ps
    max_y : Side Differs top r.diff_max_y q.diff_max_y ps

  Fold-same :
      (r s q : PngCompareResult) (p : Pixel) (ps : List Pixel)
      → differs actual golden tolerance p ≡ false
      → SameBox r s
      → Fold s q ps
      → Fold r q (p ∷ ps)
  Fold-same r s q p ps e b f = record {
    grows = same-Grows b f.grows;
    holds = (λ d. absurd (false≢true (sym e ∙ d)), f.holds);
    min_x = Side-skip Differs left _ s.diff_min_x q.diff_min_x p ps b.min_x f.min_x;
    max_x = Side-skip Differs left _ s.diff_max_x q.diff_max_x p ps b.max_x f.max_x;
    min_y = Side-skip Differs top _ s.diff_min_y q.diff_min_y p ps b.min_y f.min_y;
    max_y = Side-skip Differs top _ s.diff_max_y q.diff_max_y p ps b.max_y f.max_y;
  }

  Fold-grown :
      (r s q : PngCompareResult) (p : Pixel) (ps : List Pixel)
      → IsStarted r
      → Differs p
      → s ≡ grow_box (raised r p) p
      → Fold s q ps
      → Fold r q (p ∷ ps)
  Fold-grown r s q p ps h d e f =
      let (min_x, max_x, min_y, max_y) = grow_box_sides (raised r p) p in
      let g = rw e at f in
      record {
        grows = raised_grows r p q (grow_box-Grows (raised r p) p h) g.grows;
        holds = (λ _. InBox-Grows g.grows (grow_box-InBox (raised r p) p), g.holds);
        min_x = Side-step Differs left _ _ q.diff_min_x p ps d min_x g.min_x;
        max_x = Side-step Differs left _ _ q.diff_max_x p ps d max_x g.max_x;
        min_y = Side-step Differs top _ _ q.diff_min_y p ps d min_y g.min_y;
        max_y = Side-step Differs top _ _ q.diff_max_y p ps d max_y g.max_y;
      }
    where
      raised_grows :
          (r : PngCompareResult) (p : Pixel) (q : PngCompareResult)
          → Grows (raised r p) (grow_box (raised r p) p)
          → Grows (grow_box (raised r p) p) q
          → Grows r q
      raised_grows r p q a b = omega arith

  foldl-Fold : (ps : List Pixel) (r : PngCompareResult) → IsStarted r → Fold r (foldl step r ps) ps
  foldl-Fold [] r h = record {
    grows = omega arith;
    holds = tt;
    min_x = inl refl;
    max_x = inl refl;
    min_y = inl refl;
    max_y = inl refl;
  }
  foldl-Fold (p ∷ ps) r h = elim (Bool-cases (differs actual golden tolerance p)) [
    | inl d ↦
        let s = step_grows r p d in
        Fold-grown r (step r p) _ p ps h d s
          (foldl-Fold ps (step r p) (rw s (grow_box-IsStarted (raised r p) p)))
    | inr e ↦
        let b = step_same r p e in
        Fold-same r (step r p) _ p ps e b (foldl-Fold ps (step r p) (rw b.max_x h))
  ]

  -- The smallest box that holds the differing pixels among these: it holds them, and each side
  -- touches one.
  pub record IsTight (q : PngCompareResult) (ps : List Pixel) : Type 0 where
    pub holds : All (λ p. Differs p → InBox q p) ps
    pub min_x : Touched Differs left q.diff_min_x ps
    pub max_x : Touched Differs left q.diff_max_x ps
    pub min_y : Touched Differs top q.diff_min_y ps
    pub max_y : Touched Differs top q.diff_max_y ps

  IsTight-first :
      (r s q : PngCompareResult) (p : Pixel) (ps : List Pixel)
      → r.diff_max_x ≡ negsuc 0
      → Differs p
      → s ≡ grow_box (raised r p) p
      → Fold s q ps
      → IsTight q (p ∷ ps)
  IsTight-first r s q p ps u d e f =
      let (min_x, max_x, min_y, max_y) = grow_box_first (raised r p) p u in
      let g = rw e at f in
      record {
        holds = (λ _. InBox-Grows g.grows (grow_box-InBox (raised r p) p), g.holds);
        min_x = Touched-first Differs left _ q.diff_min_x p ps d min_x g.min_x;
        max_x = Touched-first Differs left _ q.diff_max_x p ps d max_x g.max_x;
        min_y = Touched-first Differs top _ q.diff_min_y p ps d min_y g.min_y;
        max_y = Touched-first Differs top _ q.diff_max_y p ps d max_y g.max_y;
      }

  -- From no box: there is still none, and no pixel differs, or the box is tight.
  foldl-IsTight :
      (ps : List Pixel) (r : PngCompareResult)
      → r.diff_max_x ≡ negsuc 0
      → All (λ p. differs actual golden tolerance p ≡ false) ps ⊎ IsTight (foldl step r ps) ps
  foldl-IsTight [] r u = inl tt
  foldl-IsTight (p ∷ ps) r u = elim (Bool-cases (differs actual golden tolerance p)) [
    | inl d ↦
        let s = step_grows r p d in
        inr (
          IsTight-first r (step r p) _ p ps u d s
            (foldl-Fold ps (step r p) (rw s (grow_box-IsStarted (raised r p) p))))
    | inr e ↦ elim (foldl-IsTight ps (step r p) ((step_same r p e).max_x ∙ u)) [
      | inl none_differ ↦ inl (e, none_differ)
      | inr t ↦ inr (record {
        holds = (λ d. absurd (false≢true (sym e ∙ d)), t.holds);
        min_x = inr t.min_x;
        max_x = inr t.max_x;
        min_y = inr t.min_y;
        max_y = inr t.max_y;
      })
    ]
  ]

  -- When the sizes match and some pixel differs, the reported box is the smallest that holds the
  -- differing pixels: it holds each of them, and each of its four sides touches one.
  pub compare_pngs-IsTight :
      same_size actual golden ≡ true
      → 0 < (compare_pngs actual golden tolerance).differing_pixels
      → IsTight (compare_pngs actual golden tolerance) (pixels actual.width actual.height)
  unfolding step
  compare_pngs-IsTight e h = elim (foldl-IsTight ps begin refl) [
    | inl none_differ ↦ absurd (
        omega (
          arith,
          compare_pngs-count actual golden tolerance e,
          count_if-none (differs actual golden tolerance) ps none_differ,
        ))
    | inr t ↦ rw (compare_pngs-foldl actual golden tolerance e) t
  ]
    where
      ps : List Pixel
      ps = pixels actual.width actual.height

      begin : PngCompareResult
      begin = start actual golden tolerance e
