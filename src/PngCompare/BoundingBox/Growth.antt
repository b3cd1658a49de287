-- ===== src/PngCompare/BoundingBox/Growth.antt =====
-- One step of the bounding box of compare_pngs, src/Launcher/PngCompare.h.
use serena_de.Prelude.{◌≡◌, ◌∙◌, ◌⊎◌, inl, inr, List, ◌∷◌, arith, Some, Pixel}
use serena_de.Prelude.Int.{ℤ, pos, negsuc, ◌≤ℤ◌}
use serena_de.PngCompare.{PngCompareResult, grow_box}

-- A pixel lies in the box of a result.
pub record InBox (r : PngCompareResult) (p : Pixel) : Type 0 where
  pub min_x : r.diff_min_x ≤ℤ pos p.x
  pub max_x : pos p.x ≤ℤ r.diff_max_x
  pub min_y : r.diff_min_y ≤ℤ pos p.y
  pub max_y : pos p.y ≤ℤ r.diff_max_y

-- The box of `r` lies in the box of `q`.
pub record Grows (r q : PngCompareResult) : Type 0 where
  pub min_x : q.diff_min_x ≤ℤ r.diff_min_x
  pub max_x : r.diff_max_x ≤ℤ q.diff_max_x
  pub min_y : q.diff_min_y ≤ℤ r.diff_min_y
  pub max_y : r.diff_max_y ≤ℤ q.diff_max_y

-- A side that ends at `b` began at `a`, or touches one of the pixels that count.
module _ (P : Pixel → Type 0) (side : Pixel → ℤ) where
  abbrev pub Touched : ℤ → List Pixel → Type 0
  Touched b ps = Some (λ p. P p × (b ≡ side p)) ps

  abbrev pub Side : ℤ → ℤ → List Pixel → Type 0
  Side a b ps = (b ≡ a) ⊎ Touched b ps

  pub Side-skip :
      (a b c : ℤ) (p : Pixel) (ps : List Pixel) → b ≡ a → Side b c ps → Side a c (p ∷ ps)
  Side-skip a b c p ps e (inl k) = inl (k ∙ e)
  Side-skip a b c p ps e (inr s) = inr (inr s)

  pub Touched-first :
      (b c : ℤ) (p : Pixel) (ps : List Pixel) → P p → b ≡ side p → Side b c ps → Touched c (p ∷ ps)
  Touched-first b c p ps h e (inl k) = inl (h, k ∙ e)
  Touched-first b c p ps h e (inr s) = inr s

  pub Side-step :
      (a b c : ℤ) (p : Pixel) (ps : List Pixel)
      → P p
      → (b ≡ a) ⊎ (b ≡ side p)
      → Side b c ps
      → Side a c (p ∷ ps)
  Side-step a b c p ps h (inl e) k = Side-skip a b c p ps e k
  Side-step a b c p ps h (inr e) k = inr (Touched-first b c p ps h e k)

abbrev pub left : Pixel → ℤ
left p = pos p.x

abbrev pub top : Pixel → ℤ
top p = pos p.y

-- The box holds a pixel.
abbrev pub IsStarted : PngCompareResult → Type 0
IsStarted r = pos 0 ≤ℤ r.diff_max_x

pub InBox-Grows : {r q : PngCompareResult} {p : Pixel} → Grows r q → InBox r p → InBox q p
InBox-Grows g b = omega arith

pub Grows-trans : {r q s : PngCompareResult} → Grows r q → Grows q s → Grows r s
Grows-trans g k = omega arith

-- The four sides of a box.
pub record SameBox (r q : PngCompareResult) : Type 0 where
  pub min_x : q.diff_min_x ≡ r.diff_min_x
  pub max_x : q.diff_max_x ≡ r.diff_max_x
  pub min_y : q.diff_min_y ≡ r.diff_min_y
  pub max_y : q.diff_max_y ≡ r.diff_max_y

pub same-Grows : {r s q : PngCompareResult} → SameBox r s → Grows s q → Grows r q
same-Grows {r} {s} {q} b g = record {
  min_x = rw b.min_x at g.min_x;
  max_x = rw b.max_x at g.max_x;
  min_y = rw b.min_y at g.min_y;
  max_y = rw b.max_y at g.max_y;
}

module _ (r : PngCompareResult) (p : Pixel) where
  pub grow_box-InBox : InBox (grow_box r p) p
  unfolding grow_box
  grow_box-InBox = ground arith

  pub grow_box-Grows : IsStarted r → Grows r (grow_box r p)
  unfolding grow_box
  grow_box-Grows h = ground arith

  pub grow_box-IsStarted : IsStarted (grow_box r p)
  unfolding grow_box
  grow_box-IsStarted = ground arith

  -- Each side stays or moves to the new pixel.
  pub grow_box_sides :
      let q = grow_box r p in
      ((q.diff_min_x ≡ r.diff_min_x) ⊎ (q.diff_min_x ≡ pos p.x))
      × ((q.diff_max_x ≡ r.diff_max_x) ⊎ (q.diff_max_x ≡ pos p.x))
      × ((q.diff_min_y ≡ r.diff_min_y) ⊎ (q.diff_min_y ≡ pos p.y))
      × ((q.diff_max_y ≡ r.diff_max_y) ⊎ (q.diff_max_y ≡ pos p.y))
  unfolding grow_box
  grow_box_sides = ground arith

  -- The first pixel makes the box.
  pub grow_box_first :
      r.diff_max_x ≡ negsuc 0
      → let q = grow_box r p in
        (q.diff_min_x ≡ pos p.x)
        × (q.diff_max_x ≡ pos p.x)
        × (q.diff_min_y ≡ pos p.y)
        × (q.diff_max_y ≡ pos p.y)
  unfolding grow_box
  grow_box_first h = ground arith
