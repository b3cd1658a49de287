-- ===== src/Window/Convert.antt =====
-- convert_rect of src/WindowServerX11/X11Context.cpp.
use native.Mathlib.Decide.{ℕ_discrete}
use serena_de.Prelude.{
  ℕ, zero, suc, ◌+◌, ◌-◌, ◌*◌, ◌/◌, ◌<◌, ◌≤◌, ◌≡◌, ◌≢◌, ap, sym, ◌∙◌, ◌⊎◌, inl, inr, Bool, false,
  ◌&&◌, up_to, leb, ltb, if◌then◌else◌, arith, loop_keeps, loop_sets, loop_spares, Bool-cases,
  subst,
}
use serena_de.Window.{Memory, Rect, Context, copy_pixel, convert_row, convert, convert_rect}

-- The depths of the visuals that create_window accepts.
abbrev pub IsTrueColor : ℕ → Type 0
IsTrueColor depth = (depth ≡ 24) ⊎ (depth ≡ 32)

abbrev pub contains : Rect → ℕ → ℕ → Bool
contains r x y = (leb r.x x && ltb x (r.x + r.width)) && (leb r.y y && ltb y (r.y + r.height))

-- A number has one row and one column.
cell_unique : (w a u b v : ℕ) → u < w → v < w → a * w + u ≡ b * w + v → (a ≡ b) × (u ≡ v)
cell_unique w zero u zero v hu hv e = ground arith
cell_unique w zero u (suc b) v hu hv e = absurd (grind arith)
cell_unique w (suc a) u zero v hu hv e = absurd (grind arith)
cell_unique w (suc a) u (suc b) v hu hv e =
    let (rows, cols) = cell_unique w a u b v hu hv (grind arith) in (ap suc rows, cols)

module _ (fb : Memory) where
  copies-3 :
      (m : Memory) (p k : ℕ)
      → k < 3
      → copy_pixel 3 fb m (p * 4) (p * 3) (p * 3 + k) ≡ fb (p * 4 + k)
  copies-3 m p zero h = ground arith
  copies-3 m p (suc zero) h = ground arith
  copies-3 m p (suc (suc zero)) h = ground arith
  copies-3 m p (suc (suc (suc k))) h = absurd (omega arith)

  copies-4 :
      (m : Memory) (p k : ℕ)
      → k < 3
      → copy_pixel 4 fb m (p * 4) (p * 4) (p * 4 + k) ≡ fb (p * 4 + k)
  copies-4 m p zero h = ground arith
  copies-4 m p (suc zero) h = ground arith
  copies-4 m p (suc (suc zero)) h = ground arith
  copies-4 m p (suc (suc (suc k))) h = absurd (omega arith)

  spares-3 :
      (m : Memory) (i p k : ℕ)
      → k < 3
      → i ≢ p
      → copy_pixel 3 fb m (i * 4) (i * 3) (p * 3 + k) ≡ m (p * 3 + k)
  spares-3 m i p k h ne = ground arith

  spares-4 :
      (m : Memory) (i p k : ℕ)
      → k < 3
      → i ≢ p
      → copy_pixel 4 fb m (i * 4) (i * 4) (p * 4 + k) ≡ m (p * 4 + k)
  spares-4 m i p k h ne = ground arith

bytes_per_pixel : (depth : ℕ) → IsTrueColor depth → (depth / 8 ≡ 3) ⊎ (depth / 8 ≡ 4)
bytes_per_pixel depth (inl e) = inl (ap (λ d. d / 8) e)
bytes_per_pixel depth (inr e) = inr (ap (λ d. d / 8) e)

module _ (fb : Memory) (bpp : ℕ) (tc : (bpp ≡ 3) ⊎ (bpp ≡ 4)) (p k : ℕ) (h : k < 3) where
  abbrev at : Memory → ℕ
  at m = m (p * bpp + k)

  abbrev wanted : ℕ
  wanted = fb (p * 4 + k)

  copies : (m : Memory) → at (copy_pixel bpp fb m (p * 4) (p * bpp)) ≡ wanted
  copies m = elim tc [ inl e ↦ rw e (copies-3 fb m p k h) | inr e ↦ rw e (copies-4 fb m p k h) ]

  spares : (m : Memory) (i : ℕ) → i ≢ p → at (copy_pixel bpp fb m (i * 4) (i * bpp)) ≡ at m
  spares m i ne = elim tc [
    | inl e ↦ rw e (spares-3 fb m i p k h ne)
    | inr e ↦ rw e (spares-4 fb m i p k h ne)
  ]

  keeps : (m : Memory) (i : ℕ) → at m ≡ wanted → at (copy_pixel bpp fb m (i * 4) (i * bpp)) ≡ wanted
  keeps m i e = elim (ℕ_discrete i p) [ yes same ↦ rw same (copies m) | no ne ↦ spares m i ne ∙ e ]

  row_keeps :
      (first n : ℕ) (m : Memory) → at m ≡ wanted → at (convert_row bpp fb first n m) ≡ wanted
  row_keeps first n m e =
      loop_keeps (λ m col. copy_pixel bpp fb m ((first + col) * 4) ((first + col) * bpp)) at wanted
        (λ m col. keeps m (first + col)) (up_to n) m e

  row_sets :
      (first n col : ℕ)
      → col < n
      → first + col ≡ p
      → (m : Memory) → at (convert_row bpp fb first n m) ≡ wanted
  row_sets first n col lt e m =
      loop_sets (λ m col. copy_pixel bpp fb m ((first + col) * 4) ((first + col) * bpp)) at wanted
        (λ m col. keeps m (first + col)) n 0 col lt
        (λ m'.
          subst (λ i. at (copy_pixel bpp fb m' (i * 4) (i * bpp)) ≡ wanted) (sym e ∙ (omega arith))
            (copies m'))
        m

  row_spares :
      (first n : ℕ)
      → ((col : ℕ) → col < n → first + col ≢ p)
      → (m : Memory) → at (convert_row bpp fb first n m) ≡ at m
  row_spares first n apart m =
      loop_spares (λ m col. copy_pixel bpp fb m ((first + col) * 4) ((first + col) * bpp)) at n 0
        (λ m' col lo hi. spares m' (first + col) (apart col (omega arith))) m

module _ (depth w : ℕ) (fb : Memory) (r : Rect) (tc : IsTrueColor depth) (fits : r.x + r.width ≤ w)
    (x y k : ℕ) (hx : x < w) (hk : k < 3) where
  abbrev p : ℕ
  p = y * w + x

  converts :
      r.x ≤ x
      → x < r.x + r.width
      → r.y ≤ y
      → y < r.y + r.height
      → (m : Memory) → convert depth w fb r m (p * (depth / 8) + k) ≡ fb (p * 4 + k)
  converts x0 x1 y0 y1 m =
      let bytes = bytes_per_pixel depth tc in
      let row_is : r.y + (y - r.y) ≡ y = (omega arith) in
      let col_is : r.x + (x - r.x) ≡ x = (omega arith) in
      loop_sets (λ m row. convert_row (depth / 8) fb ((r.y + row) * w + r.x) r.width m)
        (λ m. m (p * (depth / 8) + k)) (fb (p * 4 + k))
        (λ m row. row_keeps fb (depth / 8) bytes p k hk ((r.y + row) * w + r.x) r.width m) r.height
        0 (y - r.y) (omega arith)
        (λ m'.
          row_sets fb (depth / 8) bytes p k hk ((r.y + (0 + (y - r.y))) * w + r.x) r.width (x - r.x)
            (omega arith)
            (let row0 : r.y + (0 + (y - r.y)) ≡ y = (omega arith) in rw row0 (omega arith)) m')
        m

  leaves :
      contains r x y ≡ false
      → (m : Memory) → convert depth w fb r m (p * (depth / 8) + k) ≡ m (p * (depth / 8) + k)
  leaves out m =
      loop_spares (λ m row. convert_row (depth / 8) fb ((r.y + row) * w + r.x) r.width m)
        (λ m. m (p * (depth / 8) + k)) r.height 0
        (λ m' row lo hi.
          row_spares fb (depth / 8) (bytes_per_pixel depth tc) p k hk ((r.y + row) * w + r.x)
            r.width
            (λ col lt e.
              let (rows, cols) =
                cell_unique w (r.y + row) (r.x + col) y x (omega arith) hx (omega arith) in
              ground arith)
            m')
        m

-- convert_rect, for a rect inside the framebuffer and a depth of 24 or 32: each of the three colour
-- bytes of a pixel of the image is the framebuffer's own byte where the rect contains the pixel, and
-- what it was before where it does not.
pub convert_rect-image_data :
    {K : Type 0} (r : Rect) (c : Context K)
    → IsTrueColor c.depth
    → r.x + r.width ≤ c.width
    → (x y k : ℕ) → x < c.width
    → k < 3
    → (convert_rect r c).image_data ((y * c.width + x) * (c.depth / 8) + k) ≡ (
        if contains r x y
        then c.fb ((y * c.width + x) * 4 + k)
        else c.image_data ((y * c.width + x) * (c.depth / 8) + k))
unfolding convert_rect
convert_rect-image_data r c tc fits x y k hx hk = elim (Bool-cases (contains r x y)) [
  | inl inside ↦
      let x0 : r.x ≤ x = ground arith in
      let x1 : x < r.x + r.width = ground arith in
      let y0 : r.y ≤ y = ground arith in
      let y1 : y < r.y + r.height = ground arith in
      rw inside (converts c.depth c.width c.fb r tc fits x y k hx hk x0 x1 y0 y1 c.image_data)
  | inr outside ↦
      rw outside (leaves c.depth c.width c.fb r tc fits x y k hx hk outside c.image_data)
]
