-- ===== src/Window/Creation/Leads.antt =====
-- What create_window of src/WindowServerX11/X11Context.cpp is to leave, said of an outcome.
use serena_de.Prelude.{
  ℕ, ◌*◌, ◌/◌, ◌≡◌, refl, sym, subst, Bool, true, false, Option, none, some, if◌then◌else◌,
}
use serena_de.Window.Creation.{Block, State, Outcome, succeeded, failed, crashed}

-- The window is there, and its image store with the bytes of the screen's depth.
pub record IsStored (width height : ℕ) (s : State) : Type 0 where
  pub has_window : s.has_window ≡ true
  pub has_image : s.has_image ≡ true
  pub width_is : s.width ≡ width
  pub height_is : s.height ≡ height
  pub image : Block
  pub image_is : s.image_data ≡ some image
  pub image_size : image.size ≡ width * height * (s.depth / 8)
  pub copies : s.zero_copy ≡ true → s.depth ≡ 32

-- The framebuffer is there too, with four bytes for each pixel, and shared with the image where no
-- conversion is made; the input mapper knows the size, and the window is painted.
pub record IsReady (width height : ℕ) (s : State) : Type 0 where
  pub stored : IsStored width height s
  pub fb : Block
  pub fb_is : s.fb ≡ some fb
  pub fb_size : fb.size ≡ width * height * 4
  pub shared : s.zero_copy ≡ true → s.fb ≡ s.image_data
  pub viewport : s.viewport ≡ some (width, height)
  pub is_painted : s.is_painted ≡ true

abbrev pub Leads : ℕ → ℕ → State × Outcome → Type 0
Leads width height r = r.1 ≡ succeeded → IsReady width height r.0

abbrev IsSuccess : Outcome → Type 0
IsSuccess succeeded = Unit
IsSuccess _ = ⊥

pub fails : {A : Type 0} → failed ≡ succeeded → A
fails e = absurd (subst IsSuccess (sym e) tt)

pub crashes : {A : Type 0} → crashed ≡ succeeded → A
crashes e = absurd (subst IsSuccess (sym e) tt)

module _ (P : State × Outcome → Type 0) where
  pub if-Holds :
      (b : Bool) (x y : State × Outcome)
      → (b ≡ true → P x)
      → (b ≡ false → P y)
      → P (if b then x else y)
  if-Holds true x y hx hy = hx refl
  if-Holds false x y hx hy = hy refl

  pub Option-Holds :
      (o : Option ℕ) (x : State × Outcome) (f : ℕ → State × Outcome)
      → P x
      → ((v : ℕ) → P (f v))
      → P (elim o [ none ↦ x | some v ↦ f v ])
  Option-Holds none x f hx hf = hx
  Option-Holds (some v) x f hx hf = hf v

module _ (width height : ℕ) where
  pub if-Leads :
      (b : Bool) (x y : State × Outcome)
      → (b ≡ true → Leads width height x)
      → (b ≡ false → Leads width height y)
      → Leads width height (if b then x else y)
  if-Leads = if-Holds (Leads width height)

  pub Option-Leads :
      (o : Option ℕ) (x : State × Outcome) (f : ℕ → State × Outcome)
      → Leads width height x
      → ((v : ℕ) → Leads width height (f v))
      → Leads width height (elim o [ none ↦ x | some v ↦ f v ])
  Option-Leads = Option-Holds (Leads width height)
