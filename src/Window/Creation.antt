-- ===== src/Window/Creation.antt =====
-- X11Context::open_display, create_window and the deferred job of start_event_pump of
-- src/WindowServerX11/X11Context.cpp, and X11ScreenBackend::open, up to the first put_rect. What Xlib,
-- shmget and malloc answer is a record. Widths and heights are those of an `int`, so that the products
-- of the sizes fit a size_t.
pub mod Leads
pub mod Ready
mod Tests
use serena_de.Prelude.{
  ℕ, ◌+◌, ◌*◌, ◌/◌, Bool, true, false, not, ◌&&◌, Option, none, some, ◌==◌, if◌then◌else◌,
}

-- Memory from an address on.
pub record Block : Type 0 where
  pub address : ℕ
  pub size : ℕ

pub record Answers : Type 0 where
  -- XOpenDisplay and pipe()
  pub opens_display : Bool
  pub makes_pipe : Bool
  -- DefaultDepth, and the masks if XMatchVisualInfo finds a TrueColor visual
  pub default_depth : ℕ
  pub masks : Option (ℕ × ℕ × ℕ)
  pub creates_window : Bool
  -- SERENADE_X11_USE_SHM is set and XShmQueryExtension holds; shmget; shmat, which fails with -1
  pub wants_shm : Bool
  pub has_shm : Bool
  pub shmget : ℕ → Bool
  pub shmat : Option ℕ
  -- XCreateImage on shared and on other memory
  pub shm_image : Bool
  pub plain_image : Bool
  pub image_malloc : ℕ → Option ℕ
  pub fb_malloc : ℕ → Option ℕ

-- The fields of the context; a null pointer is none. `is_painted` is whether the viewport is set, the
-- window mapped and the first rect put.
pub record State : Type 0 where
  pub has_display : Bool
  pub has_window : Bool
  pub depth : ℕ
  pub width : ℕ
  pub height : ℕ
  pub fb : Option Block
  pub image_data : Option Block
  pub has_image : Bool
  pub zero_copy : Bool
  pub use_shm : Bool
  pub viewport : Option (ℕ × ℕ)
  pub is_painted : Bool
  pub has_wake_pipe : Bool
  pub pump_threads : ℕ

pub data Outcome : Type 0 where
  succeeded failed crashed : Outcome

abbrev pub fresh : State
fresh = record {
  has_display = false;
  has_window = false;
  depth = 24;
  width = 0;
  height = 0;
  fb = none;
  image_data = none;
  has_image = false;
  zero_copy = false;
  use_shm = false;
  viewport = none;
  is_painted = false;
  has_wake_pipe = false;
  pump_threads = 0;
}

-- An error is returned at once.
abbrev pub if_succeeded : State × Outcome → (State → State × Outcome) → State × Outcome
if_succeeded (s, succeeded) next = next s
if_succeeded (s, failed) next = (s, failed)
if_succeeded (s, crashed) next = (s, crashed)

abbrev pub block : ℕ → ℕ → Option Block
block size address = some (record { address = address; size = size })

module _ (a : Answers) where
  unfoldable pub open_display : State → State × Outcome
  open_display s =
      if s.has_display
      then (s, succeeded)
      else if a.opens_display
      then (record s { has_display = true }, succeeded)
      else (s, failed)

  -- The deferred job of start_event_pump, which runs once the event loop does.
  unfoldable pub start_event_pump : State → State
  start_event_pump s =
      if not s.has_display
      then s
      else if s.has_wake_pipe
      then s
      else if a.makes_pipe
      then record s { has_wake_pipe = true; pump_threads = s.pump_threads + 1 }
      else s

  -- X11ScreenBackend::open
  unfoldable pub open_backend : State → State × Outcome
  unfolding open_display start_event_pump
  open_backend s = if_succeeded (open_display s) (λ t. (start_event_pump t, succeeded))

  abbrev pub masks_match : Bool
  masks_match = elim a.masks [
    | none ↦ true
    | some (red, green, blue) ↦ red == 0xFF0000 && (green == 0x00FF00 && blue == 0x0000FF)
  ]

  unfoldable pub choose_visual : ℕ → ℕ → State → State
  choose_visual width height s = record s {
    width = width;
    height = height;
    depth = a.default_depth;
    zero_copy = a.default_depth == 32 && masks_match;
  }

  abbrev pub image_bytes : State → ℕ
  image_bytes s = s.width * s.height * (s.depth / 8)

  -- The attempt with shared memory; none is a write to the address -1.
  unfoldable pub try_shm : State → Option State
  try_shm s =
      if a.wants_shm && (a.has_shm && a.shmget (image_bytes s))
      then elim a.shmat [
        | none ↦ none
        | some address ↦
            if a.shm_image
            then some (record s {
              image_data = block (image_bytes s) address;
              has_image = true;
              use_shm = true;
            })
            else some (record s { image_data = none; has_image = false })
      ]
      else some s

  unfoldable pub paint : State → State × Outcome
  paint s = (record s { viewport = some (s.width, s.height); is_painted = true }, succeeded)

  unfoldable pub make_framebuffer : State → State × Outcome
  unfolding paint
  make_framebuffer s =
      if s.zero_copy
      then paint (record s { fb = s.image_data })
      else elim (a.fb_malloc (s.width * s.height * 4)) [
        | none ↦ (record s { fb = none }, failed)
        | some address ↦ paint (record s { fb = block (s.width * s.height * 4) address })
      ]

  unfoldable pub make_plain_image : State → State × Outcome
  make_plain_image s = elim (a.image_malloc (image_bytes s)) [
    | none ↦ (record s { image_data = none }, failed)
    | some address ↦
        if a.plain_image
        then make_framebuffer
            (record s { image_data = block (image_bytes s) address; has_image = true })
        else (record s { image_data = block (image_bytes s) address; has_image = false }, failed)
  ]

  unfoldable pub make_store : State → State × Outcome
  make_store s = elim (try_shm s) [
    | none ↦ (s, crashed)
    | some t ↦ if t.use_shm then make_framebuffer t else make_plain_image t
  ]

  unfoldable pub create_window : ℕ → ℕ → State → State × Outcome
  create_window width height s =
      if not s.has_display
      then (s, failed)
      else if s.has_window
      then (s, succeeded)
      else if not a.creates_window
      then (choose_visual width height s, failed)
      else make_store (record (choose_visual width height s) { has_window = true })
