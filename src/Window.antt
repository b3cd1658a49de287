-- ===== src/Window.antt =====
-- src/WindowServerX11: the pixel store and the event pump of X11Context.cpp, once a display is open
-- and create_window has run, and X11ScreenBackend.cpp. Coordinates are those of a rect inside the
-- framebuffer, so they are natural numbers. Xlib is not modelled: what the program asks of it is a
-- list of requests, and the events that XNextEvent returns are data.
pub mod Convert
pub mod Pump
pub mod Wake
pub mod Backend
pub mod Creation
mod Tests
use serena_de.Prelude.{
  ℕ, zero, suc, ◌+◌, ◌*◌, ◌/◌, Bool, true, false, List, [], ◌∷◌, ◌++◌, foldl, up_to, leb, ◌==◌,
  if◌then◌else◌,
}
use serena_de.Prelude.Int.{ℤ, pos}
use serena_de.X11Input.{
  RawX11Type, motion, button_down, button_up, key_down, key_up, RawKey, no_key, RawX11Event, KeyApi,
  Mapper, Delivered, on_raw,
}
use serena_de.X11Input.Keys.{key_event}
use serena_de.X11Input.Keysyms.{KeyLookup}

-- Bytes by address.
abbrev pub Memory : Type 0
Memory = ℕ → ℕ

abbrev pub store : Memory → ℕ → ℕ → Memory
store m a v = λ b. if b == a then v else m b

pub record Rect : Type 0 where
  pub x : ℕ
  pub y : ℕ
  pub width : ℕ
  pub height : ℕ

-- What the context asks of Xlib.
pub data Request : Type 0 where
  shm_put_image : Rect → Request
  put_image : Rect → Request
  flush : Request

-- The context, once m_display is set. `has_image` says whether m_image is; `fb` is the framebuffer; with `zero_copy` the X image is the framebuffer itself.
pub record Context (K : Type 0) : Type 0 where
  pub has_image : Bool
  pub depth : ℕ
  pub width : ℕ
  pub fb : Memory
  pub image_data : Memory
  pub zero_copy : Bool
  pub use_shm : Bool
  pub mapper : Mapper
  pub requests : List Request
  pub delivered : List (Delivered K)

-- One turn of the inner loop: from the pixel at `src` to the pixel at `dst`.
abbrev pub copy_pixel : ℕ → Memory → Memory → ℕ → ℕ → Memory
copy_pixel bpp fb image src dst =
    if leb 3 bpp
    then store (store (store image dst (fb src)) (dst + 1) (fb (src + 1))) (dst + 2) (fb (src + 2))
    else image

-- The inner loop over the columns, from the pixel of this number; `src` and `dst` advance by a pixel.
abbrev pub convert_row : ℕ → Memory → ℕ → ℕ → Memory → Memory
convert_row bpp fb first width image =
    foldl (λ m col. copy_pixel bpp fb m ((first + col) * 4) ((first + col) * bpp)) image
      (up_to width)

abbrev pub convert : ℕ → ℕ → Memory → Rect → Memory → Memory
convert depth width fb r image =
    foldl (λ m row. convert_row (depth / 8) fb ((r.y + row) * width + r.x) r.width m) image
      (up_to r.height)

module _ {K : Type 0} where
  unfoldable pub convert_rect : Rect → Context K → Context K
  convert_rect r c = record c { image_data = convert c.depth c.width c.fb r c.image_data }

  -- The image of a rect, and the request that puts it.
  unfoldable pub put_image_of : Rect → Context K → Context K
  put_image_of r c = record c {
    image_data = (if c.zero_copy then c else convert_rect r c).image_data;
    requests =
        c.requests ++ (if c.use_shm then Request.shm_put_image r else Request.put_image r) ∷ [];
  }

  -- Without an image there is nothing to put.
  unfoldable pub blit : Rect → Context K → Context K
  blit r c = if c.has_image then put_image_of r c else c

  unfoldable pub flush_requests : Context K → Context K
  flush_requests c = record c { requests = c.requests ++ Request.flush ∷ [] }

-- The X events of the switch.
pub data XEvent : Type 0 where
  expose : Rect → XEvent
  motion_notify : ℤ → ℤ → XEvent
  button_press : ℤ → ℤ → ℕ → XEvent
  button_release : ℤ → ℤ → ℕ → XEvent
  key_press : KeyLookup → ℕ → XEvent
  key_release : KeyLookup → ℕ → XEvent
  other_event : XEvent

abbrev pub pointer_event : RawX11Type → ℤ → ℤ → ℕ → RawX11Event
pointer_event type x y button = record {
  type = type;
  x = x;
  y = y;
  button = button;
  key = no_key;
  state = 0;
  key_char = 0;
}

module _ (api : KeyApi) where
  -- x11_deliver_raw
  unfoldable pub deliver : RawX11Event → Context api.KeyCode → Context api.KeyCode
  deliver re c =
      let out = on_raw api re c.mapper in
      record c { mapper = out.0; delivered = c.delivered ++ out.1 }

  unfoldable pub handle : XEvent → Context api.KeyCode → Context api.KeyCode
  handle (expose r) c = blit r c
  handle (motion_notify x y) c = deliver (pointer_event motion x y 0) c
  handle (button_press x y b) c = deliver (pointer_event button_down x y b) c
  handle (button_release x y b) c = deliver (pointer_event button_up x y b) c
  handle (key_press ev state) c = deliver (key_event key_down ev state) c
  handle (key_release ev state) c = deliver (key_event key_up ev state) c
  handle other_event c = c

  -- The loop takes events until XPending finds none; the list is what it takes.
  unfoldable pub pump_events : List XEvent → Context api.KeyCode → Context api.KeyCode
  pump_events [] c = c
  pump_events (ev ∷ evs) c = pump_events evs (handle ev c)

  unfoldable pub put_rect : List XEvent → Rect → Context api.KeyCode → Context api.KeyCode
  put_rect pending r c = if c.has_image then blit r (pump_events pending c) else c
