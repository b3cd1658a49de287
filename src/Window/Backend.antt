-- ===== src/Window/Backend.antt =====
-- src/WindowServerX11/X11ScreenBackend.cpp: the mode setting and the flushes. Widths and heights
-- are not negative.
pub mod Modes
pub mod Startup
pub mod Retry
mod Tests
use serena_de.Prelude.{ℕ, ◌*◌, ◌%◌, ◌^◌, Bool, not, List, [], ◌∷◌, Option, none, if◌then◌else◌}
use serena_de.Prelude.Int.{ℤ, pos, int32, eq_ℤ, to_size}
use serena_de.Window.{Context, Rect, XEvent, put_rect, flush_requests}
use serena_de.Window.Creation.{
  Block, Answers, State, Outcome, succeeded, failed, crashed, create_window,
}
use serena_de.X11Input.{KeyApi}

-- The fields of the mode setting that are not constantly zero.
pub record ModeSetting : Type 0 where
  pub horizontal_stride : ℤ
  pub horizontal_active : ℕ
  pub vertical_active : ℕ

pub record Backend : Type 0 where
  pub width : ℕ
  pub height : ℕ
  pub pitch : ℤ
  pub size_in_bytes : ℕ
  pub framebuffer : Option Block

-- The stride of packed lines: a product of size_t, cast to `int`.
abbrev pub packed_stride : ModeSetting → ℤ
packed_stride mode = int32 (pos (mode.horizontal_active * 4))

-- The stride that is taken: zero asks for the packed one.
abbrev pub stride_of : ModeSetting → ℤ
stride_of mode =
    if eq_ℤ mode.horizontal_stride (pos 0) then packed_stride mode else mode.horizontal_stride

-- The backend afterwards, and whether the call succeeds.
unfoldable pub set_head_mode_setting : ModeSetting → Backend → Backend × Bool
set_head_mode_setting mode b =
    let set = record b { height = mode.vertical_active; pitch = stride_of mode } in
    if not (eq_ℤ (packed_stride mode) (stride_of mode))
    then (set, mathlib.Core.Bool.false)
    else (record set { width = mode.horizontal_active }, mathlib.Core.Bool.true)

unfoldable pub get_head_mode_setting : Backend → ModeSetting
get_head_mode_setting b = record {
  horizontal_stride = b.pitch;
  horizontal_active = b.width;
  vertical_active = b.height;
}

-- There is a single buffer, and nothing to make safe.
abbrev pub set_head_buffer : ℕ → Backend → Backend
set_head_buffer index b = b

abbrev pub set_safe_head_mode_setting : Backend → Backend × Bool
set_safe_head_mode_setting b = (b, mathlib.Core.Bool.true)

-- map_framebuffer once create_window has succeeded.
unfoldable pub point_at : Option Block → Backend → Backend
point_at pixels b = record b {
  size_in_bytes = to_size b.pitch * b.height % 2 ^ 64;
  framebuffer = pixels;
}

-- What map_framebuffer makes of what create_window has done; an error is returned at once.
abbrev pub map_window : Backend → State × Outcome → Backend × State × Outcome
map_window b (t, succeeded) = (point_at t.fb b, t, succeeded)
map_window b (t, failed) = (b, t, failed)
map_window b (t, crashed) = (b, t, crashed)

-- The backend and the context afterwards, and how it ended.
unfoldable pub map_framebuffer : Answers → Backend → State → Backend × State × Outcome
unfolding point_at
map_framebuffer a b s = map_window b (create_window a b.width b.height s)

unfoldable pub unmap_framebuffer : Backend → Backend
unmap_framebuffer b = record b { framebuffer = none }

module _ (api : KeyApi) where
  unfoldable pub put_rects : List (List XEvent × Rect) → Context api.KeyCode → Context api.KeyCode
  put_rects [] c = c
  put_rects ((pending, r) ∷ rs) c = put_rects rs (put_rect api pending r c)

  -- Each rect with the events that are pending when it is put.
  unfoldable pub flush_framebuffer_rects :
      List (List XEvent × Rect) → Context api.KeyCode → Context api.KeyCode
  unfolding put_rects
  flush_framebuffer_rects rs c = flush_requests (put_rects rs c)

  unfoldable pub flush_framebuffer :
      List XEvent → Backend → Context api.KeyCode → Context api.KeyCode
  flush_framebuffer pending b c =
      flush_requests
        (put_rect api pending (record { x = 0; y = 0; width = b.width; height = b.height }) c)
