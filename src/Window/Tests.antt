-- ===== src/Window/Tests.antt =====
-- A framebuffer of four pixels in each line, on a 24-bit server.
use serena_de.Prelude.{ℕ, ◌≡◌, inl, refl, true, false, none, List, [], ◌∷◌, ◌++◌, map, arith}
use serena_de.Prelude.Int.{pos}
use serena_de.Window.Backend.{ModeSetting, Backend, flush_framebuffer_rects}
use serena_de.Window.Convert.{convert_rect-image_data}
use serena_de.Window.Pump.{
  raws_of, all_pending, repainted, request, flush_framebuffer_rects-delivered,
}
use serena_de.Window.{Rect, Request, Context, convert_rect, XEvent, button_press, expose}
use serena_de.X11Input.{KeyApi, on_raws}

abbrev api : KeyApi
api = record {
  KeyCode = ℕ;
  key_code = λ k. 1;
  code_point_to_key_code = λ c. c;
  mod_shift = 1;
  mod_ctrl = 2;
  mod_alt = 4;
  mod_super = 8;
  is_press = 128;
}

abbrev context : Context ℕ
context = record {
  has_image = true;
  depth = 24;
  width = 4;
  fb = λ a. a;
  image_data = λ a. 0;
  zero_copy = false;
  use_shm = true;
  mapper = record { buttons = 0; last_x = pos 0; last_y = pos 0; width = pos 4; height = pos 4 };
  requests = [];
  delivered = [];
}

abbrev corner : Rect
corner = record { x = 1; y = 1; width = 2; height = 2 }

-- The middle byte of the second pixel of the second line.
convert_rect-image_data_example : (convert_rect corner context).image_data 16 ≡ 21
convert_rect-image_data_example =
    convert_rect-image_data corner context (inl refl) (omega arith) 1 1 1 (omega arith)
      (omega arith)

abbrev rects : List (List XEvent × Rect)
rects = (button_press (pos 1) (pos 2) 1 ∷ [], corner) ∷ (expose corner ∷ [], corner) ∷ []

flush_framebuffer_rects-delivered_example :
    let c' = flush_framebuffer_rects api rects context in
    let all = on_raws api (raws_of (all_pending rects)) context.mapper in
    (c'.delivered ≡ [] ++ all.1)
    × (c'.mapper ≡ all.0)
    × (c'.requests ≡ ([] ++ map (request true) (repainted rects)) ++ Request.flush ∷ [])
flush_framebuffer_rects-delivered_example = flush_framebuffer_rects-delivered api rects context refl

abbrev mode : ModeSetting
mode = record { horizontal_stride = pos 0; horizontal_active = 1024; vertical_active = 768 }

abbrev backend : Backend
backend = record { width = 0; height = 0; pitch = pos 0; size_in_bytes = 0; framebuffer = none }
