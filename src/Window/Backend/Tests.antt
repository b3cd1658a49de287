-- ===== src/Window/Backend/Tests.antt =====
-- A screen of depth 24, and one whose framebuffer cannot be allocated at first.
use serena_de.Prelude.{◌≡◌, refl, true, false, some, none, arith}
use serena_de.Prelude.Int.{pos, int32}
use serena_de.Window.Backend.Retry.{map_framebuffer-again}
use serena_de.Window.Backend.Startup.{Covers, map_framebuffer-Covers}
use serena_de.Window.Backend.{
  Backend, ModeSetting, set_head_mode_setting, point_at, map_framebuffer,
}
use serena_de.Window.Creation.{
  Answers, State, fresh, succeeded, open_backend, open_display, start_event_pump, create_window,
  choose_visual, make_store, try_shm, make_plain_image, make_framebuffer, paint,
}

abbrev answers : Answers
answers = record {
  opens_display = true;
  makes_pipe = true;
  default_depth = 24;
  masks = some (0xFF0000, 0x00FF00, 0x0000FF);
  creates_window = true;
  wants_shm = false;
  has_shm = true;
  shmget = λ size. true;
  shmat = none;
  shm_image = true;
  plain_image = true;
  image_malloc = λ size. some 4096;
  fb_malloc = λ size. some 1000000;
}

abbrev mode : ModeSetting
mode = record { horizontal_stride = pos 0; horizontal_active = 64; vertical_active = 48 }

abbrev backend : Backend
backend = record { width = 0; height = 0; pitch = pos 0; size_in_bytes = 0; framebuffer = none }

abbrev context : State
context = (open_backend answers fresh).0

abbrev set : Backend
set = (set_head_mode_setting mode backend).0

map_framebuffer-Covers_example :
    let (b', s', _) = map_framebuffer answers set context in Covers mode b' s'
unfolding map_framebuffer point_at set_head_mode_setting open_backend open_display start_event_pump
    create_window choose_visual make_store try_shm make_plain_image make_framebuffer paint int32
map_framebuffer-Covers_example =
    map_framebuffer-Covers answers mode backend (omega arith) (omega arith) refl refl refl

abbrev short_of_memory : Answers
short_of_memory = record answers { fb_malloc = λ size. none }

map_framebuffer-again_example :
    let s' = (map_framebuffer short_of_memory set context).1 in
    map_framebuffer answers set s' ≡ (point_at none set, s', succeeded)
unfolding map_framebuffer point_at set_head_mode_setting open_backend open_display start_event_pump
    create_window choose_visual make_store try_shm make_plain_image make_framebuffer paint int32
map_framebuffer-again_example =
    map_framebuffer-again short_of_memory answers set context refl refl refl refl refl
