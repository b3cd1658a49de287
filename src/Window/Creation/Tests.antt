-- ===== src/Window/Creation/Tests.antt =====
-- A screen of depth 24 without shared memory.
use serena_de.Prelude.{refl, true, false, some, none}
use serena_de.Window.Creation.Leads.{IsReady}
use serena_de.Window.Creation.Ready.{create_window-IsReady}
use serena_de.Window.Creation.{
  Answers, State, fresh, open_backend, open_display, start_event_pump, create_window, choose_visual,
  make_store, try_shm, make_plain_image, make_framebuffer, paint,
}

abbrev answers : Answers
answers = record {
  opens_display = true;
  makes_pipe = true;
  default_depth = 24;
  masks = some (0xFF0000, 0x00FF00, 0x0000FF);
  creates_window = true;
  wants_shm = false;
  has_shm = true;
  shmget = λ size. true;
  shmat = none;
  shm_image = true;
  plain_image = true;
  image_malloc = λ size. some 4096;
  fb_malloc = λ size. some 1000000;
}

abbrev opened : State
opened = (open_backend answers fresh).0

create_window-IsReady_example : IsReady 64 48 (create_window answers 64 48 opened).0
unfolding open_backend open_display start_event_pump create_window choose_visual make_store try_shm
    make_plain_image make_framebuffer paint
create_window-IsReady_example = create_window-IsReady answers 64 48 opened refl refl refl refl
