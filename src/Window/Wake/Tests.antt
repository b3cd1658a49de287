-- ===== src/Window/Wake/Tests.antt =====
-- A click that arrives in two parts, with a put_rect between them.
use serena_de.Prelude.{ℕ, ◌≡◌, refl, true, false, [], ◌∷◌, ◌++◌, List, arith}
use serena_de.Prelude.Int.{pos}
use serena_de.Window.Wake.Order.{Handled, arrivals, at_start, turns-at_start}
use serena_de.Window.Wake.Progress.{IsDrained, turns-IsDrained}
use serena_de.Window.Wake.Stranded.{stranded, turns-stranded}
use serena_de.Window.Wake.{Turn, arrives, reads, polls, notified, puts, turn, turns, poll}
use serena_de.Window.{Context, button_press, button_release}
use serena_de.X11Input.{KeyApi}

abbrev api : KeyApi
api = record {
  KeyCode = ℕ;
  key_code = λ k. 1;
  code_point_to_key_code = λ c. c;
  mod_shift = 1;
  mod_ctrl = 2;
  mod_alt = 4;
  mod_super = 8;
  is_press = 128;
}

abbrev context : Context ℕ
context = record {
  has_image = true;
  depth = 24;
  width = 4;
  fb = λ a. a;
  image_data = λ a. 0;
  zero_copy = false;
  use_shm = false;
  mapper = record { buttons = 0; last_x = pos 0; last_y = pos 0; width = pos 4; height = pos 4 };
  requests = [];
  delivered = [];
}

abbrev click : List Turn
click =
    arrives (button_press (pos 1) (pos 1) 1)
    ∷ polls
    ∷ puts (record { x = 0; y = 0; width = 2; height = 2 })
    ∷ reads
    ∷ arrives (button_release (pos 1) (pos 1) 1)
    ∷ []

turns-at_start_example :
    Handled api context (arrivals click) (turns api 4096 click (at_start api context))
turns-at_start_example = turns-at_start api 4096 context click

turns-IsDrained_example :
    IsDrained api context
      (arrivals click)
      (turns api 4096 (click ++ polls ∷ notified ∷ []) (at_start api context))
unfolding turns turn poll
turns-IsDrained_example = turns-IsDrained api 4096 context click (omega arith) refl

turns-stranded_example :
    turns api 4096
      (arrives (button_press (pos 1) (pos 1) 1) ∷ reads ∷ polls ∷ notified ∷ polls ∷ [])
      (at_start api context)
    ≡ stranded api context (button_press (pos 1) (pos 1) 1 ∷ [])
turns-stranded_example =
    turns-stranded api 4096 context (button_press (pos 1) (pos 1) 1) (polls ∷ notified ∷ polls ∷ [])
      (tt, (tt, (tt, tt)))
