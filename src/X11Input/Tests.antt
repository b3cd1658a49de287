-- ===== src/X11Input/Tests.antt =====
-- The mapper on short runs of events.
use Prim.Native.Nat.{bit_or}
use serena_de.Prelude.{
  ℕ, ◌*◌, ◌/◌, ◌-◌, ◌%◌, ◌^◌, ◌<◌, ◌≡◌, refl, true, List, [], ◌∷◌, arith, ◌==◌, if◌then◌else◌,
}
use serena_de.Prelude.Int.{pos}
use serena_de.X11Input.Buttons.{primary, mask, number, held, on_raws-buttons}
use serena_de.X11Input.Coordinates.{motion_lands}
use serena_de.X11Input.Keys.{key_event, key_arrives}
use serena_de.X11Input.Keysyms.{KeyLookup, other}
use serena_de.X11Input.{
  motion, button_down, key_down, no_key, RawX11Type, RawX11Event, KeyApi, Mapper, mouse, keyboard,
  has_bits, modifiers_from_state, on_raw, on_raws,
}

abbrev api : KeyApi
api = record {
  KeyCode = ℕ;
  key_code = λ k. 1;
  code_point_to_key_code = λ c. c;
  mod_shift = 1;
  mod_ctrl = 2;
  mod_alt = 4;
  mod_super = 8;
  is_press = 128;
}

abbrev screen : Mapper
screen = record { buttons = 0; last_x = pos 0; last_y = pos 0; width = pos 1024; height = pos 768 }

abbrev pointer : RawX11Type → ℕ → RawX11Event
pointer type button = record {
  type = type;
  x = pos 10;
  y = pos 20;
  button = button;
  key = no_key;
  state = 0;
  key_char = 0;
}

abbrev run : List RawX11Event
run = pointer motion 0 ∷ pointer button_down 1 ∷ pointer button_down 4 ∷ []

on_raws-buttons_example :
    let b = (on_raws api run screen).0.buttons in
    (b < 32) × (has_bits b (mask primary) ≡ held (number primary) run (has_bits 0 (mask primary)))
on_raws-buttons_example = on_raws-buttons api run screen primary (omega arith)

motion_lands_example :
    (px py : ℕ) × ((on_raw api (pointer motion 0) screen).1
      ≡ mouse (record {
        x = pos px;
        y = pos py;
        z = pos 0;
        w = pos 0;
        buttons = screen.buttons % 2 ^ 8;
        is_relative = mathlib.Core.Bool.false;
      })
        ∷ [])
    × (px * 1024 / 65535 ≡ (if 10 * 65535 % 1024 == 0 then 10 else 10 - 1))
    × (py * 768 / 65535 ≡ (if 20 * 65535 % 768 == 0 then 20 else 20 - 1))
motion_lands_example =
    motion_lands api (pointer motion 0) screen 10 20 1024 768 refl refl refl refl refl
      (omega arith, omega arith, omega arith, omega arith)

-- The key q with the shift key held.
abbrev lookup : KeyLookup
lookup = record { count = 1; first = b'Q'; keysym = other }

key_arrives_example : on_raw api (key_event key_down lookup 1) screen ≡ (
  screen,
  keyboard (record {
    key = b'Q';
    map_entry_index = 0;
    scancode = 0;
    code_point = b'Q';
    flags = bit_or (modifiers_from_state api (1 % 2 ^ 8)) 128 % 2 ^ 8;
  })
      ∷ [],
)
key_arrives_example = key_arrives api true lookup 1 screen
