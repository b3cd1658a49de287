-- ===== src/Launcher/Script.antt =====
-- The scripted input of src/Launcher/main.cpp: write_mouse_packet to key_press, and replay_script.
-- What the launcher writes to the two FIFOs and how long it sleeps is a list of effects. The packet
-- records and KeyCode are Serenity's. Writes that fail are in Writes.antt.
pub mod Drag
pub mod Release
pub mod Lines
pub mod Names
pub mod Fuel
pub mod Printing
pub mod Scanning
pub mod Writes
pub mod RoundTrip
mod Tests
use serena_de.CString.{CString, text, equal, skip_spaces, is_space, is_digit, read_digits}
use serena_de.Prelude.{
  ℕ, zero, suc, ◌+◌, ◌-◌, ◌*◌, Bool, true, false, ◌&&◌, ◌||◌, List, [], ◌∷◌, ◌++◌, Option, none,
  some, leb, ltb, ◌==◌, if◌then◌else◌, length, drop, range_from, map,
}
use serena_de.Prelude.Int.{ℤ, pos, negsuc, sub_ℕ, ◌+ℤ◌, ◌-ℤ◌, ◌*ℤ◌, ◌/ℤ◌, ltb_ℤ, int32}
use serena_de.X11Input.{MousePacket}

-- Kernel/API/KeyCode.h and MousePacket.h: `key name` is the enumerator `Key_<name>`.
pub record ScriptApi : Type 1 where
  pub KeyCode : Type 0
  pub key : CString → KeyCode
  pub left_button : ℕ
  pub right_button : ℕ
  pub is_press : ℕ

pub record KeyRecord (K : Type 0) : Type 0 where
  pub key : K
  pub map_entry_index : ℕ
  pub scancode : ℕ
  pub code_point : ℕ
  pub flags : ℕ
  pub caps_lock_on : Bool

pub record InputChannels : Type 0 where
  pub screen_width : ℤ
  pub screen_height : ℤ

-- What a command does, in order.
pub data Effect (K : Type 0) : Type 0 where
  sleep : ℤ → Effect K
  mouse : MousePacket → Effect K
  keyboard : KeyRecord K → Effect K

-- `x * 0xffff / channels.screen_width`
abbrev pub to_wire : ℤ → ℤ → ℤ
to_wire x size = int32 (x *ℤ pos 65535) /ℤ size

abbrev pub mouse_packet : InputChannels → ℤ → ℤ → ℕ → Bool → MousePacket
mouse_packet ch x y buttons is_relative = record {
  x = if is_relative then x else to_wire x ch.screen_width;
  y = if is_relative then y else to_wire y ch.screen_height;
  z = pos 0;
  w = pos 0;
  buttons = buttons;
  is_relative = is_relative;
}

unfoldable pub write_mouse_packet :
    {K : Type 0} → InputChannels → ℤ → ℤ → ℕ → Bool → List (Effect K)
write_mouse_packet ch x y buttons is_relative =
    Effect.mouse (mouse_packet ch x y buttons is_relative) ∷ []

-- The names of the table, in its order; the code of each is the enumerator of the same name.
abbrev pub key_names : List CString
key_names =
    map (λ c. c ∷ []) (text "ABCDEFGHIJKLMNOPQRSTUVWXYZ0123456789")
    ++ text "Space"
      ∷ text "Tab"
      ∷ text "Return"
      ∷ text "Escape"
      ∷ text "Backspace"
      ∷ text "Delete"
      ∷ []

unfoldable pub find_name : CString → List CString → Option CString
find_name name [] = none
find_name name (entry ∷ entries) =
    let rest = find_name name entries in if equal entry name then some entry else rest

-- A name of one byte is first looked up with a small letter raised.
abbrev pub raise : ℕ → ℕ
raise c = if leb b'a' c && leb c b'z' then c - b'a' + b'A' else c

unfoldable pub key_name : CString → Option CString
key_name (c ∷ []) = elim (find_name (raise c ∷ []) key_names) [
  | some entry ↦ some entry
  | none ↦ find_name (c ∷ []) key_names
]
key_name name = find_name name key_names

abbrev pub key_code_for_name : (api : ScriptApi) → CString → Option api.KeyCode
key_code_for_name api name = elim (key_name name) [
  | none ↦ none
  | some entry ↦ some (api.key entry)
]

-- `a + (b - a) * i / steps`
abbrev pub along : ℤ → ℤ → ℕ → ℕ → ℤ
along a b i steps = int32 (a +ℤ int32 (int32 (b -ℤ a) *ℤ pos i) /ℤ pos steps)

-- Fewer than two steps are ten.
abbrev pub step_count : ℤ → ℕ
step_count (pos n) = if ltb n 2 then 10 else n
step_count (negsuc n) = 10

module _ (api : ScriptApi) (ch : InputChannels) where
  unfoldable pub write_key_event : api.KeyCode → Bool → List (Effect api.KeyCode)
  write_key_event key press =
      Effect.keyboard (record {
        key = key;
        map_entry_index = 0;
        scancode = 0;
        code_point = 0;
        flags = if press then api.is_press else 0;
        caps_lock_on = false;
      })
      ∷ []

  abbrev pub which : CString → ℕ
  which button = if equal button (text "right") then api.right_button else api.left_button

  unfoldable pub mouse_move : ℤ → ℤ → List (Effect api.KeyCode)
  mouse_move x y = write_mouse_packet ch x y 0 false

  unfoldable pub mouse_click : ℤ → ℤ → CString → List (Effect api.KeyCode)
  mouse_click x y button =
      write_mouse_packet ch x y 0 false
      ++ Effect.sleep (pos 20) ∷ write_mouse_packet ch x y (which button) false
      ++ Effect.sleep (pos 40) ∷ write_mouse_packet ch x y 0 false

  unfoldable pub mouse_press : ℤ → ℤ → CString → List (Effect api.KeyCode)
  mouse_press x y button =
      write_mouse_packet ch x y 0 false
      ++ Effect.sleep (pos 20) ∷ write_mouse_packet ch x y (which button) false

  unfoldable pub mouse_release : ℤ → ℤ → List (Effect api.KeyCode)
  mouse_release x y = write_mouse_packet ch x y 0 false

  abbrev pub drag_step : ℤ → ℤ → ℤ → ℤ → ℕ → ℕ → List (Effect api.KeyCode)
  drag_step x1 y1 x2 y2 steps i =
      Effect.sleep (pos 15)
      ∷ write_mouse_packet ch (along x1 x2 i steps) (along y1 y2 i steps) api.left_button false

  unfoldable pub drag_steps : ℤ → ℤ → ℤ → ℤ → ℕ → List ℕ → List (Effect api.KeyCode)
  drag_steps x1 y1 x2 y2 steps [] = []
  drag_steps x1 y1 x2 y2 steps (i ∷ is) =
      drag_step x1 y1 x2 y2 steps i ++ drag_steps x1 y1 x2 y2 steps is

  unfoldable pub mouse_drag : ℤ → ℤ → ℤ → ℤ → ℤ → List (Effect api.KeyCode)
  mouse_drag x1 y1 x2 y2 steps =
      write_mouse_packet ch x1 y1 0 false
      ++ Effect.sleep (pos 20) ∷ write_mouse_packet ch x1 y1 api.left_button false
      ++ drag_steps x1 y1 x2 y2 (step_count steps) (range_from 1 (step_count steps))
      ++ Effect.sleep (pos 20) ∷ write_mouse_packet ch x2 y2 0 false

  unfoldable pub key_press : CString → Option (List (Effect api.KeyCode))
  key_press name = elim (key_code_for_name api name) [
    | none ↦ none
    | some code ↦
        some (write_key_event code true ++ Effect.sleep (pos 30) ∷ write_key_event code false)
  ]
