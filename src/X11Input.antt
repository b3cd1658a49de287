-- ===== src/X11Input.antt =====
-- src/WindowServerX11: X11InputBackend.h (the neutral records), X11InputMap.cpp (the mapper from
-- them to Serenity's key events and mouse packets) and raw_key_for of X11Context.cpp.
-- KeyCode.h, MousePacket.h and ScreenInput are Serenity's: their constants are the parameter
-- `KeyApi`, and what reaches ScreenInput is the list of `Delivered` values.
pub mod Keysyms
pub mod Keys
pub mod Buttons
pub mod Coordinates
mod Tests
use Prim.Native.Nat.{bit_and, bit_or}
use serena_de.Prelude.{
  ℕ, ◌+◌, ◌-◌, ◌%◌, ◌^◌, Bool, true, false, not, ◌&&◌, ◌||◌, List, [], ◌∷◌, ◌++◌, ◌==◌,
  if◌then◌else◌,
}
use serena_de.Prelude.Int.{ℤ, pos, negsuc, ◌*ℤ◌, ◌/ℤ◌, ltb_ℤ, int32}

pub data RawX11Type : Type 0 where
  motion button_down button_up key_down key_up : RawX11Type

pub data RawKey : Type 0 where
  no_key : RawKey
  escape tab return backspace insert delete home end : RawKey
  left up right down page_up page_down : RawKey
  f1 f2 f3 f4 f5 f6 f7 f8 f9 f10 f11 f12 : RawKey
  left_shift right_shift left_control right_control left_alt right_alt caps_lock : RawKey
  char : RawKey

pub record RawX11Event : Type 0 where
  pub type : RawX11Type
  pub x : ℤ
  pub y : ℤ
  pub button : ℕ
  pub key : RawKey
  pub state : ℕ
  pub key_char : ℕ

-- The enumerators of Serenity's KeyCode that the mapper names.
pub data KeyName : Type 0 where
  key_invalid : KeyName
  key_escape key_tab key_return key_backspace key_insert key_delete key_home key_end : KeyName
  key_left key_up key_right key_down key_page_up key_page_down : KeyName
  key_f1 key_f2 key_f3 key_f4 key_f5 key_f6 key_f7 key_f8 key_f9 key_f10 key_f11 key_f12 : KeyName
  key_left_shift key_right_shift key_left_control key_right_control : KeyName
  key_left_alt key_right_alt key_caps_lock : KeyName

-- Kernel/API/KeyCode.h: the enumeration, its function on code points, and the flag bits.
pub record KeyApi : Type 1 where
  pub KeyCode : Type 0
  pub key_code : KeyName → KeyCode
  pub code_point_to_key_code : ℕ → KeyCode
  pub mod_shift : ℕ
  pub mod_ctrl : ℕ
  pub mod_alt : ℕ
  pub mod_super : ℕ
  pub is_press : ℕ

pub record KeyEvent (K : Type 0) : Type 0 where
  pub key : K
  pub map_entry_index : ℕ
  pub scancode : ℕ
  pub code_point : ℕ
  pub flags : ℕ

pub record MousePacket : Type 0 where
  pub x : ℤ
  pub y : ℤ
  pub z : ℤ
  pub w : ℤ
  pub buttons : ℕ
  pub is_relative : Bool

-- What ScreenInput receives.
pub data Delivered (K : Type 0) : Type 0 where
  mouse : MousePacket → Delivered K
  keyboard : KeyEvent K → Delivered K

-- The mapper's static variables.
pub record Mapper : Type 0 where
  pub buttons : ℕ
  pub last_x : ℤ
  pub last_y : ℤ
  pub width : ℤ
  pub height : ℤ

pub initial : Mapper
initial = record { buttons = 0; last_x = pos 0; last_y = pos 0; width = pos 0; height = pos 0 }

abbrev pub has_bits : ℕ → ℕ → Bool
has_bits word mask = not (bit_and word mask == 0)

-- X_ShiftMask, X_ControlMask, X_Mod1Mask and X_Mod4Mask are bits 0, 2, 3 and 6.
unfoldable pub modifiers_from_state : KeyApi → ℕ → ℕ
modifiers_from_state api state =
    let shift = if has_bits state (2 ^ 0) then bit_or 0 api.mod_shift else 0 in
    let ctrl = if has_bits state (2 ^ 2) then bit_or shift api.mod_ctrl else shift in
    let alt = if has_bits state (2 ^ 3) then bit_or ctrl api.mod_alt else ctrl in
    if has_bits state (2 ^ 6) then bit_or alt api.mod_super else alt

-- The switch of key_code_for; `char` is handled before it.
unfoldable pub key_name_for : RawKey → KeyName
key_name_for escape = key_escape
key_name_for tab = key_tab
key_name_for return = key_return
key_name_for backspace = key_backspace
key_name_for insert = key_insert
key_name_for delete = key_delete
key_name_for home = key_home
key_name_for end = key_end
key_name_for left = key_left
key_name_for up = key_up
key_name_for right = key_right
key_name_for down = key_down
key_name_for page_up = key_page_up
key_name_for page_down = key_page_down
key_name_for f1 = key_f1
key_name_for f2 = key_f2
key_name_for f3 = key_f3
key_name_for f4 = key_f4
key_name_for f5 = key_f5
key_name_for f6 = key_f6
key_name_for f7 = key_f7
key_name_for f8 = key_f8
key_name_for f9 = key_f9
key_name_for f10 = key_f10
key_name_for f11 = key_f11
key_name_for f12 = key_f12
key_name_for left_shift = key_left_shift
key_name_for right_shift = key_right_shift
key_name_for left_control = key_left_control
key_name_for right_control = key_right_control
key_name_for left_alt = key_left_alt
key_name_for right_alt = key_right_alt
key_name_for caps_lock = key_caps_lock
key_name_for no_key = key_invalid
key_name_for char = key_invalid

abbrev pub is_char : RawKey → Bool
is_char char = true
is_char _ = false

unfoldable pub key_code_for : (api : KeyApi) → RawX11Event → api.KeyCode
key_code_for api re =
    if is_char re.key
    then api.code_point_to_key_code re.key_char
    else api.key_code (key_name_for re.key)

-- A window coordinate on the 16-bit scale. Both steps are `int` arithmetic.
unfoldable pub scale_coordinate : ℤ → ℤ → ℤ
scale_coordinate value extent = int32 (int32 (value *ℤ pos 0xffff) /ℤ extent)

unfoldable pub deliver_mouse : {K : Type 0} → ℤ → Mapper → List (Delivered K)
deliver_mouse z s =
    if ltb_ℤ (pos 0) s.width && ltb_ℤ (pos 0) s.height
    then mouse (record {
      x = scale_coordinate s.last_x s.width;
      y = scale_coordinate s.last_y s.height;
      z = z;
      w = pos 0;
      buttons = s.buttons % 2 ^ 8;
      is_relative = false;
    })
      ∷ []
    else []

-- The bit of an X button number; 0 for a button that is not tracked.
unfoldable pub button_bit : ℕ → ℕ
button_bit b =
    if b == 1
    then 1
    else if b == 2
    then 4
    else if b == 3
    then 2
    else if b == 8
    then 8
    else if b == 9
    then 16
    else 0

-- `s_buttons |= bit` and `s_buttons &= ~bit` on 32 bits.
unfoldable pub set_button : Bool → ℕ → ℕ → ℕ
set_button true bit buttons = bit_or buttons bit
set_button false bit buttons = bit_and buttons (2 ^ 32 - 1 - bit)

-- ButtonDown and ButtonUp, with `press` for the first.
unfoldable pub on_button : {K : Type 0} → Bool → RawX11Event → Mapper → Mapper × List (Delivered K)
on_button press re s =
    let b = re.button in
    let moved = record s { last_x = re.x; last_y = re.y } in
    let bit = button_bit b in
    let changed = record moved { buttons = set_button press bit s.buttons } in
    if b == 4 || b == 5
    then (
      moved,
      deliver_mouse (if press then (if b == 4 then pos 1 else negsuc 0) else pos 0) moved,
    )
    else if bit == 0
    then (moved, [])
    else (changed, deliver_mouse (pos 0) changed)

-- KeyDown and KeyUp, with `press` for the first.
unfoldable pub on_key : (api : KeyApi) → Bool → RawX11Event → KeyEvent api.KeyCode
on_key api press re = record {
  key = key_code_for api re;
  map_entry_index = 0;
  scancode = 0;
  code_point = if is_char re.key then re.key_char else 0;
  flags = bit_or (modifiers_from_state api re.state) (if press then api.is_press else 0) % 2 ^ 8;
}

dispatch :
    (api : KeyApi) → RawX11Type → RawX11Event → Mapper → Mapper × List (Delivered api.KeyCode)
dispatch api motion re s =
    let moved = record s { last_x = re.x; last_y = re.y } in (moved, deliver_mouse (pos 0) moved)
dispatch api button_down re s = on_button true re s
dispatch api button_up re s = on_button false re s
dispatch api key_down re s = (s, keyboard (on_key api true re) ∷ [])
dispatch api key_up re s = (s, keyboard (on_key api false re) ∷ [])

-- on_raw, which x11_deliver_raw calls.
unfoldable pub on_raw :
    (api : KeyApi) → RawX11Event → Mapper → Mapper × List (Delivered api.KeyCode)
unfolding dispatch
on_raw api re s = dispatch api re.type re s

unfoldable pub x11_set_viewport : ℤ → ℤ → Mapper → Mapper
x11_set_viewport width height s = record s { width = width; height = height }

-- A sequence of events, and all that they deliver, in order.
unfoldable pub on_raws :
    (api : KeyApi) → List RawX11Event → Mapper → Mapper × List (Delivered api.KeyCode)
on_raws api [] s = (s, [])
on_raws api (re ∷ res) s =
    let (s', out) = on_raw api re s in let (s'', outs) = on_raws api res s' in (s'', out ++ outs)
