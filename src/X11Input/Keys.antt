-- ===== src/X11Input/Keys.antt =====
-- A key event from X to ScreenInput: pump_events and raw_key_for of X11Context.cpp, and on_raw of
-- X11InputMap.cpp, in src/WindowServerX11.
use Prim.Native.Nat.{bit_or}
use serena_de.Prelude.{
  ℕ, ◌%◌, ◌^◌, ◌≡◌, refl, Bool, false, [], ◌∷◌, ltb, leb, if◌then◌else◌, arith, ◌&&◌,
}
use serena_de.Prelude.Int.{pos}
use serena_de.X11Input.Keysyms.{
  Keysym, xk_escape, xk_tab, xk_return, xk_kp_enter, xk_backspace, xk_insert, xk_delete, xk_home,
  xk_end, xk_left, xk_up, xk_right, xk_down, xk_page_up, xk_page_down, xk_f1, xk_f2, xk_f3, xk_f4,
  xk_f5, xk_f6, xk_f7, xk_f8, xk_f9, xk_f10, xk_f11, xk_f12, xk_shift_l, xk_shift_r, xk_control_l,
  xk_control_r, xk_alt_l, xk_alt_r, xk_caps_lock, other, KeyLookup, raw_key_for, keysym_key,
}
use serena_de.X11Input.{
  RawX11Type, is_char, RawX11Event, KeyName, KeyApi, keyboard, Mapper, key_code_for, key_name_for,
  modifiers_from_state, on_key, dispatch, on_raw,
}

-- The neutral event that pump_events makes of an X key event: `state` is narrowed to a byte.
abbrev pub key_event : RawX11Type → KeyLookup → ℕ → RawX11Event
key_event type ev state =
    let (key, key_char) = raw_key_for ev in
    record {
      type = type;
      x = pos 0;
      y = pos 0;
      button = 0;
      key = key;
      state = state % 2 ^ 8;
      key_char = key_char;
    }

-- The enumerator of Serenity that has a keysym's name; both Return keys are Return.
abbrev pub namesake : Keysym → KeyName
namesake xk_escape = KeyName.key_escape
namesake xk_tab = KeyName.key_tab
namesake xk_return = KeyName.key_return
namesake xk_kp_enter = KeyName.key_return
namesake xk_backspace = KeyName.key_backspace
namesake xk_insert = KeyName.key_insert
namesake xk_delete = KeyName.key_delete
namesake xk_home = KeyName.key_home
namesake xk_end = KeyName.key_end
namesake xk_left = KeyName.key_left
namesake xk_up = KeyName.key_up
namesake xk_right = KeyName.key_right
namesake xk_down = KeyName.key_down
namesake xk_page_up = KeyName.key_page_up
namesake xk_page_down = KeyName.key_page_down
namesake xk_f1 = KeyName.key_f1
namesake xk_f2 = KeyName.key_f2
namesake xk_f3 = KeyName.key_f3
namesake xk_f4 = KeyName.key_f4
namesake xk_f5 = KeyName.key_f5
namesake xk_f6 = KeyName.key_f6
namesake xk_f7 = KeyName.key_f7
namesake xk_f8 = KeyName.key_f8
namesake xk_f9 = KeyName.key_f9
namesake xk_f10 = KeyName.key_f10
namesake xk_f11 = KeyName.key_f11
namesake xk_f12 = KeyName.key_f12
namesake xk_shift_l = KeyName.key_left_shift
namesake xk_shift_r = KeyName.key_right_shift
namesake xk_control_l = KeyName.key_left_control
namesake xk_control_r = KeyName.key_right_control
namesake xk_alt_l = KeyName.key_left_alt
namesake xk_alt_r = KeyName.key_right_alt
namesake xk_caps_lock = KeyName.key_caps_lock
namesake other = KeyName.key_invalid

-- The lookup gave a printable ASCII character.
abbrev pub is_printable : KeyLookup → Bool
is_printable ev = ltb 0 ev.count && leb 32 ev.first && ltb ev.first 127

keysym_named :
    (k : Keysym) → (is_char (keysym_key k) ≡ false) × (key_name_for (keysym_key k) ≡ namesake k)
unfolding keysym_key key_name_for
keysym_named xk_escape = (refl, refl)
keysym_named k = (ground arith, ground arith)

module _ (api : KeyApi) (press : Bool) (ev : KeyLookup) (state : ℕ) (s : Mapper) where
  abbrev type : RawX11Type
  type = if press then RawX11Type.key_down else RawX11Type.key_up

  -- The key and the character that reach ScreenInput.
  abbrev expected_key : api.KeyCode
  expected_key =
      if is_printable ev
      then api.code_point_to_key_code ev.first
      else api.key_code (namesake ev.keysym)

  -- An X key press or release reaches ScreenInput as one key event: for a printable character the
  -- key of that character, with its code point, and else the key that has the keysym's name, with
  -- none. The flags are the modifiers and, for a press alone, the press bit; the mouse is untouched.
  pub key_arrives : on_raw api (key_event type ev state) s ≡ (
    s,
    keyboard (record {
      key = expected_key;
      map_entry_index = 0;
      scancode = 0;
      code_point = if is_printable ev then ev.first else 0;
      flags =
          bit_or (modifiers_from_state api (state % 2 ^ 8)) (if press then api.is_press else 0)
          % 2 ^ 8;
    })
        ∷ [],
  )
  unfolding on_raw dispatch on_key key_code_for raw_key_for
  key_arrives = ground (arith, keysym_named ev.keysym)
