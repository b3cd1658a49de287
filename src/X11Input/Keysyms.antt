-- ===== src/X11Input/Keysyms.antt =====
-- raw_key_for of src/WindowServerX11/X11Context.cpp: an X key event as a neutral key. The two Xlib
-- lookups are data: how many bytes XLookupString wrote, the first of them, and the keysym.
use serena_de.Prelude.{ℕ, ◌&&◌, ltb, leb, if◌then◌else◌}
use serena_de.X11Input.{
  RawKey, no_key, escape, tab, return, backspace, insert, delete, home, end, left, up, right, down,
  page_up, page_down, f1, f2, f3, f4, f5, f6, f7, f8, f9, f10, f11, f12, left_shift, right_shift,
  left_control, right_control, left_alt, right_alt, caps_lock, char,
}

-- The keysyms that the switch names; the rest are `other`.
pub data Keysym : Type 0 where
  xk_escape xk_tab xk_return xk_kp_enter xk_backspace xk_insert xk_delete xk_home xk_end : Keysym
  xk_left xk_up xk_right xk_down xk_page_up xk_page_down : Keysym
  xk_f1 xk_f2 xk_f3 xk_f4 xk_f5 xk_f6 xk_f7 xk_f8 xk_f9 xk_f10 xk_f11 xk_f12 : Keysym
  xk_shift_l xk_shift_r xk_control_l xk_control_r xk_alt_l xk_alt_r xk_caps_lock : Keysym
  other : Keysym

pub record KeyLookup : Type 0 where
  pub count : ℕ
  pub first : ℕ
  pub keysym : Keysym

unfoldable pub keysym_key : Keysym → RawKey
keysym_key xk_escape = escape
keysym_key xk_tab = tab
keysym_key xk_return = return
keysym_key xk_kp_enter = return
keysym_key xk_backspace = backspace
keysym_key xk_insert = insert
keysym_key xk_delete = delete
keysym_key xk_home = home
keysym_key xk_end = end
keysym_key xk_left = left
keysym_key xk_up = up
keysym_key xk_right = right
keysym_key xk_down = down
keysym_key xk_page_up = page_up
keysym_key xk_page_down = page_down
keysym_key xk_f1 = f1
keysym_key xk_f2 = f2
keysym_key xk_f3 = f3
keysym_key xk_f4 = f4
keysym_key xk_f5 = f5
keysym_key xk_f6 = f6
keysym_key xk_f7 = f7
keysym_key xk_f8 = f8
keysym_key xk_f9 = f9
keysym_key xk_f10 = f10
keysym_key xk_f11 = f11
keysym_key xk_f12 = f12
keysym_key xk_shift_l = left_shift
keysym_key xk_shift_r = right_shift
keysym_key xk_control_l = left_control
keysym_key xk_control_r = right_control
keysym_key xk_alt_l = left_alt
keysym_key xk_alt_r = right_alt
keysym_key xk_caps_lock = caps_lock
keysym_key other = no_key

-- The key and the character of an X key event: a printable ASCII character if there is one.
unfoldable pub raw_key_for : KeyLookup → RawKey × ℕ
raw_key_for ev =
    if ltb 0 ev.count && leb 32 ev.first && ltb ev.first 127
    then (char, ev.first)
    else (keysym_key ev.keysym, 0)
