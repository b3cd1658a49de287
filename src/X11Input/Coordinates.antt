-- ===== src/X11Input/Coordinates.antt =====
-- deliver_mouse of src/WindowServerX11/X11InputMap.cpp: the scale of its coordinates, and when it
-- delivers. ScreenInput takes `packet.x * width / 0xffff` back.
use native.Mathlib.Nat.{div-add-mod, mod-lt}
use mathlib.Core.Path.{ap₂}
use serena_de.Prelude.{
  ap, ℕ, ◌+◌, ◌-◌, ◌*◌, ◌/◌, ◌%◌, ◌^◌, ◌≤◌, ◌<◌, ◌≡◌, refl, ◌∙◌, Bool, true, false, not, ◌&&◌, ◌||◌,
  List, [], ◌∷◌, ◌==◌, if◌then◌else◌, arith, count_if, length, length-append,
}
use serena_de.Prelude.Int.{ℤ, pos, ◌*ℤ◌, ◌/ℤ◌, int32-pos, ltb_ℤ}
use serena_de.X11Input.{
  RawX11Type, motion, button_down, button_up, key_down, key_up, RawX11Event, KeyApi, Mapper, mouse,
  deliver_mouse, scale_coordinate, button_bit, on_button, dispatch, on_raw, on_raws,
}

-- The 16-bit coordinate of column x of w.
abbrev pub wire : ℕ → ℕ → ℕ
wire x w = x * 65535 / w

bound_core : (x w q r : ℕ) → w * q + r ≡ x * 65535 → x < w → q ≤ 65535
bound_core x w q r e h = grind arith

pub wire-le : (x w : ℕ) → x < w → wire x w ≤ 65535
wire-le x w h = bound_core x w (wire x w) _ (div-add-mod (x * 65535) w) h

times : (x : ℕ) → pos x *ℤ pos 65535 ≡ pos (x * 65535)
unfolding ◌*ℤ◌
times x = ground arith

-- No step leaves the range of an `int` up to the largest coordinate of an X window.
pub scale_coordinate-wire :
    (x w : ℕ) → x < 2 ^ 15 → x < w → scale_coordinate (pos x) (pos w) ≡ pos (wire x w)
unfolding scale_coordinate ◌/ℤ◌
scale_coordinate-wire x w h hw =
    rw (times x, int32-pos (x * 65535) (omega arith))
      (int32-pos (wire x w) (omega (arith, wire-le x w hw)))

back_core :
    (x w q r : ℕ)
    → w * q + r ≡ x * 65535
    → r < w
    → w ≤ 65535
    → q * w / 65535 ≡ (if r == 0 then x else x - 1)
back_core x w q r e hr hw = ground arith

-- Back on the screen the pixel is the same if w divides 65535 x, and its neighbour before it if not.
pub wire_back :
    (x w : ℕ) → x < w → w ≤ 65535 → wire x w * w / 65535 ≡ (if x * 65535 % w == 0 then x else x - 1)
wire_back x w h hw =
    back_core x w (wire x w) (x * 65535 % w) (div-add-mod (x * 65535) w)
      (mod-lt (x * 65535) (omega arith)) hw

positive : (n : ℕ) → 0 < n → ltb_ℤ (pos 0) (pos n) ≡ true
positive n h = ground arith

-- With a viewport of at most 32768 pixels each way, a pointer position inside it reaches ScreenInput as one packet with the held buttons,
-- and stands for the same pixel or, where the 16-bit scale has no exact place, the one before.
pub motion_lands :
    (api : KeyApi) (re : RawX11Event) (s : Mapper) (x y w h : ℕ)
    → re.type ≡ motion
    → re.x ≡ pos x
    → re.y ≡ pos y
    → s.width ≡ pos w
    → s.height ≡ pos h
    → (x < w) × (w ≤ 2 ^ 15) × (y < h) × (h ≤ 2 ^ 15)
    → (px py : ℕ) × ((on_raw api re s).1
        ≡ mouse (record {
          x = pos px;
          y = pos py;
          z = pos 0;
          w = pos 0;
          buttons = s.buttons % 2 ^ 8;
          is_relative = false;
        })
          ∷ [])
      × (px * w / 65535 ≡ (if x * 65535 % w == 0 then x else x - 1))
      × (py * h / 65535 ≡ (if y * 65535 % h == 0 then y else y - 1))
unfolding on_raw dispatch deliver_mouse
motion_lands api re s x y w h et ex ey ew eh (hx, hw, hy, hh) = (
  wire x w,
  wire y h,
  rw (et, dispatch, ex, ey, ew, eh)
      (rw (
        positive w (omega arith),
        positive h (omega arith),
        scale_coordinate-wire x w (omega arith) hx,
        scale_coordinate-wire y h (omega arith) hy,
      )),
  wire_back x w hx (omega arith),
  wire_back y h hy (omega arith),
)

-- Whether the viewport has been set to a size.
abbrev pub has_viewport : Mapper → Bool
has_viewport s = ltb_ℤ (pos 0) s.width && ltb_ℤ (pos 0) s.height

-- Whether an event is one to pass on: keys always, the mouse once there is a viewport, and of its
-- buttons the wheel and the five that have a bit.
abbrev pub is_passed_on : Bool → RawX11Type → ℕ → Bool
is_passed_on viewport key_down b = true
is_passed_on viewport key_up b = true
is_passed_on viewport motion b = viewport
is_passed_on viewport _ b = viewport && (b == 4 || b == 5 || not (button_bit b == 0))

module _ (K : Type 0) where
  length-deliver_mouse :
      (z : ℤ) (s : Mapper) → length (deliver_mouse {K = K} z s) ≡ (if has_viewport s then 1 else 0)
  unfolding deliver_mouse
  length-deliver_mouse z s = ground arith

  on_button_size :
      (press : Bool) (re : RawX11Event) (s : Mapper)
      → let r = on_button {K = K} press re s in
        (length r.1 ≡ (if is_passed_on (has_viewport s) button_down re.button then 1 else 0))
        × (r.0.width ≡ s.width)
        × (r.0.height ≡ s.height)
  unfolding on_button deliver_mouse
  on_button_size press re s = ground arith

module _ (api : KeyApi) (re : RawX11Event) (s : Mapper) where
  dispatch_size :
      (t : RawX11Type)
      → let r = dispatch api t re s in
        (length r.1 ≡ (if is_passed_on (has_viewport s) t re.button then 1 else 0))
        × (r.0.width ≡ s.width)
        × (r.0.height ≡ s.height)
  unfolding dispatch
  dispatch_size motion = (length-deliver_mouse api.KeyCode (pos 0) _, refl, refl)
  dispatch_size button_down = on_button_size api.KeyCode true re s
  dispatch_size button_up = on_button_size api.KeyCode false re s
  dispatch_size key_down = (refl, refl, refl)
  dispatch_size key_up = (refl, refl, refl)

-- Over any sequence of events, as many packets and key events come out as events are to be passed
-- on: none is dropped and none comes twice.
pub length-on_raws :
    (api : KeyApi) (res : List RawX11Event) (s : Mapper)
    → length (on_raws api res s).1
      ≡ count_if (λ re. is_passed_on (has_viewport s) re.type re.button) res
unfolding on_raws on_raw
length-on_raws api [] s = refl
length-on_raws api (re ∷ res) s =
    length-append (on_raw api re s).1 (on_raws api res (on_raw api re s).0).1
    ∙ ap₂ (λ (m n : ℕ). m + n) (dispatch_size api re s re.type).0
        (length-on_raws api res (on_raw api re s).0
          ∙ ap (λ v. count_if (λ r. is_passed_on v r.type r.button) res) same_viewport)
  where
    same_viewport : has_viewport (on_raw api re s).0 ≡ has_viewport s
    same_viewport = rw ((dispatch_size api re s re.type).1, (dispatch_size api re s re.type).2)
