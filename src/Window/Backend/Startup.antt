-- ===== src/Window/Backend/Startup.antt =====
-- The start of the backend: open, set_head_mode_setting and map_framebuffer of
-- src/WindowServerX11/X11ScreenBackend.cpp, on the context of X11Context.cpp.
use serena_de.Prelude.{
  ℕ, ◌+◌, ◌*◌, ◌%◌, ◌^◌, ◌<◌, ap, ◌≡◌, refl, sym, ◌∙◌, not, Bool, true, false, none, some, arith,
  if◌then◌else◌, subst,
}
use serena_de.Prelude.Int.{pos, to_size}
use serena_de.Window.Backend.{
  Backend, ModeSetting, set_head_mode_setting, point_at, map_window, map_framebuffer,
}
use serena_de.Window.Backend.Modes.{set_head_mode_setting-taken}
use serena_de.Window.Creation.{
  Answers, State, Outcome, if_succeeded, succeeded, failed, crashed, fresh, open_display,
  start_event_pump, open_backend, create_window,
}
use serena_de.Window.Creation.Leads.{IsReady, fails, crashes}
use serena_de.Window.Creation.Ready.{create_window-IsReady}

-- A context as the backend's open leaves it: connected, and otherwise untouched.
record IsOpened (s : State) : Type 0 where
  pub has_display : s.has_display ≡ true
  pub no_window : s.has_window ≡ false
  pub no_shm : s.use_shm ≡ false
  pub no_fb : s.fb ≡ none

Opens : State × Outcome → Type 0
Opens r = r.1 ≡ succeeded → IsOpened r.0

start_event_pump-IsOpened : (a : Answers) (s : State) → IsOpened s → IsOpened (start_event_pump a s)
unfolding start_event_pump
start_event_pump-IsOpened a s o = with_pipe (not s.has_display) s.has_wake_pipe a.makes_pipe
  where
    with_pipe :
        (no_display has_pipe makes : Bool)
        → IsOpened (
            if no_display
            then s
            else if has_pipe
            then s
            else if makes
            then record s { has_wake_pipe = true; pump_threads = s.pump_threads + 1 }
            else s)
    with_pipe true has_pipe makes = o
    with_pipe false true makes = o
    with_pipe false false true = record {
      has_display = o.has_display;
      no_window = o.no_window;
      no_shm = o.no_shm;
      no_fb = o.no_fb;
    }
    with_pipe false false false = o

open_backend-IsOpened :
    (a : Answers) → (open_backend a fresh).1 ≡ succeeded → IsOpened (open_backend a fresh).0
unfolding open_backend open_display Opens
open_backend-IsOpened a = opens a.opens_display
  where
    opens :
        (b : Bool)
        → Opens (
            if_succeeded
              (if b then (record fresh { has_display = true }, succeeded) else (fresh, failed))
              (λ t. (start_event_pump a t, succeeded)))
    opens true h =
        start_event_pump-IsOpened a (record fresh { has_display = true })
          (record { has_display = refl; no_window = refl; no_shm = refl; no_fb = refl })
    opens false h = fails h

-- The memory that the compositor paints is the framebuffer of a ready context, all of it.
pub record Covers (mode : ModeSetting) (b : Backend) (s : State) : Type 0 where
  pub ready : IsReady mode.horizontal_active mode.vertical_active s
  pub pointed : b.framebuffer ≡ some ready.fb
  pub all_of_it : ready.fb.size ≡ b.size_in_bytes
  pub packed : b.pitch ≡ pos (mode.horizontal_active * 4)

area :
    (w v height : ℕ)
    → w * 4 < 2 ^ 31
    → w * 4 * v < 2 ^ 64
    → height ≡ v
    → w * v * 4 ≡ to_size (pos (w * 4)) * height % 2 ^ 64
unfolding to_size
area w v height fits in_size e =
    let small : w * 4 % 2 ^ 64 ≡ w * 4 = omega arith in
    let whole : w * 4 * v % 2 ^ 64 ≡ w * 4 * v = omega arith in
    let order : w * v * 4 ≡ w * 4 * v = omega arith in
    order
    ∙ sym whole
    ∙ ap (λ (n : ℕ). n * v % 2 ^ 64) (sym small)
    ∙ ap (λ (n : ℕ). w * 4 % 2 ^ 64 * n % 2 ^ 64) (sym e)

map_window-Covers :
    (mode : ModeSetting) (b : Backend) (r : State × Outcome)
    → mode.horizontal_active * 4 < 2 ^ 31
    → mode.horizontal_active * 4 * mode.vertical_active < 2 ^ 64
    → b.pitch ≡ pos (mode.horizontal_active * 4)
    → b.height ≡ mode.vertical_active
    → (r.1 ≡ succeeded → IsReady mode.horizontal_active mode.vertical_active r.0)
    → (map_window b r).2 ≡ succeeded
    → Covers mode (map_window b r).0 (map_window b r).1
unfolding point_at
map_window-Covers mode b (t, succeeded) fits in_size pitch height leads h =
    let ready = leads refl in
    record {
      ready = ready;
      pointed = ready.fb_is;
      all_of_it =
          ready.fb_size
          ∙ area mode.horizontal_active mode.vertical_active b.height fits in_size height
          ∙ ap (λ p. to_size p * b.height % 2 ^ 64) (sym pitch);
      packed = pitch;
    }
map_window-Covers mode b (t, failed) fits in_size pitch height leads h = fails h
map_window-Covers mode b (t, crashed) fits in_size pitch height leads h = crashes h

-- When the backend opens, takes a mode and maps its framebuffer, and none of these fails, the context
-- is ready at the mode's size, and the framebuffer that the compositor gets is the context's, of
-- exactly the size in bytes that the backend says, with lines of four bytes for each pixel. A line has
-- fewer than 2^31 bytes, as an `int` holds, and the screen fewer than 2^64.
pub map_framebuffer-Covers :
    (a : Answers) (mode : ModeSetting) (b : Backend)
    → mode.horizontal_active * 4 < 2 ^ 31
    → mode.horizontal_active * 4 * mode.vertical_active < 2 ^ 64
    → (open_backend a fresh).1 ≡ succeeded
    → (set_head_mode_setting mode b).1 ≡ true
    → (map_framebuffer a (set_head_mode_setting mode b).0 (open_backend a fresh).0).2 ≡ succeeded
    → let (b', s', _) =
        map_framebuffer a (set_head_mode_setting mode b).0 (open_backend a fresh).0 in
      Covers mode b' s'
unfolding map_framebuffer
map_framebuffer-Covers a mode b fits in_size opened taken mapped =
    let (s₁, _) = open_backend a fresh in
    let (b₁, _) = set_head_mode_setting mode b in
    let o = open_backend-IsOpened a opened in
    let (width, height, pitch) = set_head_mode_setting-taken mode b fits taken in
    map_window-Covers mode b₁ (create_window a b₁.width b₁.height s₁) fits in_size pitch height
      (λ h.
        subst (λ w. IsReady w mode.vertical_active (create_window a b₁.width b₁.height s₁).0) width
          (subst (λ v. IsReady b₁.width v (create_window a b₁.width b₁.height s₁).0) height
            (create_window-IsReady a b₁.width b₁.height s₁ o.has_display o.no_window o.no_shm h)))
      mapped
