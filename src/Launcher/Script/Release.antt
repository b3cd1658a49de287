-- ===== src/Launcher/Script/Release.antt =====
-- The mouse buttons in the commands of replay_script, src/Launcher/main.cpp.
use serena_de.CString.{CString, c_string, text, equal}
use serena_de.Launcher.Script.{
  ScriptApi, InputChannels, Effect, write_mouse_packet, mouse_move, mouse_click, mouse_release,
  mouse_drag, drag_steps, step_count, key_press, key_code_for_name, write_key_event,
}
use serena_de.Launcher.Script.Lines.{
  from, scan_word, skipped, run_move, run_click, run_drag, run_release, run_action, run_mouse,
  run_delay, run_key, run_command, run_line,
}
use serena_de.Prelude.{
  ℕ, ◌≡◌, refl, Bool, false, ◌&&◌, List, [], ◌∷◌, ◌++◌, Option, none, some, inl, inr, Every,
  if-Every, Bool-cases, Option-cases, range_from,
}
use serena_de.Prelude.Int.{ℤ, pos, ltb_ℤ}

-- The buttons that the last packet names, or those held before where none is written.
abbrev pub held : {K : Type 0} → ℕ → List (Effect K) → ℕ
held b [] = b
held b (Effect.mouse p ∷ es) = held p.buttons es
held b (Effect.sleep ms ∷ es) = held b es
held b (Effect.keyboard k ∷ es) = held b es

held-append :
    {K : Type 0} (b : ℕ) (es fs : List (Effect K)) → held b (es ++ fs) ≡ held (held b es) fs
held-append b [] fs = refl
held-append b (Effect.mouse p ∷ es) fs = held-append p.buttons es fs
held-append b (Effect.sleep ms ∷ es) fs = held-append b es fs
held-append b (Effect.keyboard k ∷ es) fs = held-append b es fs

-- The line is a `mouse press`.
abbrev pub names : CString → Option CString → Bool
names name none = false
names name (some w) = equal w name

abbrev pub presses : List ℕ → Bool
presses line =
    names (text "mouse") (scan_word 31 (c_string line))
    && names (text "press") (scan_word 31 (from 5 line))

module _ (api : ScriptApi) (ch : InputChannels) where
  abbrev Released : Option (List (Effect api.KeyCode)) → Type 0
  Released = Every (λ es. held 0 es ≡ 0)

  run_move-Released : (r : List ℤ × CString) → Released (run_move api ch r)
  unfolding run_move mouse_move write_mouse_packet
  run_move-Released ([], rest) = tt
  run_move-Released (x ∷ [], rest) = tt
  run_move-Released (x ∷ y ∷ xs, rest) = refl

  run_click-Released : (r : List ℤ × CString) → Released (run_click api ch r)
  unfolding run_click mouse_click write_mouse_packet
  run_click-Released ([], rest) = tt
  run_click-Released (x ∷ [], rest) = tt
  run_click-Released (x ∷ y ∷ xs, rest) = refl

  run_release-Released : (r : List ℤ × CString) → Released (run_release api ch r)
  unfolding run_release mouse_release write_mouse_packet
  run_release-Released ([], rest) = tt
  run_release-Released (x ∷ [], rest) = tt
  run_release-Released (x ∷ y ∷ xs, rest) = refl

  mouse_drag-held : (x1 y1 x2 y2 steps : ℤ) → held 0 (mouse_drag api ch x1 y1 x2 y2 steps) ≡ 0
  unfolding mouse_drag write_mouse_packet
  mouse_drag-held x1 y1 x2 y2 steps =
      held-append _
        (drag_steps api ch x1 y1 x2 y2 (step_count steps) (range_from 1 (step_count steps))) _

  run_drag-Released : (r : List ℤ × CString) → Released (run_drag api ch r)
  unfolding run_drag
  run_drag-Released ([], rest) = tt
  run_drag-Released (a ∷ [], rest) = tt
  run_drag-Released (a ∷ b ∷ [], rest) = tt
  run_drag-Released (a ∷ b ∷ c ∷ [], rest) = tt
  run_drag-Released (a ∷ b ∷ c ∷ d ∷ [], rest) = mouse_drag-held a b c d (pos 0)
  run_drag-Released (a ∷ b ∷ c ∷ d ∷ e ∷ es, rest) = mouse_drag-held a b c d e

  run_delay-Released : (r : List ℤ × CString) → Released (run_delay api ch r)
  unfolding run_delay
  run_delay-Released ([], rest) = tt
  run_delay-Released (ms ∷ xs, rest) = elim (Bool-cases (ltb_ℤ ms (pos 0))) [
    | inl negative ↦ rw (negative, Every) tt
    | inr fine ↦ rw (fine, Every) refl
  ]

  key_press-Released : (name : CString) → Released (key_press api ch name)
  unfolding key_press write_key_event
  key_press-Released name = elim (Option-cases (key_code_for_name api name)) [
    | inl unknown ↦ rw (unknown, key_press, Every) tt
    | inr (code, e) ↦ rw (e, key_press, Every) refl
  ]

  run_key-Released : (line : List ℕ) → Released (run_key api ch line)
  unfolding run_key
  run_key-Released line = elim (Option-cases (scan_word 31 (from 4 line))) [
    | inl missing ↦ rw (missing, run_key, Every) tt
    | inr (name, e) ↦ rw (e, run_key) (key_press-Released name)
  ]

  run_action-Released :
      (action : CString) (line : List ℕ)
      → equal action (text "press") ≡ false
      → Released (run_action api ch action line)
  unfolding run_action
  run_action-Released action line other =
      if-Every _ (equal action (text "move")) _ _ (run_move-Released _) (
        if-Every _ (equal action (text "click")) _ _ (run_click-Released _) (
          if-Every _ (equal action (text "drag")) _ _ (run_drag-Released _) (
            rw other (if-Every _ (equal action (text "release")) _ _ (run_release-Released _) tt))))

  run_mouse-Released :
      (line : List ℕ)
      → names (text "press") (scan_word 31 (from 5 line)) ≡ false
      → Released (run_mouse api ch line)
  unfolding run_mouse
  run_mouse-Released line other = elim (Option-cases (scan_word 31 (from 5 line))) [
    | inl missing ↦ rw (missing, run_mouse, Every) tt
    | inr (action, e) ↦ rw (e, run_mouse) (run_action-Released action line (rw (e, names) at other))
  ]

  run_command-Released :
      (command : CString) (line : List ℕ)
      → equal command (text "mouse") && names (text "press") (scan_word 31 (from 5 line)) ≡ false
      → Released (run_command api ch command line)
  unfolding run_command
  run_command-Released command line other =
      if-Every _ (equal command (text "delay")) _ _ (run_delay-Released _)
        (elim (Bool-cases (equal command (text "mouse"))) [
          | inl is_mouse ↦ rw is_mouse (run_mouse-Released line (rw is_mouse at other))
          | inr not_mouse ↦
              rw not_mouse (if-Every _ (equal command (text "key")) _ _ (run_key-Released line) tt)
        ])

  run_line-Every : (line : List ℕ) → presses line ≡ false → Released (run_line api ch line)
  unfolding run_line
  run_line-Every line other =
      if-Every _ (skipped (c_string line)) _ _ refl
        (elim (Option-cases (scan_word 31 (c_string line))) [
          | inl missing ↦ rw (missing, Every) tt
          | inr (command, e) ↦ rw e (run_command-Released command line (rw (e, names) at other))
        ])

  -- A line of the script that is no `mouse press` leaves no mouse button held, when none was held
  -- before it and the line is carried out: the last packet it writes, if it writes any, names none.
  pub run_line-Released :
      (line : List ℕ) (es : List (Effect api.KeyCode))
      → presses line ≡ false
      → run_line api ch line ≡ some es
      → held 0 es ≡ 0
  run_line-Released line es other e = rw (e, Every) at (run_line-Every line other)
