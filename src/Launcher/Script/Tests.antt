-- ===== src/Launcher/Script/Tests.antt =====
-- Script lines on a screen of 1024 by 768.
use serena_de.CString.{
  CString, c_string, text, equal, skip_spaces, is_space, is_digit, read_digits, as_int,
}
use serena_de.Launcher.Script.Drag.{mouse_drag-arrives}
use serena_de.Launcher.Script.Lines.{
  word, scan_word, scan_int, scan_ints, run_line, run_command, run_mouse, run_action, run_click,
  replay_script, Replay,
}
use serena_de.Launcher.Script.Printing.{Command, delay, click, drag, key, move, script_of, does_all}
use serena_de.Launcher.Script.RoundTrip.{replay_script-script_of}
use serena_de.Launcher.Script.Writes.{IsPlayed, play, play-IsPlayed}
use serena_de.Launcher.Script.Release.{held, run_line-Released}
use serena_de.Launcher.Script.{
  ScriptApi, InputChannels, Effect, mouse_packet, drag_steps, mouse_click, mouse_drag,
}
use serena_de.Prelude.{ℕ, ◌≡◌, refl, true, false, ltb, List, [], ◌∷◌, ◌++◌, some, arith, range_from}
use serena_de.Prelude.Int.{pos, int32, ◌-ℤ◌, ◌*ℤ◌}

abbrev api : ScriptApi
api = record { KeyCode = CString; key = λ n. n; left_button = 1; right_button = 2; is_press = 128 }

abbrev channels : InputChannels
channels = record { screen_width = pos 1024; screen_height = pos 768 }

mouse_drag-arrives_example :
    mouse_drag api channels (pos 10) (pos 20) (pos 40) (pos 5) (pos 3)
    ≡ Effect.mouse (mouse_packet channels (pos 10) (pos 20) 0 false)
        ∷ Effect.sleep (pos 20)
        ∷ Effect.mouse (mouse_packet channels (pos 10) (pos 20) 1 false)
        ∷ drag_steps api channels (pos 10) (pos 20) (pos 40) (pos 5) 3 (range_from 1 2)
      ++ Effect.sleep (pos 15)
        ∷ Effect.mouse (mouse_packet channels (pos 40) (pos 5) 1 false)
        ∷ Effect.sleep (pos 20)
        ∷ Effect.mouse (mouse_packet channels (pos 40) (pos 5) 0 false)
        ∷ []
unfolding ◌-ℤ◌ ◌*ℤ◌
mouse_drag-arrives_example =
    mouse_drag-arrives api channels (pos 10) (pos 20) (pos 40) (pos 5) (pos 3)
      (record { end = omega arith; difference = omega arith; product = omega arith })
      (record { end = omega arith; difference = omega arith; product = omega arith })

abbrev click_line : List ℕ
click_line = text "mouse click 7 9 right" ++ 0 ∷ []

clicked :
    run_line api channels click_line
    ≡ some (mouse_click api channels (pos 7) (pos 9) (text "right"))
unfolding run_line scan_word word c_string skip_spaces is_space equal run_command run_mouse
    run_action run_click scan_ints scan_int is_digit read_digits as_int int32
clicked = refl

run_line-Released_example : held 0 (mouse_click api channels (pos 7) (pos 9) (text "right")) ≡ 0
unfolding scan_word word c_string skip_spaces is_space equal
run_line-Released_example =
    run_line-Released api channels click_line
      (mouse_click api channels (pos 7) (pos 9) (text "right")) refl clicked

abbrev commands : List Command
commands =
    delay 500
    ∷ click 7 9 true
    ∷ drag 10 20 40 5 3
    ∷ key (text "a")
    ∷ key (text "nokey")
    ∷ move 1 2
    ∷ []

replay_script-script_of_example :
    replay_script api channels (script_of commands) [] ≡ does_all api channels commands
replay_script-script_of_example = replay_script-script_of api channels commands [] (
  (omega arith, tt),
  (
    (omega arith, (omega arith, tt)),
    (
      (omega arith, (omega arith, (omega arith, (omega arith, (omega arith, tt))))),
      (
        record { visible = (omega arith, tt); at_most = omega arith; filled = λ e. cc e },
        (
          record {
            visible = (omega arith, (omega arith, (omega arith, (omega arith, (omega arith, tt)))));
            at_most = omega arith;
            filled = λ e. cc e;
          },
          ((omega arith, (omega arith, tt)), tt),
        ),
      ),
    ),
  ),
)

-- The third write of a click fails.
abbrev clicking : Replay CString
clicking = record {
  effects = mouse_click api channels (pos 7) (pos 9) (text "right");
  is_finished = true;
}

play-IsPlayed_example :
    IsPlayed (λ n. ltb n 2) 0 true clicking.effects (play (λ n. ltb n 2) clicking)
play-IsPlayed_example = play-IsPlayed (λ n. ltb n 2) clicking
