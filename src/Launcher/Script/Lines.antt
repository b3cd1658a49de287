-- ===== src/Launcher/Script/Lines.antt =====
-- replay_script of src/Launcher/main.cpp: the line buffer, the scans at its fixed offsets, and the
-- loop over the file.
use serena_de.CString.{
  CString, c_string, text, equal, skip_spaces, is_space, is_digit, read_digits, as_int,
}
use serena_de.Launcher.Script.{
  ScriptApi, InputChannels, Effect, mouse_move, mouse_click, mouse_press, mouse_release, mouse_drag,
  key_press,
}
use serena_de.Prelude.{
  ℕ, zero, suc, Bool, true, false, ◌||◌, List, [], ◌∷◌, ◌++◌, Option, none, some, ◌==◌,
  if◌then◌else◌, length, drop,
}
use serena_de.Prelude.Int.{ℤ, pos, sub_ℕ, ltb_ℤ}

-- The C string that starts at an offset of the buffer.
abbrev pub from : ℕ → List ℕ → CString
from offset line = c_string (drop offset line)

-- The bytes before the first blank, at most this many.
unfoldable pub word : ℕ → CString → CString
word zero s = []
word (suc n) [] = []
word (suc n) (c ∷ cs) = let rest = word n cs in if is_space c then [] else c ∷ rest

unfoldable pub some_word : CString → Option CString
some_word [] = none
some_word (c ∷ cs) = some (c ∷ cs)

-- `%<n>s`, where nothing follows it in the format.
unfoldable pub scan_word : ℕ → CString → Option CString
unfolding some_word
scan_word n s = some_word (word n (skip_spaces s))

unfoldable pub digits : (ℕ → ℤ) → CString → Option (ℤ × CString)
digits sign [] = none
digits sign (c ∷ cs) =
    let value = read_digits 0 (c ∷ cs) in if is_digit c then some (sign value.0, value.1) else none

unfoldable pub signed : CString → Option (ℤ × CString)
unfolding digits
signed [] = none
signed (c ∷ cs) =
    if c == b'-'
    then digits (sub_ℕ 0) cs
    else if c == b'+'
    then digits pos cs
    else digits pos (c ∷ cs)

abbrev pub stored : Option (ℤ × CString) → Option (ℤ × CString)
stored none = none
stored (some (x, rest)) = some (as_int x, rest)

-- `%d`: what the `int` then holds, and the text behind the number.
unfoldable pub scan_int : CString → Option (ℤ × CString)
unfolding signed
scan_int s = stored (signed (skip_spaces s))

-- `%d %d ...`: the numbers read until one fails, and the text behind them.
unfoldable pub scan_ints : ℕ → CString → List ℤ × CString
scan_ints zero s = ([], s)
scan_ints (suc n) s = elim (scan_int s) [
  | none ↦ ([], s)
  | some (x, rest) ↦ let more = scan_ints n rest in (x ∷ more.0, more.1)
]

-- A button's name where one stands, of at most fifteen bytes.
abbrev pub button_name : CString → CString
button_name s = elim (scan_word 15 s) [ none ↦ text "left" | some button ↦ button ]

-- `line[0] == '\0' || line[0] == '#'`
abbrev pub skipped : CString → Bool
skipped [] = true
skipped (c ∷ _) = c == b'#'

module _ (api : ScriptApi) (ch : InputChannels) where
  abbrev Effects : Type 0
  Effects = List (Effect api.KeyCode)

  -- The branches of a mouse line, from the text at their offset. none is a message and exit(2).
  unfoldable pub run_move : List ℤ × CString → Option Effects
  run_move (x ∷ y ∷ _, _) = some (mouse_move api ch x y)
  run_move _ = none

  unfoldable pub run_click : List ℤ × CString → Option Effects
  run_click (x ∷ y ∷ _, rest) = some (mouse_click api ch x y (button_name rest))
  run_click _ = none

  unfoldable pub run_drag : List ℤ × CString → Option Effects
  run_drag (x1 ∷ y1 ∷ x2 ∷ y2 ∷ [], _) = some (mouse_drag api ch x1 y1 x2 y2 (pos 0))
  run_drag (x1 ∷ y1 ∷ x2 ∷ y2 ∷ steps ∷ _, _) = some (mouse_drag api ch x1 y1 x2 y2 steps)
  run_drag _ = none

  unfoldable pub run_press : List ℤ × CString → Option Effects
  run_press (x ∷ y ∷ _, rest) = some (mouse_press api ch x y (button_name rest))
  run_press _ = none

  unfoldable pub run_release : List ℤ × CString → Option Effects
  run_release (x ∷ y ∷ _, _) = some (mouse_release api ch x y)
  run_release _ = none

  unfoldable pub run_action : CString → List ℕ → Option Effects
  run_action action line =
      if equal action (text "move")
      then run_move (scan_ints 2 (from 10 line))
      else if equal action (text "click")
      then run_click (scan_ints 2 (from 11 line))
      else if equal action (text "drag")
      then run_drag (scan_ints 5 (from 10 line))
      else if equal action (text "press")
      then run_press (scan_ints 2 (from 11 line))
      else if equal action (text "release")
      then run_release (scan_ints 2 (from 13 line))
      else none

  unfoldable pub run_mouse : List ℕ → Option Effects
  run_mouse line = elim (scan_word 31 (from 5 line)) [
    | none ↦ none
    | some action ↦ run_action action line
  ]

  unfoldable pub run_delay : List ℤ × CString → Option Effects
  run_delay (ms ∷ _, _) = if ltb_ℤ ms (pos 0) then none else some (Effect.sleep ms ∷ [])
  run_delay ([], _) = none

  unfoldable pub run_key : List ℕ → Option Effects
  run_key line = elim (scan_word 31 (from 4 line)) [
    | none ↦ none
    | some name ↦ key_press api ch name
  ]

  unfoldable pub run_command : CString → List ℕ → Option Effects
  run_command command line =
      if equal command (text "delay")
      then run_delay (scan_ints 1 (from 5 line))
      else if equal command (text "mouse")
      then run_mouse line
      else if equal command (text "key")
      then run_key line
      else none

  -- One turn of the loop on the stripped line; an empty line and a comment do nothing.
  unfoldable pub run_line : List ℕ → Option Effects
  run_line line = if skipped (c_string line) then some [] else elim (scan_word 31 (c_string line)) [
    | none ↦ none
    | some command ↦ run_command command line
  ]

-- fgets: the bytes up to the end of the line, at most this many, and what is left of the file.
unfoldable pub get_line : ℕ → List ℕ → List ℕ × List ℕ
get_line zero file = ([], file)
get_line (suc n) [] = ([], [])
get_line (suc n) (c ∷ cs) =
    let more = get_line n cs in if c == 10 then (c ∷ [], cs) else (c ∷ more.0, more.1)

-- The buffer after bytes are written to its front: what they do not reach stays.
abbrev pub overwrite : List ℕ → List ℕ → List ℕ
overwrite bytes line = bytes ++ drop (length bytes) line

-- `line[strcspn(line, "\r\n")] = 0`
unfoldable pub strip : List ℕ → List ℕ
strip [] = []
strip (c ∷ cs) = let rest = strip cs in if c == 0 || c == 13 || c == 10 then 0 ∷ cs else c ∷ rest

abbrev pub read_line : List ℕ → List ℕ → List ℕ
read_line chunk line = strip (overwrite (chunk ++ 0 ∷ []) line)

-- What is done, and whether the script was read to its end; if not, the program leaves with status 2.
pub record Replay (K : Type 0) : Type 0 where
  pub effects : List (Effect K)
  pub is_finished : Bool

abbrev pub after : {K : Type 0} → List (Effect K) → Replay K → Replay K
after es r = record { effects = es ++ r.effects; is_finished = r.is_finished }

-- A line and the rest of the script; at a bad line the program leaves.
abbrev pub then_rest : {K : Type 0} → Option (List (Effect K)) → Replay K → Replay K
then_rest none rest = record { effects = []; is_finished = false }
then_rest (some es) rest = after es rest

-- The loop over a file that fopen opened, from the buffer that the lines before it left. On fuel:
-- each turn takes at least one byte.
unfoldable pub replay_lines :
    (api : ScriptApi) → InputChannels → ℕ → List ℕ → List ℕ → Replay api.KeyCode
replay_lines api ch fuel [] line = record { effects = []; is_finished = true }
replay_lines api ch zero (c ∷ cs) line = record { effects = []; is_finished = false }
replay_lines api ch (suc fuel) (c ∷ cs) line =
    let chunk = get_line 511 (c ∷ cs) in
    let next = read_line chunk.0 line in
    let rest = replay_lines api ch fuel chunk.1 next in then_rest (run_line api ch next) rest

abbrev pub replay_script : (api : ScriptApi) → InputChannels → List ℕ → List ℕ → Replay api.KeyCode
replay_script api ch file line = replay_lines api ch (length file) file line
