-- ===== src/Launcher/Script/Scanning.antt =====
-- A printed line in the buffer of replay_script, src/Launcher/main.cpp.
use serena_de.CString.{
  CString, c_string, equal, skip_spaces, is_space, is_digit, read_digits, as_int,
}
use serena_de.CString.Decimal.{IsDigit, digits-Starts, Ends, read_printed, as_int-Fits}
use serena_de.Launcher.Script.{ScriptApi, InputChannels, mouse_click, mouse_press, key_press}
use serena_de.Launcher.Script.Lines.{
  from, word, some_word, scan_word, digits, signed, stored, scan_int, scan_ints, button_name,
  run_move, run_click, run_drag, run_press, run_release, run_action, run_mouse, run_delay, run_key,
  run_command, run_line,
}
use serena_de.Launcher.Script.Printing.{
  Command, delay, move, release, click, press, drag, key, button, number, numbers, numbers-IsClean,
  button-IsClean, line_of, does, IsName, Fits, IsWritable, IsClean,
}
use serena_de.Prelude.Int.{pos}
use serena_de.Prelude.{
  ℕ, zero, suc, ◌≤◌, ◌≡◌, ◌≢◌, refl, sym, ap, ◌∙◌, Bool, true, false, List, [], ◌∷◌, ◌++◌, map,
  some, All, All-map, length, arith, ne→==_false,
}

-- A NUL ends a string.
c_string-cut : (s tail : CString) → All IsClean s → c_string (s ++ 0 ∷ tail) ≡ s
unfolding c_string
c_string-cut [] tail h = refl
c_string-cut (c ∷ cs) tail (h, hs) =
    rw (ne→==_false c 0 (omega arith), c_string-cut cs tail hs) refl

scan_int-digit :
    (c : ℕ) (cs : CString)
    → IsDigit c
    → scan_int (32 ∷ c ∷ cs)
      ≡ some (as_int (pos (read_digits 0 (c ∷ cs)).0), (read_digits 0 (c ∷ cs)).1)
unfolding scan_int signed digits skip_spaces is_space is_digit
scan_int-digit c cs h =
    let read : signed (c ∷ cs) ≡ some (pos (read_digits 0 (c ∷ cs)).0, (read_digits 0 (c ∷ cs)).1) =
      ground arith in
    let blank : skip_spaces (32 ∷ c ∷ cs) ≡ c ∷ cs = ground arith in
    ap (λ s. stored (signed s)) blank ∙ ap stored read

scan_int-number :
    (v : ℕ) (tail : CString) → Fits v → Ends tail → scan_int (number v tail) ≡ some (pos v, tail)
scan_int-number v tail h e =
    let (c, cs, s, d) = digits-Starts tail v in
    ap (λ t. scan_int (32 ∷ t)) s
    ∙ scan_int-digit c cs d
    ∙ ap (λ t. some (as_int (pos (read_digits 0 t).0), (read_digits 0 t).1)) (sym s)
    ∙ ap (λ r. some (as_int (pos r.0), r.1)) (read_printed tail v (omega arith) e)
    ∙ ap (λ z. some (z, tail)) (as_int-Fits (pos v) (h, omega arith))

numbers-Ends : (vs : List ℕ) (tail : CString) → Ends tail → Ends (numbers vs tail)
unfolding is_digit
numbers-Ends [] tail e = e
numbers-Ends (v ∷ vs) tail e = refl

-- As many numbers as are asked for.
scan_ints-numbers :
    (vs : List ℕ) (tail : CString)
    → All Fits vs
    → Ends tail
    → scan_ints (length vs) (numbers vs tail) ≡ (map pos vs, tail)
unfolding scan_ints
scan_ints-numbers [] tail h e = refl
scan_ints-numbers (v ∷ vs) tail (h, hs) e =
    rw (scan_int-number v (numbers vs tail) h (numbers-Ends vs tail e), scan_ints)
      (ap (λ r. (pos v ∷ r.0, r.1)) (scan_ints-numbers vs tail hs e))

-- The numbers of a line in the buffer, with the text behind them.
scan_ints-buffer :
    (vs : List ℕ) (rest tail : CString)
    → All Fits vs
    → Ends rest
    → All IsClean rest
    → scan_ints (length vs) (c_string (numbers vs rest ++ 0 ∷ tail)) ≡ (map pos vs, rest)
scan_ints-buffer vs rest tail fits e clean =
    ap (scan_ints (length vs)) (c_string-cut (numbers vs rest) tail (numbers-IsClean vs rest clean))
    ∙ scan_ints-numbers vs rest fits e

-- The name behind the numbers of a click or a press.
button_name-button : (right : Bool) → button_name (32 ∷ button right) ≡ button right
unfolding scan_word some_word word skip_spaces is_space
button_name-button true = refl
button_name-button false = refl

word-name : (n : ℕ) (name : CString) → All (λ c. 33 ≤ c) name → length name ≤ n → word n name ≡ name
unfolding word is_space
word-name zero [] h l = refl
word-name zero (c ∷ cs) h l = absurd (omega arith)
word-name (suc n) [] h l = refl
word-name (suc n) (c ∷ cs) (h, hs) l =
    let rest = word-name n cs hs (omega arith) in ground (arith, rest)

skip_spaces-name : (name : CString) → All (λ c. 33 ≤ c) name → skip_spaces name ≡ name
unfolding skip_spaces is_space
skip_spaces-name [] h = refl
skip_spaces-name (c ∷ cs) h = ground arith

scan_word-name : (name : CString) → IsName name → scan_word 31 name ≡ some name
unfolding scan_word some_word
scan_word-name name n =
    rw (scan_word, skip_spaces-name name n.visible, word-name 31 name n.visible n.at_most)
      (filled name n.filled)
  where
    filled : (s : CString) → s ≢ [] → some_word s ≡ some s
    filled [] h = absurd (h refl)
    filled (c ∷ cs) h = refl

module _ (api : ScriptApi) (ch : InputChannels) where
  abbrev pub Runs : Command → Type 0
  Runs c = (tail : List ℕ) → run_line api ch (line_of c ++ 0 ∷ tail) ≡ does api ch c

  run_key-name :
      (line : List ℕ) (name : CString)
      → scan_word 31 (from 4 line) ≡ some name
      → run_key api ch line ≡ key_press api ch name
  unfolding run_key
  run_key-name line name e = rw (run_key, e) refl

  -- A line in the buffer does what its command is to do.
  pub run_line-does : (c : Command) → IsWritable c → Runs c
  unfolding run_line c_string scan_word some_word word skip_spaces is_space is_digit equal
      run_command run_mouse run_action run_move run_release run_click run_press run_drag run_delay
      run_key
  run_line-does (delay ms) w tail =
      ap (run_delay api ch) (scan_ints-buffer (ms ∷ []) [] tail w tt tt) ∙ ground arith
  run_line-does (move x y) w tail =
      ap (run_move api ch) (scan_ints-buffer (x ∷ y ∷ []) [] tail w tt tt)
  run_line-does (release x y) w tail =
      ap (run_release api ch) (scan_ints-buffer (x ∷ y ∷ []) [] tail w tt tt)
  run_line-does (click x y right) w tail =
      ap (run_click api ch)
        (scan_ints-buffer (x ∷ y ∷ []) (32 ∷ button right) tail w refl (button-IsClean right))
      ∙ ap (λ b. some (mouse_click api ch (pos x) (pos y) b)) (button_name-button right)
  run_line-does (press x y right) w tail =
      ap (run_press api ch)
        (scan_ints-buffer (x ∷ y ∷ []) (32 ∷ button right) tail w refl (button-IsClean right))
      ∙ ap (λ b. some (mouse_press api ch (pos x) (pos y) b)) (button_name-button right)
  run_line-does (drag x y x' y' steps) w tail =
      ap (run_drag api ch) (scan_ints-buffer (x ∷ y ∷ x' ∷ y' ∷ steps ∷ []) [] tail w tt tt)
  run_line-does (key name) w tail = run_key-name (line_of (key name) ++ 0 ∷ tail) name (
      ap (scan_word 31)
        (c_string-cut name tail (All-map (λ c. 33 ≤ c) IsClean (λ c h. omega arith) name w.visible))
      ∙ scan_word-name name w)
