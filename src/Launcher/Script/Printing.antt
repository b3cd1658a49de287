-- ===== src/Launcher/Script/Printing.antt =====
-- Scripts that are printed from commands, for replay_script of src/Launcher/main.cpp.
use serena_de.CString.{CString, text, digits_onto}
use serena_de.Launcher.Script.{
  ScriptApi, InputChannels, Effect, mouse_move, mouse_click, mouse_press, mouse_release, mouse_drag,
  key_press,
}
use serena_de.Launcher.Script.Lines.{Replay, then_rest}
use serena_de.Prelude.Int.{pos}
use serena_de.Prelude.{
  ℕ, zero, suc, ◌^◌, ◌+◌, ◌*◌, ◌/◌, ◌%◌, ◌≤◌, ◌<◌, ◌≡◌, ◌≢◌, refl, Bool, true, false, ◌&&◌, List,
  [], ◌∷◌, ◌++◌, Option, some, leb, if◌then◌else◌, All, All-map, length, arith, Bool-cases, inl,
  inr,
}

-- A command of a script. Its numbers are not negative; the button is the right one, or the left.
pub data Command : Type 0 where
  delay : ℕ → Command
  move release : ℕ → ℕ → Command
  click press : ℕ → ℕ → Bool → Command
  drag : ℕ → ℕ → ℕ → ℕ → ℕ → Command
  key : CString → Command

abbrev pub button : Bool → CString
button right = if right then text "right" else text "left"

-- A number in front of a text, behind a blank.
abbrev pub number : ℕ → CString → CString
number v tail = 32 ∷ digits_onto 20 tail v

abbrev pub numbers : List ℕ → CString → CString
numbers [] tail = tail
numbers (v ∷ vs) tail = number v (numbers vs tail)

abbrev pub line_of : Command → CString
line_of (delay ms) = text "delay" ++ numbers (ms ∷ []) []
line_of (move x y) = text "mouse move" ++ numbers (x ∷ y ∷ []) []
line_of (release x y) = text "mouse release" ++ numbers (x ∷ y ∷ []) []
line_of (click x y right) = text "mouse click" ++ numbers (x ∷ y ∷ []) (32 ∷ button right)
line_of (press x y right) = text "mouse press" ++ numbers (x ∷ y ∷ []) (32 ∷ button right)
line_of (drag x y x' y' steps) = text "mouse drag" ++ numbers (x ∷ y ∷ x' ∷ y' ∷ steps ∷ []) []
line_of (key name) = text "key " ++ name

-- One line for each command.
abbrev pub script_of : List Command → List ℕ
script_of [] = []
script_of (c ∷ cs) = line_of c ++ 10 ∷ script_of cs

-- What replay_script is to do for a command.
abbrev pub does : (api : ScriptApi) → InputChannels → Command → Option (List (Effect api.KeyCode))
does api ch (delay ms) = some (Effect.sleep (pos ms) ∷ [])
does api ch (move x y) = some (mouse_move api ch (pos x) (pos y))
does api ch (release x y) = some (mouse_release api ch (pos x) (pos y))
does api ch (click x y right) = some (mouse_click api ch (pos x) (pos y) (button right))
does api ch (press x y right) = some (mouse_press api ch (pos x) (pos y) (button right))
does api ch (drag x y x' y' steps) =
    some (mouse_drag api ch (pos x) (pos y) (pos x') (pos y') (pos steps))
does api ch (key name) = key_press api ch name

-- The commands one after the other, up to a key that has no code.
abbrev pub does_all : (api : ScriptApi) → InputChannels → List Command → Replay api.KeyCode
does_all api ch [] = record { effects = []; is_finished = true }
does_all api ch (c ∷ cs) = then_rest (does api ch c) (does_all api ch cs)

-- A name without blanks and control characters, of 1 to 31 bytes.
pub record IsName (name : CString) : Type 0 where
  pub visible : All (λ c. 33 ≤ c) name
  pub at_most : length name ≤ 31
  pub filled : name ≢ []

-- A number that an `int` holds.
abbrev pub Fits : ℕ → Type 0
Fits v = v < 2 ^ 31

abbrev pub IsWritable : Command → Type 0
IsWritable (delay ms) = All Fits (ms ∷ [])
IsWritable (move x y) = All Fits (x ∷ y ∷ [])
IsWritable (release x y) = All Fits (x ∷ y ∷ [])
IsWritable (click x y right) = All Fits (x ∷ y ∷ [])
IsWritable (press x y right) = All Fits (x ∷ y ∷ [])
IsWritable (drag x y x' y' steps) = All Fits (x ∷ y ∷ x' ∷ y' ∷ steps ∷ [])
IsWritable (key name) = IsName name

-- Bytes that neither end a string nor a line.
abbrev pub IsClean : ℕ → Type 0
IsClean c = 32 ≤ c

abbrev pub are_clean : CString → Bool
are_clean [] = true
are_clean (c ∷ cs) = leb 32 c && are_clean cs

pub are_clean-All :
    (s tail : CString) → are_clean s ≡ true → All IsClean tail → All IsClean (s ++ tail)
are_clean-All [] tail h t = t
are_clean-All (c ∷ cs) tail h t = (ground (arith, h), are_clean-All cs tail (ground (arith, h)) t)

digits_onto-IsClean :
    (fuel : ℕ) (tail : CString) (v : ℕ) → All IsClean tail → All IsClean (digits_onto fuel tail v)
unfolding digits_onto
digits_onto-IsClean zero tail v h = h
digits_onto-IsClean (suc fuel) tail v h = elim (Bool-cases (leb 10 v)) [
  | inl many ↦ rw many (digits_onto-IsClean fuel ((b'0' + v % 10) ∷ tail) (v / 10) (omega arith, h))
  | inr few ↦ rw few (omega arith, h)
]

pub numbers-IsClean :
    (vs : List ℕ) (tail : CString) → All IsClean tail → All IsClean (numbers vs tail)
numbers-IsClean [] tail h = h
numbers-IsClean (v ∷ vs) tail h =
    (omega arith, digits_onto-IsClean 20 (numbers vs tail) v (numbers-IsClean vs tail h))

digits_onto-le :
    (fuel : ℕ) (tail : CString) (v : ℕ) → length (digits_onto fuel tail v) ≤ fuel + length tail
unfolding digits_onto
digits_onto-le zero tail v = omega arith
digits_onto-le (suc fuel) tail v = elim (Bool-cases (leb 10 v)) [
  | inl many ↦ rw many (omega (arith, digits_onto-le fuel ((b'0' + v % 10) ∷ tail) (v / 10)))
  | inr few ↦ rw few (omega arith)
]

numbers-le :
    (vs : List ℕ) (tail : CString) → length (numbers vs tail) ≤ 21 * length vs + length tail
numbers-le [] tail = omega arith
numbers-le (v ∷ vs) tail = omega (arith, digits_onto-le 20 (numbers vs tail) v, numbers-le vs tail)

pub button-IsClean : (right : Bool) → All IsClean (32 ∷ button right)
button-IsClean true = are_clean-All (32 ∷ text "right") [] refl tt
button-IsClean false = are_clean-All (32 ∷ text "left") [] refl tt

button-le : (right : Bool) → length (button right) ≤ 5
button-le true = omega arith
button-le false = omega arith

-- A word, numbers and the text behind them.
line-IsClean :
    (s : CString) (vs : List ℕ) (tail : CString)
    → are_clean s ≡ true
    → All IsClean tail
    → All IsClean (s ++ numbers vs tail)
line-IsClean s vs tail h t = are_clean-All s (numbers vs tail) h (numbers-IsClean vs tail t)

pub line_of-IsClean : (c : Command) → IsWritable c → All IsClean (line_of c)
line_of-IsClean (delay ms) w = line-IsClean (text "delay") (ms ∷ []) [] refl tt
line_of-IsClean (move x y) w = line-IsClean (text "mouse move") (x ∷ y ∷ []) [] refl tt
line_of-IsClean (release x y) w = line-IsClean (text "mouse release") (x ∷ y ∷ []) [] refl tt
line_of-IsClean (click x y right) w =
    line-IsClean (text "mouse click") (x ∷ y ∷ []) (32 ∷ button right) refl (button-IsClean right)
line_of-IsClean (press x y right) w =
    line-IsClean (text "mouse press") (x ∷ y ∷ []) (32 ∷ button right) refl (button-IsClean right)
line_of-IsClean (drag x y x' y' steps) w =
    line-IsClean (text "mouse drag") (x ∷ y ∷ x' ∷ y' ∷ steps ∷ []) [] refl tt
line_of-IsClean (key name) w =
    are_clean-All (text "key ") name refl
      (All-map (λ c. 33 ≤ c) IsClean (λ c h. omega arith) name w.visible)

pub line_of-lt : (c : Command) → IsWritable c → length (line_of c) < 511
line_of-lt (delay ms) w = omega (arith, numbers-le (ms ∷ []) [])
line_of-lt (move x y) w = omega (arith, numbers-le (x ∷ y ∷ []) [])
line_of-lt (release x y) w = omega (arith, numbers-le (x ∷ y ∷ []) [])
line_of-lt (click x y right) w =
    omega (arith, numbers-le (x ∷ y ∷ []) (32 ∷ button right), button-le right)
line_of-lt (press x y right) w =
    omega (arith, numbers-le (x ∷ y ∷ []) (32 ∷ button right), button-le right)
line_of-lt (drag x y x' y' steps) w = omega (arith, numbers-le (x ∷ y ∷ x' ∷ y' ∷ steps ∷ []) [])
line_of-lt (key name) w = omega (arith, w.at_most)
