-- ===== src/Launcher/Options/Tests.antt =====
-- A command line with the two required options.
use serena_de.CString.{CString, text, equal}
use serena_de.Launcher.Options.Bounds.{IsComplete, parse_args-IsComplete}
use serena_de.Launcher.Options.Parsing.{
  Setting, field, final, use_x11, set_to, written, parse_args-written,
}
use serena_de.Launcher.Options.{
  Float, Options, Flag, flag_of, set_option, kind, Parsed, parse_loop, take_positional, finish,
  parse_args, defaults,
}
use serena_de.Prelude.{◌≡◌, refl, List, [], ◌∷◌, some}
use serena_de.Prelude.Int.{ℤ, negsuc, pos}

abbrev float : Float
float = record { Double = ℤ; atof = λ s. pos 0; minus_one = negsuc 0 }

settings : List Setting
unfolding kind
settings =
    set_to Flag.res (text "/res") refl ∷ use_x11 ∷ set_to Flag.screenshot (text "out.png") refl ∷ []

abbrev chosen : Options float
chosen = record (defaults float) {
  res_root = some (text "/res");
  x11 = mathlib.Core.Bool.true;
  screenshot_path = some (text "out.png");
}

abbrev argv : List CString
argv =
    text "--res"
    ∷ text "/res"
    ∷ text "--x11"
    ∷ text "--screenshot"
    ∷ text "out.png"
    ∷ text "WindowServer"
    ∷ text "Calculator"
    ∷ []

abbrev parsed : Parsed float
parsed = record {
  options = chosen;
  window_server = text "WindowServer";
  app = text "Calculator";
  app_args = text "Calculator" ∷ [];
}

accepted : parse_args float argv ≡ some parsed
unfolding parse_args parse_loop flag_of equal kind set_option finish take_positional
accepted = refl

parse_args-IsComplete_example : IsComplete argv parsed
parse_args-IsComplete_example = parse_args-IsComplete float argv parsed accepted

parse_args-written_example :
    (parse_args float (written settings (text "WindowServer" ∷ text "Calculator" ∷ []))
      ≡ some parsed)
    × ((f : Flag) → field f chosen ≡ final f settings (field f (defaults float)))
unfolding settings set_option flag_of equal
parse_args-written_example =
    parse_args-written float settings (text "WindowServer") (text "Calculator") [] chosen refl refl
      refl refl refl
