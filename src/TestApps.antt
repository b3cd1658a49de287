-- ===== src/TestApps.antt =====
-- The programs of src/TestApps that the tests run as apps. What they call of LibGUI, LibConfig and
-- LibDesktop is a parameter; a widget is what was set on it.
pub mod Clipboard
pub mod Config
pub mod Clicks
mod Tests
use serena_de.CString.{CString, text, equal, print_decimal}
use serena_de.Prelude.{
  ℕ, zero, suc, ◌+◌, Bool, true, false, not, List, [], ◌∷◌, ◌++◌, Option, none, some, ltb, ◌==◌,
  get_elem?, if◌then◌else◌,
}
use serena_de.Prelude.Int.{ℤ, pos, negsuc}

-- A widget in a window, and a window on the screen.
pub record Placed : Type 0 where
  pub text_of : CString
  pub x : ℕ
  pub y : ℕ
  pub width : ℕ
  pub height : ℕ

pub record Shown : Type 0 where
  pub window : Placed
  pub widgets : List Placed
  pub is_visible : Bool

-- An error that main returns, an abort, or the app's event loop with its window.
pub data App (A : Type 0) : Type 0 where
  error crash : App A
  running : A → App A

-- GUI::Clipboard, as far as the programs use it.
pub record ClipboardApi : Type 1 where
  pub State : Type 0
  pub set_plain_text : CString → State → State
  pub fetch : State → CString
  -- whether String::from_byte_string takes it
  pub is_utf8 : CString → Bool

module _ (api : ClipboardApi) where
  -- serenity_main of clip_copy.cpp: the window, and the clipboard that it leaves.
  unfoldable pub clip_copy : Bool → api.State → App (Shown × api.State)
  clip_copy false s = error
  clip_copy true s = running (
    record {
      window = record { text_of = text "Copier"; x = 120; y = 140; width = 240; height = 120 };
      widgets =
          record { text_of = text "copied to clipboard"; x = 0; y = 50; width = 240; height = 20 }
          ∷ [];
      is_visible = true;
    },
    api.set_plain_text (text "SERENADE_CLIP_OK") s,
  )

  -- What refresh sets on the label; none is an abort.
  unfoldable pub refresh : api.State → Option CString
  refresh s = elim (api.fetch s) [
    | [] ↦ some (text "(empty)")
    | c ∷ cs ↦ if api.is_utf8 (c ∷ cs) then some (c ∷ cs) else none
  ]

  abbrev pub pasted : CString → Shown
  pasted label = record {
    window = record { text_of = text "Paster"; x = 440; y = 140; width = 280; height = 120 };
    widgets = record { text_of = label; x = 0; y = 50; width = 280; height = 20 } ∷ [];
    is_visible = true;
  }

  -- on_change, for the states that the clipboard takes while the app runs.
  unfoldable pub on_changes : List api.State → CString → App Shown
  unfolding refresh
  on_changes [] label = running (pasted label)
  on_changes (s ∷ ss) label = elim (refresh s) [ none ↦ crash | some t ↦ on_changes ss t ]

  -- serenity_main of clip_paste.cpp.
  unfoldable pub clip_paste : Bool → api.State → List api.State → App Shown
  unfolding on_changes refresh
  clip_paste false s changes = error
  clip_paste true s changes = elim (refresh s) [ none ↦ crash | some t ↦ on_changes changes t ]

-- Config::Client. Each call goes to the server, which may keep something.
pub record ConfigApi : Type 1 where
  pub State : Type 0
  pub read_string : CString → CString → CString → CString → State → CString × State
  pub write_string : CString → CString → CString → CString → State → State
  pub read_i32 : CString → CString → CString → ℤ → State → ℤ × State

abbrev pub equal_ℤ : ℤ → ℤ → Bool
equal_ℤ (pos a) (pos b) = a == b
equal_ℤ (negsuc a) (negsuc b) = a == b
equal_ℤ _ _ = false

module _ (api : ConfigApi) where
  abbrev pub read_key : api.State → CString × api.State
  read_key = api.read_string (text "RobustnessTest") (text "Group") (text "Key") (text "fallback")

  abbrev pub write_key : api.State → api.State
  write_key = api.write_string (text "RobustnessTest") (text "Group") (text "Key") (text "written")

  abbrev pub read_number : api.State → ℤ × api.State
  read_number = api.read_i32 (text "RobustnessTest") (text "Group") (text "Number") (negsuc 41)

  -- main of config_client_test.cpp: its exit status.
  unfoldable pub config_client_test : api.State → ℕ
  config_client_test s =
      let (value, s₁) = read_key s in
      let (value_after_write, s₂) = read_key (write_key s₁) in
      let (number, _) = read_number s₂ in
      if not (equal value (text "fallback"))
      then 1
      else if not (equal value_after_write (text "fallback"))
      then 1
      else if not (equal_ℤ number (negsuc 41))
      then 1
      else 0

-- serenity_main of launch_terminal.cpp, from its arguments; `opens` is Desktop::Launcher::open on the
-- URL of a path.
unfoldable pub launch_terminal : (CString → Bool) → List CString → ℕ
launch_terminal opens [] = 1
launch_terminal opens (program ∷ []) = 1
launch_terminal opens (program ∷ path ∷ rest) = if opens path then 0 else 1

-- on_click of resize_test_window.cpp, on the clicks and the label's text.
unfoldable pub on_click : ℕ × CString → ℕ × CString
on_click (clicks, label) =
    let n = clicks + 1 in
    (n, text "Clicked " ++ (print_decimal n ++ (text " time" ++ (if n == 1 then [] else text "s"))))

unfoldable pub click_times : ℕ → ℕ × CString → ℕ × CString
unfolding on_click
click_times zero s = s
click_times (suc n) s = click_times n (on_click s)

-- serenity_main of resize_test_window.cpp behind a number of clicks.
unfoldable pub resize_test_window : Bool → ℕ → App Shown
unfolding click_times
resize_test_window false clicks = error
resize_test_window true clicks =
    let (_, label) = click_times clicks (0, []) in
    running (record {
      window = record {
        text_of = text "Serenade Input Test";
        x = 100;
        y = 80;
        width = 300;
        height = 200;
      };
      widgets =
          record { text_of = label; x = 0; y = 40; width = 300; height = 20 }
          ∷ record { text_of = text "Clicked 0 times"; x = 105; y = 90; width = 90; height = 28 }
          ∷ [];
      is_visible = true;
    })
