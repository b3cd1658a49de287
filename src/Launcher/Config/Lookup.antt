-- ===== src/Launcher/Config/Lookup.antt =====
-- A reader of such files, which takes a line `Key=Value` as it stands, and what it finds.
use serena_de.CString.Equality.{split_at-append}
use serena_de.CString.Search.{Differs, avoids-All}
use serena_de.CString.{CString, text, equal, split_at, int_onto}
use serena_de.Launcher.Config.{window_server_config}
use serena_de.Launcher.Json.Value.{emit}
use serena_de.Launcher.Proc.Fields.{int_onto-append, int_onto-below}
use serena_de.Prelude.Int.{ℤ}
use serena_de.Prelude.{
  ℕ, zero, suc, ◌≡◌, refl, ap, ◌∙◌, List, [], ◌∷◌, ◌++◌, Option, none, some, ◌&&◌, ◌==◌,
  if◌then◌else◌, All, All-append, length, ◌≤◌, arith,
}

-- At most so many lines, each ended by a line feed.
unfoldable pub lines_of : ℕ → CString → List CString
lines_of zero s = []
lines_of (suc room) s = elim (split_at 10 s) [ none ↦ [] | some p ↦ p.0 ∷ lines_of room p.1 ]

abbrev pub unlines : List CString → CString
unlines [] = []
unlines (l ∷ ls) = l ++ 10 ∷ unlines ls

-- The name in a line `[name]`; none for other lines.
abbrev pub section_of : CString → Option CString
section_of [] = none
section_of (c ∷ cs) =
    if c == b'[' then elim (split_at b']' cs) [ none ↦ none | some p ↦ some p.0 ] else none

-- The value of a key in a section, the lines being behind the heading `current`.
unfoldable pub lookup : CString → CString → CString → List CString → Option CString
lookup section key current [] = none
lookup section key current (l ∷ ls) = elim (section_of l) [
  | some name ↦ lookup section key name ls
  | none ↦
      let rest = lookup section key current ls in
      elim (split_at b'=' l) [
        | none ↦ rest
        | some p ↦ if equal current section && equal p.0 key then some p.1 else rest
      ]
]

abbrev pub setting : CString → CString → CString → Option CString
setting file section key = lookup section key [] (lines_of 20 file)

abbrev pub config_lines : ℤ → ℤ → ℤ → CString → CString → List CString
config_lines width height scale cursor_theme mode =
    text "[Screens]"
    ∷ text "MainScreen=0"
    ∷ text "[Screen0]"
    ∷ (text "Mode=" ++ mode)
    ∷ text "Left=0"
    ∷ text "Top=0"
    ∷ (text "Width=" ++ int_onto [] width)
    ∷ (text "Height=" ++ int_onto [] height)
    ∷ (text "ScaleFactor=" ++ int_onto [] scale)
    ∷ text "[Theme]"
    ∷ text "Name=Default"
    ∷ text "[Mouse]"
    ∷ (text "CursorTheme=" ++ cursor_theme)
    ∷ []

config-unlines :
    (width height scale : ℤ) (cursor_theme mode : CString)
    → window_server_config width height scale cursor_theme mode
      ≡ unlines (config_lines width height scale cursor_theme mode)
unfolding window_server_config emit
config-unlines width height scale cursor_theme mode =
    let after_scale : CString =
      text "\n[Theme]\nName=Default\n[Mouse]\nCursorTheme=" ++ (cursor_theme ++ text "\n") in
    let after_height : CString = text "\nScaleFactor=" ++ int_onto after_scale scale in
    let after_width : CString = text "\nHeight=" ++ int_onto after_height height in
    ap
      (λ r.
        text "[Screens]\nMainScreen=0\n[Screen0]\nMode="
        ++ (mode ++ (text "\nLeft=0\nTop=0\nWidth=" ++ r)))
      (int_onto-append after_width width
        ∙ ap (λ r. int_onto [] width ++ (text "\nHeight=" ++ r))
            (int_onto-append after_height height
              ∙ ap (λ r. int_onto [] height ++ (text "\nScaleFactor=" ++ r))
                  (int_onto-append after_scale scale)))

lines_of-unlines :
    (room : ℕ) (ls : List CString)
    → length ls ≤ room
    → All (All (Differs 10)) ls
    → lines_of room (unlines ls) ≡ ls
unfolding lines_of split_at
lines_of-unlines zero [] h clean = refl
lines_of-unlines zero (l ∷ ls) h clean = absurd (omega arith)
lines_of-unlines (suc room) [] h clean = refl
lines_of-unlines (suc room) (l ∷ ls) h clean =
    rw (lines_of, split_at-append 10 l (unlines ls) clean.0)
      (ap (λ r. l ∷ r) (lines_of-unlines room ls (omega arith) clean.1))

config_lines-clean :
    (width height scale : ℤ) (cursor_theme mode : CString)
    → All (Differs 10) cursor_theme
    → All (Differs 10) mode
    → All (All (Differs 10)) (config_lines width height scale cursor_theme mode)
config_lines-clean width height scale cursor_theme mode theme_clean mode_clean =
    let number : (z : ℤ) → All (Differs 10) (int_onto [] z) = int_onto-below 10 (omega arith) in
    (
      avoids-All 10 (text "[Screens]") refl,
      (
        avoids-All 10 (text "MainScreen=0") refl,
        (
          avoids-All 10 (text "[Screen0]") refl,
          (
            All-append _ (text "Mode=") _ (avoids-All 10 (text "Mode=") refl) mode_clean,
            (
              avoids-All 10 (text "Left=0") refl,
              (
                avoids-All 10 (text "Top=0") refl,
                (
                  All-append _ (text "Width=") _ (avoids-All 10 (text "Width=") refl)
                      (number width),
                  (
                    All-append _ (text "Height=") _ (avoids-All 10 (text "Height=") refl)
                        (number height),
                    (
                      All-append _ (text "ScaleFactor=") _
                          (avoids-All 10 (text "ScaleFactor=") refl) (number scale),
                      (
                        avoids-All 10 (text "[Theme]") refl,
                        (
                          avoids-All 10 (text "Name=Default") refl,
                          (
                            avoids-All 10 (text "[Mouse]") refl,
                            (
                              All-append _ (text "CursorTheme=") _
                                  (avoids-All 10 (text "CursorTheme=") refl) theme_clean,
                              tt,
                            ),
                          ),
                        ),
                      ),
                    ),
                  ),
                ),
              ),
            ),
          ),
        ),
      ),
    )

-- Each setting is read back from the file under its section and key, as it was given: the mode, the
-- size and scale of the screen in decimal, and the cursor theme; the theme's name is Default, which
-- must be there. The mode and the cursor theme have no line feed.
pub window_server_config-setting :
    (width height scale : ℤ) (cursor_theme mode : CString)
    → All (Differs 10) cursor_theme
    → All (Differs 10) mode
    → (setting
          (window_server_config width height scale cursor_theme mode)
          (text "Screen0")
          (text "Mode")
        ≡ some mode)
      × (setting
            (window_server_config width height scale cursor_theme mode)
            (text "Screen0")
            (text "Width")
          ≡ some (int_onto [] width))
      × (setting
            (window_server_config width height scale cursor_theme mode)
            (text "Screen0")
            (text "Height")
          ≡ some (int_onto [] height))
      × (setting
            (window_server_config width height scale cursor_theme mode)
            (text "Screen0")
            (text "ScaleFactor")
          ≡ some (int_onto [] scale))
      × (setting
            (window_server_config width height scale cursor_theme mode)
            (text "Theme")
            (text "Name")
          ≡ some (text "Default"))
      × (setting
            (window_server_config width height scale cursor_theme mode)
            (text "Mouse")
            (text "CursorTheme")
          ≡ some cursor_theme)
unfolding lookup split_at equal
window_server_config-setting width height scale cursor_theme mode theme_clean mode_clean =
    let read : lines_of 20 (window_server_config width height scale cursor_theme mode)
        ≡ config_lines width height scale cursor_theme mode =
      ap (lines_of 20) (config-unlines width height scale cursor_theme mode)
      ∙ lines_of-unlines 20 (config_lines width height scale cursor_theme mode) (omega arith)
          (config_lines-clean width height scale cursor_theme mode theme_clean mode_clean) in
    (
      ap (lookup (text "Screen0") (text "Mode") []) read,
      ap (lookup (text "Screen0") (text "Width") []) read,
      ap (lookup (text "Screen0") (text "Height") []) read,
      ap (lookup (text "Screen0") (text "ScaleFactor") []) read,
      ap (lookup (text "Theme") (text "Name") []) read,
      ap (lookup (text "Mouse") (text "CursorTheme") []) read,
    )
