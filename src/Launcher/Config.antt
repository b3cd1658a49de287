-- ===== src/Launcher/Config.antt =====
-- write_window_server_config of src/Launcher/main.cpp: the text that it writes; opening the file and
-- setting WINDOW_SERVER_CONFIG are in Setup.antt.
pub mod Lookup
mod Tests
use serena_de.CString.{CString, text}
use serena_de.Launcher.Json.Value.{Piece, literal, decimal, emit}
use serena_de.Prelude.Int.{ℤ}
use serena_de.Prelude.{List, [], ◌∷◌}

abbrev pub window_server_pieces : ℤ → ℤ → ℤ → CString → CString → List Piece
window_server_pieces width height scale cursor_theme mode =
    literal (text "[Screens]\nMainScreen=0\n[Screen0]\nMode=")
    ∷ literal mode
    ∷ literal (text "\nLeft=0\nTop=0\nWidth=")
    ∷ decimal width
    ∷ literal (text "\nHeight=")
    ∷ decimal height
    ∷ literal (text "\nScaleFactor=")
    ∷ decimal scale
    ∷ literal (text "\n[Theme]\nName=Default\n[Mouse]\nCursorTheme=")
    ∷ literal cursor_theme
    ∷ literal (text "\n")
    ∷ []

unfoldable pub window_server_config : ℤ → ℤ → ℤ → CString → CString → CString
window_server_config width height scale cursor_theme mode =
    emit [] (window_server_pieces width height scale cursor_theme mode)
