-- ===== src/Launcher/Json/Tests.antt =====
-- A text with both escapes and a control character.
use serena_de.CString.{text}
use serena_de.Launcher.Json.{blanked, json_escape, read_string, read_string-json_escape}
use serena_de.Prelude.{◌≡◌, ◌++◌, ◌∷◌, some, map}

read_string-json_escape_example :
    read_string (json_escape (b'a' ∷ b'"' ∷ 10 ∷ text "\\z") ++ text ", 1")
    ≡ some (map blanked (b'a' ∷ b'"' ∷ 10 ∷ text "\\z"), text ", 1")
read_string-json_escape_example =
    read_string-json_escape (b'a' ∷ b'"' ∷ 10 ∷ text "\\z") (text ", 1")
