-- ===== src/Launcher/Config/Tests.antt =====
-- The defaults of the launcher.
use serena_de.CString.Search.{avoids-All}
use serena_de.CString.{text, int_onto}
use serena_de.Launcher.Config.Lookup.{setting, window_server_config-setting}
use serena_de.Launcher.Config.{window_server_config}
use serena_de.Prelude.Int.{pos}
use serena_de.Prelude.{◌≡◌, refl, some, []}

window_server_config-setting_example :
    (setting
        (window_server_config (pos 1024) (pos 768) (pos 1) (text "Default") (text "Virtual"))
        (text "Screen0")
        (text "Mode")
      ≡ some (text "Virtual"))
    × (setting
          (window_server_config (pos 1024) (pos 768) (pos 1) (text "Default") (text "Virtual"))
          (text "Screen0")
          (text "Width")
        ≡ some (int_onto [] (pos 1024)))
    × (setting
          (window_server_config (pos 1024) (pos 768) (pos 1) (text "Default") (text "Virtual"))
          (text "Screen0")
          (text "Height")
        ≡ some (int_onto [] (pos 768)))
    × (setting
          (window_server_config (pos 1024) (pos 768) (pos 1) (text "Default") (text "Virtual"))
          (text "Screen0")
          (text "ScaleFactor")
        ≡ some (int_onto [] (pos 1)))
    × (setting
          (window_server_config (pos 1024) (pos 768) (pos 1) (text "Default") (text "Virtual"))
          (text "Theme")
          (text "Name")
        ≡ some (text "Default"))
    × (setting
          (window_server_config (pos 1024) (pos 768) (pos 1) (text "Default") (text "Virtual"))
          (text "Mouse")
          (text "CursorTheme")
        ≡ some (text "Default"))
window_server_config-setting_example =
    window_server_config-setting (pos 1024) (pos 768) (pos 1) (text "Default") (text "Virtual")
      (avoids-All 10 (text "Default") refl) (avoids-All 10 (text "Virtual") refl)
