-- ===== src/Launcher/Options.antt =====
-- parse_args of src/Launcher/main.cpp. `argv` is the list behind the program's name. usage() prints
-- and exits with status 2, which is `none`. atof is the C library's on doubles: a parameter.
pub mod Parsing
pub mod Bounds
mod Tests
use serena_de.CString.{CString, text, equal, split_at, atoi}
use serena_de.Prelude.{
  ℕ, ◌+◌, ◌≤◌, Bool, true, false, not, ◌&&◌, ◌||◌, List, [], ◌∷◌, ◌++◌, Option, none, some, leb,
  ◌==◌, if◌then◌else◌, length,
}
use serena_de.Prelude.Int.{ℤ, pos, negsuc}

-- The socket path and the binary of a service; the descriptor and the process come later.
pub record Service : Type 0 where
  pub socket_path : CString
  pub binary : CString

abbrev pub max_service_count : ℕ
max_service_count = 8

-- `double` and atof.
pub record Float : Type 1 where
  pub Double : Type 0
  pub atof : CString → Double
  pub minus_one : Double

pub record Options (F : Float) : Type 0 where
  pub res_root : Option CString
  pub screenshot_path : Option CString
  pub log_dir : CString
  pub sys_dir : Option CString
  pub delay_ms : ℤ
  pub width : ℤ
  pub height : ℤ
  pub scale : ℤ
  pub cursor_theme : CString
  pub services : List Service
  pub broker_services : List Service
  pub input_root : Option CString
  pub script_path : Option CString
  pub home : Option CString
  pub co_app : Option CString
  pub co_app_delay_ms : ℤ
  pub golden_path : Option CString
  pub tolerance : ℤ
  pub expect_window_min : F.Double
  pub x11 : Bool

-- The values before any option is read.
abbrev pub defaults : (F : Float) → Options F
defaults F = record {
  res_root = none;
  screenshot_path = none;
  log_dir = text "/tmp";
  sys_dir = none;
  delay_ms = pos 2000;
  width = pos 1024;
  height = pos 768;
  scale = pos 1;
  cursor_theme = text "Default";
  services = [];
  broker_services = [];
  input_root = none;
  script_path = none;
  home = none;
  co_app = none;
  co_app_delay_ms = pos 2000;
  golden_path = none;
  tolerance = pos 16;
  expect_window_min = F.minus_one;
  x11 = false;
}

-- The options that take a value, the one that takes none, and what is no option.
pub data Flag : Type 0 where
  res screenshot delay width height scale cursor_theme log_dir sys_dir service broker_service : Flag
  input_root script home co_app co_app_delay golden tolerance expect_window : Flag
  x11 unknown positional : Flag

-- `arg[0] == '-' && arg[1] != '\0'`
abbrev pub is_dashed : CString → Bool
is_dashed (c ∷ d ∷ _) = c == b'-'
is_dashed _ = false

-- The chain of strcmp tests.
unfoldable pub flag_of : CString → Flag
flag_of arg =
    if equal arg (text "--res")
    then Flag.res
    else if equal arg (text "--screenshot")
    then Flag.screenshot
    else if equal arg (text "--delay")
    then Flag.delay
    else if equal arg (text "--width")
    then Flag.width
    else if equal arg (text "--height")
    then Flag.height
    else if equal arg (text "--scale")
    then Flag.scale
    else if equal arg (text "--cursor-theme")
    then Flag.cursor_theme
    else if equal arg (text "--log-dir")
    then Flag.log_dir
    else if equal arg (text "--sys-dir")
    then Flag.sys_dir
    else if equal arg (text "--service")
    then Flag.service
    else if equal arg (text "--broker-service")
    then Flag.broker_service
    else if equal arg (text "--input-root")
    then Flag.input_root
    else if equal arg (text "--script")
    then Flag.script
    else if equal arg (text "--home")
    then Flag.home
    else if equal arg (text "--co-app")
    then Flag.co_app
    else if equal arg (text "--co-app-delay")
    then Flag.co_app_delay
    else if equal arg (text "--golden")
    then Flag.golden
    else if equal arg (text "--tolerance")
    then Flag.tolerance
    else if equal arg (text "--expect-window")
    then Flag.expect_window
    else if equal arg (text "--x11")
    then Flag.x11
    else if is_dashed arg
    then Flag.unknown
    else Flag.positional

-- `path=binary` as a service, at the end of a table that has room for eight.
unfoldable pub add_service : CString → List Service → Option (List Service)
add_service spec table = elim (split_at b'=' spec) [
  | none ↦ none
  | some (path, binary) ↦
      if leb max_service_count (length table)
      then none
      else some (table ++ record { socket_path = path; binary = binary } ∷ [])
]

-- What the branch of an option does with its value.
unfoldable pub set_option : {F : Float} → Flag → CString → Options F → Option (Options F)
set_option Flag.res v o = some (record o { res_root = some v })
set_option Flag.screenshot v o = some (record o { screenshot_path = some v })
set_option Flag.delay v o = some (record o { delay_ms = atoi v })
set_option Flag.width v o = some (record o { width = atoi v })
set_option Flag.height v o = some (record o { height = atoi v })
set_option Flag.scale v o = some (record o { scale = atoi v })
set_option Flag.cursor_theme v o = some (record o { cursor_theme = v })
set_option Flag.log_dir v o = some (record o { log_dir = v })
set_option Flag.sys_dir v o = some (record o { sys_dir = some v })
set_option Flag.service v o = elim (add_service v o.services) [
  | none ↦ none
  | some table ↦ some (record o { services = table })
]
set_option Flag.broker_service v o = elim (add_service v o.broker_services) [
  | none ↦ none
  | some table ↦ some (record o { broker_services = table })
]
set_option Flag.input_root v o = some (record o { input_root = some v })
set_option Flag.script v o = some (record o { script_path = some v })
set_option Flag.home v o = some (record o { home = some v })
set_option Flag.co_app v o = some (record o { co_app = some v })
set_option Flag.co_app_delay v o = some (record o { co_app_delay_ms = atoi v })
set_option Flag.golden v o = some (record o { golden_path = some v })
set_option Flag.tolerance v o = some (record o { tolerance = atoi v })
set_option {F} Flag.expect_window v o = some (record o { expect_window_min = F.atof v })
set_option Flag.x11 v o = none
set_option Flag.unknown v o = none
set_option Flag.positional v o = none

-- How the loop goes on at an argument.
pub data Kind : Type 0 where
  takes_value switch bad stop : Kind

unfoldable pub kind : Flag → Kind
kind Flag.x11 = switch
kind Flag.unknown = bad
kind Flag.positional = stop
kind _ = takes_value

-- The loop: the options, and the arguments from the first that is no option.
unfoldable pub parse_loop :
    {F : Float} → List CString → Options F → Option (Options F × List CString)
parse_loop [] o = some (o, [])
parse_loop (arg ∷ []) o = elim (kind (flag_of arg)) [
  | stop ↦ some (o, arg ∷ [])
  | switch ↦ some (record o { x11 = true }, [])
  | bad ↦ none
  | takes_value ↦ none
]
parse_loop (arg ∷ v ∷ rest) o = elim (kind (flag_of arg)) [
  | stop ↦ some (o, arg ∷ v ∷ rest)
  | switch ↦ parse_loop (v ∷ rest) (record o { x11 = true })
  | bad ↦ none
  | takes_value ↦ elim (set_option (flag_of arg) v o) [ none ↦ none | some o' ↦ parse_loop rest o' ]
]

-- The options with what the positional arguments give; `app_args` begins with the app itself.
pub record Parsed (F : Float) : Type 0 where
  pub options : Options F
  pub window_server : CString
  pub app : CString
  pub app_args : List CString

abbrev pub is_set : Option CString → Bool
is_set none = false
is_set (some _) = true

unfoldable pub take_positional : {F : Float} → Options F → List CString → Option (Parsed F)
take_positional o (ws ∷ app ∷ args) =
    some (record { options = o; window_server = ws; app = app; app_args = app ∷ args })
take_positional o _ = none

-- The tests behind the loop.
unfoldable pub finish : {F : Float} → Options F → List CString → Option (Parsed F)
unfolding take_positional
finish o rest =
    if not (is_set o.res_root) || not (is_set o.screenshot_path)
    then none
    else if o.x11 && is_set o.input_root
    then none
    else take_positional o rest

unfoldable pub parse_args : (F : Float) → List CString → Option (Parsed F)
parse_args F argv = elim (parse_loop argv (defaults F)) [
  | none ↦ none
  | some (o, rest) ↦ finish o rest
]
