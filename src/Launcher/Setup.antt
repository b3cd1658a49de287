-- ===== src/Launcher/Setup.antt =====
-- main of src/Launcher/main.cpp from parse_args up to its first child: the listening sockets, the
-- environment that the children inherit, the sysfs data, the window server's configuration and the
-- input FIFOs, as a sequence of effects.
pub mod Calls
pub mod Listening
pub mod Keeping
pub mod Ready
mod Tests
use serena_de.CString.{CString, text}
use serena_de.Launcher.Config.{window_server_config}
use serena_de.Launcher.Options.{Float, Service, Options}
use serena_de.Launcher.Processes.{write_processes_json}
use serena_de.Launcher.Sockets.{
  Call, Os, Trace, unchecked, perform, make_ancestor_directories, create_listening_socket,
  setup_input_root,
}
use serena_de.Launcher.Sysfs.{Host, Outcome, exits, crashes, written, write_sysfs_data}
use serena_de.Launcher.System.{System}
use serena_de.Prelude.{
  Bool, true, false, List, [], ◌∷◌, ◌++◌, Option, none, some, map, take, if◌then◌else◌,
}

pub data Effect : Type 0 where
  call : Call → Effect
  setenv : CString → CString → Effect
  -- the path and the content of a file that was written
  file : CString × CString → Effect
  -- sigaction of SIGTERM and SIGINT
  handle_signals : Effect

-- main goes on, exit(1) ends it, or it crashes.
pub data Ending : Type 0 where
  proceeds exited crashed : Ending

pub record Preparation : Type 0 where
  pub effects : List Effect
  pub ending : Ending

-- What follows comes only where main goes on.
unfoldable pub then_at : List Effect → Ending → Preparation → Preparation
then_at effects proceeds next = record { effects = effects ++ next.effects; ending = next.ending }
then_at effects exited next = record { effects = effects; ending = exited }
then_at effects crashed next = record { effects = effects; ending = crashed }

abbrev pub and_then : Preparation → Preparation → Preparation
and_then p next = then_at p.effects p.ending next

abbrev pub always : List Effect → Preparation
always effects = record { effects = effects; ending = proceeds }

-- System calls, the last of which ends the program where it fails.
abbrev pub calling : Trace → Preparation
calling t = record { effects = map call t.calls; ending = if t.goes_on then proceeds else exited }

-- The files that write_sysfs_data writes; where it does not come to its end, they are left out.
abbrev pub writing : Outcome → Preparation
writing exits = record { effects = []; ending = exited }
writing crashes = record { effects = []; ending = crashed }
writing (written files) = always (map file files)

unfoldable pub listen_all : Os → List CString → Preparation
unfolding then_at
listen_all os [] = always []
listen_all os (path ∷ paths) =
    and_then (calling (create_listening_socket os path)) (listen_all os paths)

-- setenv where there is a value.
abbrev pub setenv_if : CString → Option CString → Preparation
setenv_if name none = always []
setenv_if name (some value) = always (setenv name value ∷ [])

-- SERENITY_SYS: 4200 bytes, from --sys-dir or below the log directory.
abbrev pub sys_dir_path : CString → Option CString → CString
sys_dir_path log_dir none = take 4199 (log_dir ++ text "/sysfs")
sys_dir_path log_dir (some dir) = take 4199 dir

-- The answers of the system: system calls, fopen, and what write_sysfs_data asks for.
pub record Machine : Type 0 where
  pub os : Os
  pub host : Host
  pub system : System

-- write_window_server_config with its file and WINDOW_SERVER_CONFIG.
unfoldable pub configure : Machine → CString → CString → Preparation
configure m log_dir content =
    let path = take 4095 (log_dir ++ text "/serenade-WindowServer.ini") in
    if m.host.opens path
    then always (file (path, content) ∷ setenv (text "WINDOW_SERVER_CONFIG") path ∷ [])
    else record { effects = []; ending = exited }

-- The FIFOs, where there is an input root.
unfoldable pub prepare_input : Os → Option CString → Preparation
unfolding then_at
prepare_input os none = always []
prepare_input os (some root) =
    and_then (always (setenv (text "WINDOW_SERVER_INPUT_ROOT") root ∷ []))
      (calling (setup_input_root os root))

-- getenv("HOME") behind setenv, where there was one.
abbrev pub with_home : Option CString → Host → Host
with_home none host = host
with_home (some home) host = record host { home = some home }

-- The sysfs data below its directory.
unfoldable pub prepare_sysfs : Machine → Option CString → CString → Preparation
unfolding then_at
prepare_sysfs m home dir =
    and_then (calling (perform (unchecked m.os) (make_ancestor_directories dir))) (
      and_then
        (writing (write_sysfs_data (with_home home m.host) dir (write_processes_json m.system)))
        (always (setenv (text "SERENITY_SYS") dir ∷ [])))

-- The two sockets of the window server, those of the services and those of the brokers.
abbrev pub socket_paths : {F : Float} → Options F → List CString
socket_paths o =
    text "/tmp/portal/window"
    ∷ text "/tmp/portal/wm"
    ∷ (map (λ s. s.socket_path) o.services ++ map (λ s. s.socket_path) o.broker_services)

module _ {F : Float} (m : Machine) (res_root screenshot_path : CString) (o : Options F) where
  -- What comes behind the sockets. parse_args has seen to it that the first two paths are given.
  unfoldable pub prepare_session : Preparation
  unfolding then_at
  prepare_session =
      and_then
        (always (
          setenv (text "SERENITY_RES") res_root
          ∷ setenv (text "WINDOW_SERVER_SCREENSHOT") screenshot_path
          ∷ []))
        (and_then (setenv_if (text "HOME") o.home) (
          and_then (prepare_sysfs m o.home (sys_dir_path o.log_dir o.sys_dir)) (
            and_then
              (configure m o.log_dir (
                window_server_config o.width o.height o.scale o.cursor_theme
                  (if o.x11 then text "X11" else text "Virtual")))
              (and_then (prepare_input m.os o.input_root) (always (handle_signals ∷ []))))))

  unfoldable pub prepare : Preparation
  unfolding then_at
  prepare = and_then (listen_all m.os (socket_paths o)) prepare_session
