-- ===== src/Launcher/Setup/Keeping.antt =====
-- What main of src/Launcher/main.cpp does behind its listening sockets, and the paths it unlinks there.
use serena_de.CString.{CString, text}
use serena_de.Launcher.Config.{window_server_config}
use serena_de.Launcher.Options.{Float, Options}
use serena_de.Launcher.Setup.Calls.{calls_of, calls_of-map, then_at-All}
use serena_de.Launcher.Setup.Listening.{perform-All, make_ancestor_directories-keeps}
use serena_de.Launcher.Setup.{
  setenv, file, handle_signals, Preparation, and_then, always, calling, writing, setenv_if,
  configure, prepare_input, prepare_sysfs, sys_dir_path, with_home, Machine, prepare_session,
}
use serena_de.Launcher.Processes.{write_processes_json}
use serena_de.Launcher.Sockets.{
  Call, mkdir, open_fifo, make_fifo, unlink, Os, unchecked, device_path, make_ancestor_directories,
  setup_input_root, perform,
}
use serena_de.Launcher.Sysfs.{Outcome, exits, crashes, written, write_sysfs_data}
use serena_de.Prelude.{
  ◌≢◌, if◌then◌else◌, List, [], ◌∷◌, ◌++◌, Option, none, some, map, take, All, All-append,
  Bool-cases, inl, inr,
}

-- The FIFOs of an input root are not at the path.
abbrev pub Apart : CString → Option CString → Type 0
Apart path none = Unit
Apart path (some root) =
    (device_path root (text "/keyboard/kbd0") ≢ path)
    × (device_path root (text "/mouse/mouse0") ≢ path)

abbrev pub Keeps : CString → List Call → Type 0
Keeps path calls = All (λ c. c ≢ unlink path) calls

and_then-Keeps :
    (path : CString) (p next : Preparation)
    → Keeps path (calls_of p.effects)
    → Keeps path (calls_of next.effects)
    → Keeps path (calls_of (and_then p next).effects)
and_then-Keeps path p next = then_at-All (λ c. c ≢ unlink path) p.effects p.ending next

setup_input_root-Keeps :
    (os : Os) (path root : CString)
    → Apart path (some root)
    → Keeps path (setup_input_root os root).calls
unfolding setup_input_root
setup_input_root-Keeps os path root (keyboard, mouse) =
    let keyboard_path = device_path root (text "/keyboard/kbd0") in
    let mouse_path = device_path root (text "/mouse/mouse0") in
    let devices : List Call =
      mkdir root
      ∷ mkdir (device_path root (text "/keyboard"))
      ∷ mkdir (device_path root (text "/mouse"))
      ∷ (make_fifo keyboard_path ++ make_fifo mouse_path) in
    let cs = make_ancestor_directories root ++ devices in
    let made : Keeps path (perform (unchecked os) cs).calls =
      perform-All (λ c. c ≢ unlink path) (unchecked os) cs
        (All-append (λ c. c ≢ unlink path) (make_ancestor_directories root) devices
          (make_ancestor_directories-keeps path root)
          (
            (λ e. cc),
            (
              (λ e. cc),
              ((λ e. cc), ((λ e. keyboard cc), ((λ e. cc), ((λ e. mouse cc), ((λ e. cc), tt))))),
            ),
          )) in
    elim (Bool-cases (perform (unchecked os) cs).goes_on) [
      | inl ok ↦ rw ok (
          All-append (λ c. c ≢ unlink path) (perform (unchecked os) cs).calls
            (open_fifo keyboard_path ∷ open_fifo mouse_path ∷ []) made ((λ e. cc), ((λ e. cc), tt)))
      | inr bad ↦ rw bad made
    ]

prepare_input-Keeps :
    (os : Os) (path : CString) (root : Option CString)
    → Apart path root
    → Keeps path (calls_of (prepare_input os root).effects)
unfolding prepare_input
prepare_input-Keeps os path none apart = tt
prepare_input-Keeps os path (some root) apart =
    and_then-Keeps path (always (setenv (text "WINDOW_SERVER_INPUT_ROOT") root ∷ []))
      (calling (setup_input_root os root)) tt
      (rw (calls_of-map (setup_input_root os root).calls)
        (setup_input_root-Keeps os path root apart))

setenv_if-Keeps :
    (path name : CString) (value : Option CString)
    → Keeps path (calls_of (setenv_if name value).effects)
setenv_if-Keeps path name none = tt
setenv_if-Keeps path name (some value) = tt

configure-Keeps :
    (m : Machine) (path log_dir content : CString)
    → Keeps path (calls_of (configure m log_dir content).effects)
unfolding configure
configure-Keeps m path log_dir content =
    elim (Bool-cases (m.host.opens (take 4095 (log_dir ++ text "/serenade-WindowServer.ini")))) [
      | inl opens ↦ rw opens tt
      | inr closed ↦ rw closed tt
    ]

writing-Keeps : (path : CString) (o : Outcome) → Keeps path (calls_of (writing o).effects)
writing-Keeps path exits = tt
writing-Keeps path crashes = tt
writing-Keeps path (written files) = files_only files
  where
    files_only : (fs : List (CString × CString)) → Keeps path (calls_of (map file fs))
    files_only [] = tt
    files_only (f ∷ fs) = files_only fs

prepare_sysfs-Keeps :
    (m : Machine) (path : CString) (home : Option CString) (dir : CString)
    → Keeps path (calls_of (prepare_sysfs m home dir).effects)
unfolding prepare_sysfs
prepare_sysfs-Keeps m path home dir =
    let files =
      writing (write_sysfs_data (with_home home m.host) dir (write_processes_json m.system)) in
    let named = always (setenv (text "SERENITY_SYS") dir ∷ []) in
    let above = perform (unchecked m.os) (make_ancestor_directories dir) in
    and_then-Keeps path (calling above) (and_then files named)
      (rw (calls_of-map above.calls) (
        perform-All (λ c. c ≢ unlink path) (unchecked m.os) (make_ancestor_directories dir)
          (make_ancestor_directories-keeps path dir)))
      (and_then-Keeps path files named
        (writing-Keeps path
          (write_sysfs_data (with_home home m.host) dir (write_processes_json m.system)))
        tt)

module _ {F : Float} (m : Machine) (res_root screenshot_path : CString) (o : Options F)
    (path : CString) where
  pub prepare_session-Keeps :
      Apart path o.input_root
      → Keeps path (calls_of (prepare_session m res_root screenshot_path o).effects)
  unfolding prepare_session
  prepare_session-Keeps apart =
      let content =
        window_server_config o.width o.height o.scale o.cursor_theme
          (if o.x11 then text "X11" else text "Virtual") in
      let last = and_then (prepare_input m.os o.input_root) (always (handle_signals ∷ [])) in
      let configured = and_then (configure m o.log_dir content) last in
      let shimmed =
        and_then (prepare_sysfs m o.home (sys_dir_path o.log_dir o.sys_dir)) configured in
      and_then-Keeps path
        (always (
          setenv (text "SERENITY_RES") res_root
          ∷ setenv (text "WINDOW_SERVER_SCREENSHOT") screenshot_path
          ∷ []))
        (and_then (setenv_if (text "HOME") o.home) shimmed) tt
        (and_then-Keeps path (setenv_if (text "HOME") o.home) shimmed
          (setenv_if-Keeps path (text "HOME") o.home)
          (and_then-Keeps path (prepare_sysfs m o.home (sys_dir_path o.log_dir o.sys_dir))
            configured (prepare_sysfs-Keeps m path o.home (sys_dir_path o.log_dir o.sys_dir))
            (and_then-Keeps path (configure m o.log_dir content) last
              (configure-Keeps m path o.log_dir content)
              (and_then-Keeps path (prepare_input m.os o.input_root) (always (handle_signals ∷ []))
                (prepare_input-Keeps m.os path o.input_root apart) tt))))
