-- ===== src/Launcher/Processes/Tests.antt =====
-- A system with one process of two threads, one of which cannot be read.
use serena_de.CString.{CString, text, equal}
use serena_de.Launcher.Json.Value.{emit, render_onto}
use serena_de.Launcher.Processes.Rendering.{processes_value, write_processes_json-Refines}
use serena_de.Launcher.Processes.{write_processes_json}
use serena_de.Launcher.Proc.{File}
use serena_de.Launcher.System.{System}
use serena_de.Prelude.Int.{pos}
use serena_de.Prelude.{◌≡◌, List, [], ◌∷◌, Option, none, some, if◌then◌else◌}

abbrev content : CString → File
content path =
    if equal path (text "/proc/7/stat")
    then some (text "7 (sh) S 1 7 7 0\n")
    else if equal path (text "/proc/7/task/7/stat")
    then some (text "7 (sh) S 1 7 7 0\n")
    else none

abbrev names : CString → Option (List CString)
names path =
    if equal path (text "/proc")
    then some (text "." ∷ text "7" ∷ text "9" ∷ text "self" ∷ [])
    else if equal path (text "/proc/7/task")
    then some (text "7" ∷ text "8" ∷ [])
    else none

abbrev system : System
system = record {
  content = content;
  link = λ path. none;
  names = names;
  clock_ticks = pos 100;
  stale_name = λ path. text "sh";
}

write_processes_json-Refines_example :
    emit [] (write_processes_json system) ≡ render_onto (10 ∷ []) (processes_value system)
write_processes_json-Refines_example = write_processes_json-Refines system
