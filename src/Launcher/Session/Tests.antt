-- ===== src/Launcher/Session/Tests.antt =====
-- Two services of one binary and a third, two brokers of which one gets a client, a script and a
-- second app.
use serena_de.CString.{text, equal}
use serena_de.Launcher.Groups.{group_services, add_services, add_member}
use serena_de.Launcher.Session.Outcome.{main-None_running, on_signal-None_running}
use serena_de.Launcher.Session.Running.{running}
use serena_de.Launcher.Session.{
  Session, Run, World, going, exited, returned, connected, not_ready, refused, start, main, program,
  run, step, bind, spawn, serve, wait_ready, cleanup, on_signal, kill_each, kill_event, unlink_each,
  pids_from, is_member, group_steps,
}
use serena_de.Prelude.{◌+◌, ◌≡◌, refl, true, [], ◌∷◌, none, some, arith, take, drop}

abbrev world : World
world = record {
  binaries = text "Audio" ∷ text "Clip" ∷ text "Audio" ∷ [];
  socket_paths = text "/tmp/a" ∷ text "/tmp/c" ∷ text "/tmp/m" ∷ text "/tmp/r" ∷ [];
  child = λ i. some (100 + i);
  window_ready = true;
  service_ready = λ i. true;
  script = some none;
  has_co_app = true;
  script_turns = (connected ∷ not_ready ∷ []) ∷ [];
  co_app_turns = [] ∷ [];
  settle_turns = (refused ∷ connected ∷ []) ∷ [];
  verdict = 0;
}

abbrev session_of : Run → Session
session_of (going s) = s
session_of (exited status s) = s
session_of (returned status s) = s

abbrev last : Session
last = session_of (main world)

main-None_running_example : running last.events ≡ []
unfolding main program run step bind spawn serve wait_ready cleanup kill_each kill_event unlink_each
    pids_from is_member group_steps group_services add_services add_member equal
main-None_running_example = main-None_running world 0 last refl (omega arith)

-- The signal comes when the app has been started.
abbrev middle : Session
middle = session_of (run world (take 8 (program world)) start)

on_signal-None_running_example :
    (t : Session) × (on_signal world middle ≡ exited 130 t) × (running t.events ≡ [])
unfolding main program run step bind spawn serve wait_ready cleanup kill_each kill_event unlink_each
    pids_from is_member group_steps group_services add_services add_member equal
on_signal-None_running_example =
    on_signal-None_running world (take 8 (program world)) (drop 8 (program world)) middle refl refl
      (omega arith)
