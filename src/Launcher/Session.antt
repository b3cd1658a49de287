-- ===== src/Launcher/Session.antt =====
-- The child processes of src/Launcher/main.cpp: main from its first spawn to its return, broker_wait,
-- cleanup and on_signal. main is the list of its steps that can start or end a child, in their order;
-- a trace, the latest event first, says what was done. How long kill_and_reap and the waits take is
-- in Waiting.antt, what a child does before execv in Takeover.antt, the exit status in Verdict.antt.
pub mod Running
pub mod Slots
pub mod Spawning
pub mod Steps
pub mod Members
pub mod Order
pub mod Outcome
pub mod Completion
mod Tests
use serena_de.CString.{CString, text}
use serena_de.Launcher.Groups.{Group, group_services}
use serena_de.Prelude.Int.{ℤ, pos, negsuc, pos_part, ltb_ℤ}
use serena_de.Prelude.{
  ℕ, zero, suc, ◌+◌, Bool, true, false, ◌||◌, List, [], ◌∷◌, ◌++◌, map, Option, none, some, length,
  ltb, ◌==◌, if◌then◌else◌,
}

-- A child is started; it is killed and reaped, or killed; a socket's path is removed.
pub data Event : Type 0 where
  spawned terminated : ℕ → Event
  unlinked : CString → Event

-- s_broker_children is as long as s_broker_child_count; service_pids is the child_pid of each service.
pub record Session : Type 0 where
  pub spawns : ℕ
  pub window_server_pid : ℤ
  pub service_pids : ℕ → ℤ
  pub broker_children : List ℤ
  pub app_pid : ℤ
  pub co_app_pid : ℤ
  pub events : List Event

-- The loop goes on, exit() ends the program without cleanup, or main returns.
pub data Run : Type 0 where
  going : Session → Run
  exited returned : ℕ → Session → Run

unfoldable pub bind : Run → (Session → Run) → Run
bind (going s) next = next s
bind (exited status s) next = exited status s
bind (returned status s) next = returned status s

-- What a broker's listener has in a turn of broker_wait: nothing, a failing accept, or a client.
pub data Client : Type 0 where
  not_ready refused connected : Client

pub data Step : Type 0 where
  spawn_window_server wait_window_server spawn_app spawn_co_app : Step
  spawn_group : Group → Step
  wait_service : ℕ → Step
  -- the brokers in order; none for an interrupted select
  broker_turn : List Client → Step
  -- the script is read to its end, or ends the program with a status
  replay : Option ℕ → Step
  -- the exit status
  finish : ℕ → Step

-- The options, and what the system answers. The i-th spawn gives a child whose pid is one more than
-- `child i`, or none where open_log_file or fork fails.
pub record World : Type 0 where
  pub binaries : List CString
  pub socket_paths : List CString
  pub child : ℕ → Option ℕ
  pub window_ready : Bool
  pub service_ready : ℕ → Bool
  pub script : Option (Option ℕ)
  pub has_co_app : Bool
  pub script_turns : List (List Client)
  pub co_app_turns : List (List Client)
  pub settle_turns : List (List Client)
  pub verdict : ℕ

-- kill_and_reap, which does nothing for a pid that is not positive.
unfoldable pub kill_event : ℤ → List Event → List Event
kill_event pid es = if ltb_ℤ (pos 0) pid then terminated (pos_part pid) ∷ es else es

unfoldable pub kill_each : List ℤ → List Event → List Event
kill_each [] es = es
kill_each (pid ∷ pids) es = kill_each pids (kill_event pid es)

unfoldable pub unlink_each : List CString → List Event → List Event
unlink_each [] es = es
unlink_each (path ∷ paths) es = unlink_each paths (unlinked path ∷ es)

-- The child_pid of the services from `i` on.
unfoldable pub pids_from : (ℕ → ℤ) → ℕ → ℕ → List ℤ
pids_from pids i zero = []
pids_from pids i (suc left) = pids i ∷ pids_from pids (i + 1) left

unfoldable pub is_member : ℕ → List ℕ → Bool
is_member i [] = false
is_member i (j ∷ js) = j == i || is_member i js

abbrev pub start : Session
start = record {
  spawns = 0;
  window_server_pid = negsuc 0;
  service_pids = λ i. negsuc 0;
  broker_children = [];
  app_pid = negsuc 0;
  co_app_pid = negsuc 0;
  events = [];
}

module _ (w : World) where
  abbrev pub service_list : Session → List ℤ
  service_list s = pids_from s.service_pids 0 (length w.binaries)

  -- What cleanup kills, in its order.
  abbrev pub cleanup_pids : Session → List ℤ
  cleanup_pids s = s.broker_children ++ (service_list s ++ s.window_server_pid ∷ [])

  unfoldable pub cleanup : Session → Session
  cleanup s = record s {
    events =
        unlink_each (text "/tmp/portal/window" ∷ text "/tmp/portal/wm" ∷ [])
          (kill_each (cleanup_pids s) (unlink_each w.socket_paths s.events));
  }

  -- What is killed in the end, or by the signal handler in its order.
  abbrev pub signal_pids : Session → List ℤ
  signal_pids s =
      s.app_pid ∷ s.co_app_pid ∷ s.window_server_pid ∷ (service_list s ++ s.broker_children)

  unfoldable pub on_signal : Session → Run
  on_signal s = exited 130 (record s { events = kill_each (signal_pids s) s.events })

  -- A child is started and its pid stored.
  unfoldable pub spawn : (ℤ → Session → Session) → Session → Run
  spawn store s = elim (w.child s.spawns) [
    | none ↦ exited 1 s
    | some n ↦ going (
        store (pos (suc n))
          (record s { spawns = s.spawns + 1; events = spawned (suc n) ∷ s.events }))
  ]

  abbrev pub store_window_server : ℤ → Session → Session
  store_window_server pid s = record s { window_server_pid = pid }

  abbrev pub store_group : List ℕ → ℤ → Session → Session
  store_group members pid s = record s {
    service_pids = λ i. if is_member i members then pid else s.service_pids i;
  }

  abbrev pub store_app : ℤ → Session → Session
  store_app pid s = record s { app_pid = pid }

  abbrev pub store_co_app : ℤ → Session → Session
  store_co_app pid s = record s { co_app_pid = pid }

  -- There is room for max_broker_children.
  abbrev pub store_broker : ℤ → Session → Session
  store_broker pid s =
      if ltb (length s.broker_children) 32
      then record s { broker_children = s.broker_children ++ pid ∷ [] }
      else s

  -- A turn of broker_wait behind select.
  unfoldable pub serve : List Client → Session → Run
  serve [] s = going s
  serve (connected ∷ cs) s = bind (spawn store_broker s) (serve cs)
  serve (refused ∷ cs) s = serve cs s
  serve (not_ready ∷ cs) s = serve cs s

  unfoldable pub wait_ready : Bool → Session → Run
  wait_ready ready s = if ready then going s else returned 1 (cleanup s)

  unfoldable pub step : Step → Session → Run
  step spawn_window_server s = spawn store_window_server s
  step wait_window_server s = wait_ready w.window_ready s
  step spawn_app s = spawn store_app s
  step spawn_co_app s = spawn store_co_app s
  step (spawn_group g) s = spawn (store_group g.members) s
  step (wait_service i) s = wait_ready (w.service_ready i) s
  step (broker_turn clients) s = serve clients s
  step (replay none) s = going s
  step (replay (some status)) s = exited status s
  step (finish status) s =
      returned status
        (cleanup (record s { events = kill_each (s.app_pid ∷ s.co_app_pid ∷ []) s.events }))

  unfoldable pub run : List Step → Session → Run
  run [] s = going s
  run (st ∷ sts) s = bind (step st s) (run sts)

  -- Each group is started and its sockets waited for before the next.
  unfoldable pub group_steps : List Group → List Step
  group_steps [] = []
  group_steps (g ∷ gs) = spawn_group g ∷ (map wait_service g.members ++ group_steps gs)

  abbrev pub script_steps : List Step
  script_steps = elim w.script [
    | none ↦ []
    | some ended ↦ map broker_turn w.script_turns ++ replay ended ∷ []
  ]

  abbrev pub co_app_steps : List Step
  co_app_steps = if w.has_co_app then map broker_turn w.co_app_turns ++ spawn_co_app ∷ [] else []

  abbrev pub app_steps : List Step
  app_steps =
      spawn_app
      ∷ (script_steps
          ++ (co_app_steps ++ (map broker_turn w.settle_turns ++ finish w.verdict ∷ [])))

  unfoldable pub program : List Step
  unfolding group_steps
  program =
      spawn_window_server
      ∷ wait_window_server
      ∷ (group_steps (group_services w.binaries) ++ app_steps)

  unfoldable pub main : Run
  unfolding run program
  main = run program start
