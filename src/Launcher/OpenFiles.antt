-- ===== src/Launcher/OpenFiles.antt =====
-- The launcher's own descriptors in main and broker_wait of src/Launcher/main.cpp: the sockets and
-- FIFOs that it opens, the log of each child, and what it closes again behind fork. The numbers that
-- the system gives are data; the open files are numbered as they are opened.
pub mod Lowest
pub mod Handing
pub mod Plain
mod Tests
use serena_de.CString.{CString, text}
use serena_de.Launcher.Groups.{Group}
use serena_de.Launcher.Spawn.{Listening, listeners_of}
use serena_de.Launcher.Takeover.{
  Table, update, close, redirect_log, Socket, start_child, group_sockets,
}
use serena_de.Prelude.{ℕ, ◌+◌, Bool, true, false, List, [], ◌∷◌, ◌++◌, Option, none, some, map}

-- What main opens and keeps open, in its order: the window server's sockets, those of the services
-- and brokers, and keyboard_fd and mouse_fd if there is an input root.
pub record Opened : Type 0 where
  pub window_fd : ℕ
  pub wm_fd : ℕ
  pub services : List Listening
  pub brokers : List Listening
  pub input_fds : List ℕ

abbrev pub fd_of : Listening → ℕ
fd_of s = s.listener_fd

abbrev pub in_order : Opened → List ℕ
in_order o = o.window_fd ∷ o.wm_fd ∷ (map fd_of o.services ++ (map fd_of o.brokers ++ o.input_fds))

-- The files from number `file` on, at these descriptors.
unfoldable pub open_each : ℕ → List ℕ → Table → Table
open_each file [] t = t
open_each file (fd ∷ fds) t = open_each (file + 1) fds (update t fd file)

-- A child's table and SOCKET_TAKEOVER at its execv, unless it has left with status 126, and the
-- launcher's table behind the fork.
pub record Forked : Type 0 where
  pub child : Option (Table × CString)
  pub parent : Table

-- open_log_file and spawn_with_takeover; none is an open or a fork that failed. `answer` is the log's
-- descriptor, `file` its number.
unfoldable pub spawn_with_takeover : Bool → Option ℕ → ℕ → List Socket → Table → Option Forked
unfolding start_child
spawn_with_takeover forks none file ss t = none
spawn_with_takeover false (some log_fd) file ss t = none
spawn_with_takeover true (some log_fd) file ss t = some (record {
  child = start_child ss log_fd (update t log_fd file);
  parent = close log_fd (update t log_fd file);
})

-- open_log_file and spawn_plain; the child's environment is the launcher's.
unfoldable pub spawn_plain : Bool → Option ℕ → ℕ → Table → Option (Table × Table)
unfolding redirect_log
spawn_plain forks none file t = none
spawn_plain false (some log_fd) file t = none
spawn_plain true (some log_fd) file t =
    some (redirect_log log_fd (update t log_fd file), close log_fd (update t log_fd file))

abbrev pub window_server_sockets : Opened → List Socket
window_server_sockets o =
    record { listener_fd = o.window_fd; takeover_fd = 3; path = text "/tmp/portal/window" }
    ∷ record { listener_fd = o.wm_fd; takeover_fd = 4; path = text "/tmp/portal/wm" }
    ∷ []

unfoldable pub spawn_window_server : Bool → Option ℕ → ℕ → Opened → Table → Option Forked
unfolding spawn_with_takeover
spawn_window_server forks answer file o t =
    spawn_with_takeover forks answer file (window_server_sockets o) t

unfoldable pub spawn_group : Bool → Option ℕ → ℕ → Opened → Group → Table → Option Forked
unfolding spawn_with_takeover
spawn_group forks answer file o g t =
    spawn_with_takeover forks answer file (group_sockets 3 (listeners_of o.services g.members)) t

abbrev pub close_client : ℕ → Option Forked → Option Forked
close_client client_fd none = none
close_client client_fd (some f) = some (record f { parent = close client_fd f.parent })

-- A connection to a broker's listener: accept gives `client_fd`, which is closed behind the fork.
unfoldable pub serve_client : Bool → Option ℕ → ℕ → ℕ → CString → Table → Option Forked
unfolding spawn_with_takeover
serve_client forks answer file client_fd path t = close_client client_fd (
    spawn_with_takeover forks answer (file + 1)
      (record { listener_fd = client_fd; takeover_fd = 3; path = path } ∷ [])
      (update t client_fd file))
