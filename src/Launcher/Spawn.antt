-- ===== src/Launcher/Spawn.antt =====
-- The loop of main in src/Launcher/main.cpp that collects the listeners of a group and hands them to
-- spawn_with_takeover.
pub mod Handover
use serena_de.CString.{CString}
use serena_de.Launcher.Groups.{Group}
use serena_de.Launcher.Takeover.{Table, move_descriptors, group_sockets}
use serena_de.Prelude.{ℕ, List, [], ◌∷◌, Option, none, some, get_elem?}

-- A service whose listener is open.
pub record Listening : Type 0 where
  pub listener_fd : ℕ
  pub socket_path : CString
  pub binary : CString

-- listener_fds and paths for the members of a group.
unfoldable pub listeners_of : List Listening → List ℕ → List (ℕ × CString)
listeners_of services [] = []
listeners_of services (i ∷ is) = elim (get_elem? services i) [
  | none ↦ listeners_of services is
  | some s ↦ (s.listener_fd, s.socket_path) ∷ listeners_of services is
]

-- The child's descriptors for a group of the services.
unfoldable pub take_over : List Listening → Group → Table → Option Table
take_over services g t = move_descriptors (group_sockets 3 (listeners_of services g.members)) t
