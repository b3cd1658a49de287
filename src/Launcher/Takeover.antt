-- ===== src/Launcher/Takeover.antt =====
-- spawn_with_takeover of src/Launcher/main.cpp, up to the execv in the child: the descriptors are
-- moved with dup2 and named in SOCKET_TAKEOVER, and stderr becomes the log. A descriptor table gives
-- the open file, if any, of each number. The early exits of the child are `none` (status 126).
pub mod Descriptors
pub mod Value
pub mod Log
use serena_de.CString.{CString, print_decimal}
use serena_de.Prelude.{
  ℕ, ◌+◌, List, [], ◌∷◌, ◌++◌, Option, none, some, leb, ◌==◌, if◌then◌else◌, length,
}

-- An open file is known by a number.
abbrev pub Table : Type 0
Table = ℕ → Option ℕ

abbrev pub update : Table → ℕ → ℕ → Table
update t fd file j = if j == fd then some file else t j

-- dup2(from, to): fails if `from` is not open.
unfoldable pub dup2 : ℕ → ℕ → Table → Option Table
dup2 from to t = elim (t from) [ none ↦ none | some file ↦ some (update t to file) ]

-- What the loop passes for one socket.
pub record Socket : Type 0 where
  pub listener_fd : ℕ
  pub takeover_fd : ℕ
  pub path : CString

-- The first loop of the child.
unfoldable pub move_descriptors : List Socket → Table → Option Table
move_descriptors [] t = some t
move_descriptors (s ∷ ss) t = elim (dup2 s.listener_fd s.takeover_fd t) [
  | none ↦ none
  | some t' ↦ move_descriptors ss t'
]

-- `"%s:%d%s"`, with a separator behind every entry but the last.
unfoldable pub entry : Socket → List Socket → CString
entry s [] = s.path ++ b':' ∷ print_decimal s.takeover_fd
entry s (_ ∷ _) = s.path ++ b':' ∷ (print_decimal s.takeover_fd ++ b';' ∷ [])

-- The second loop: `so_far` is takeover_value up to offset, in a buffer of 4096 bytes.
unfoldable pub append_entries : CString → List Socket → Option CString
append_entries so_far [] = some so_far
append_entries so_far (s ∷ ss) =
    let longer = so_far ++ entry s ss in
    let rest = append_entries longer ss in if leb 4096 (length longer) then none else rest

-- The child's table and the value of SOCKET_TAKEOVER when it calls execv.
unfoldable pub prepare_child : List Socket → Table → Option (Table × CString)
prepare_child ss t = elim (move_descriptors ss t) [
  | none ↦ none
  | some t' ↦ elim (append_entries [] ss) [ none ↦ none | some value ↦ some (t', value) ]
]

-- The sockets of a group of services on consecutive descriptors from `next`: takeover_fds[m] is
-- 3 + m for the group of the first.
unfoldable pub group_sockets : ℕ → List (ℕ × CString) → List Socket
group_sockets next [] = []
group_sockets next ((fd, path) ∷ rest) =
    record { listener_fd = fd; takeover_fd = next; path = path } ∷ group_sockets (next + 1) rest

abbrev pub close : ℕ → Table → Table
close fd t j = if j == fd then none else t j

-- dup2(log_fd, STDERR_FILENO), which nobody checks, and close(log_fd).
unfoldable pub redirect_log : ℕ → Table → Table
unfolding dup2
redirect_log log_fd t = close log_fd (elim (dup2 log_fd 2 t) [ none ↦ t | some t' ↦ t' ])

-- The child of spawn_with_takeover when it calls execv.
unfoldable pub start_child : List Socket → ℕ → Table → Option (Table × CString)
unfolding prepare_child redirect_log
start_child ss log_fd t = elim (prepare_child ss t) [
  | none ↦ none
  | some (t', value) ↦ some (redirect_log log_fd t', value)
]
