-- ===== src/Launcher/Processes.antt =====
-- write_processes_json of src/Launcher/main.cpp. The name of a process is read through a
-- pointer to an array that is gone: what is read is a parameter, System.stale_name.
pub mod Rendering
mod Tests
use serena_de.CString.{CString, text, c_string, find_text, atoi, strtoull, int_onto}
use serena_de.Launcher.Json.Value.{Piece, literal, decimal, escaped_string, emit, comma_piece}
use serena_de.Launcher.Proc.{Stat, parse_proc_stat, read_small_file, read_status_field}
use serena_de.Launcher.System.{System}
use serena_de.Prelude.Int.{ℤ, pos}
use serena_de.Prelude.{
  ℕ, ◌%◌, ◌^◌, Bool, true, false, not, ◌||◌, List, [], ◌∷◌, ◌++◌, Option, none, some, take, drop,
  ltb, if◌then◌else◌,
}

-- `d_name[0] < '1' || d_name[0] > '9'`
abbrev pub not_numbered : CString → Bool
not_numbered [] = true
not_numbered (c ∷ cs) = ltb c b'1' || ltb b'9' c

-- "/proc/%d" and what follows.
abbrev pub process_path : CString → ℤ → CString
process_path tail pid = text "/proc/" ++ int_onto tail pid

abbrev pub task_path : ℤ → ℤ → CString
task_path pid tid = process_path (text "/task/" ++ int_onto (text "/stat") tid) pid

module _ (sys : System) where
  unfoldable pub stat_at : CString → Option Stat
  stat_at path =
      parse_proc_stat sys.clock_ticks (sys.content (text "/proc/stat")) (sys.content path)

  -- `Uid:` and `Gid:` of the status file, as 32-bit numbers.
  unfoldable pub id_field : CString → ℤ → ℕ
  id_field key pid = elim (read_small_file (sys.content (process_path (text "/status") pid)) 8192) [
    | none ↦ 0
    | some buffer ↦ elim (find_text key buffer) [
      | none ↦ 0
      | some line ↦ strtoull (drop 4 line) % 2 ^ 32
    ]
  ]

  unfoldable pub executable : ℤ → CString
  executable pid = elim (sys.link (process_path (text "/exe") pid)) [
    | none ↦ []
    | some target ↦ c_string (take 255 target)
  ]

  abbrev pub memory_field : CString → ℤ → ℤ
  memory_field key pid =
      pos (read_status_field (sys.content (process_path (text "/status") pid)) key)

  -- A thread, from its identifier on.
  unfoldable pub write_thread : ℤ → CString → List Piece
  write_thread tid comm =
      literal (text "{\"tid\":")
      ∷ decimal tid
      ∷ literal (text ",\"times_scheduled\":0,\"name\":")
      ∷ escaped_string comm
      ∷ literal (
          text
            ",\"state\":\"Running\",\"time_user\":0,\"time_kernel\":0,\"cpu\":0,\"priority\":0,\"syscall_count\":0,\"inode_faults\":0,\"zero_faults\":0,\"cow_faults\":0,\"unix_socket_read_bytes\":0,\"unix_socket_write_bytes\":0,\"ipv4_socket_read_bytes\":0,\"ipv4_socket_write_bytes\":0,\"file_read_bytes\":0,\"file_write_bytes\":0}")
      ∷ []

  -- The inner loop over the names of the task directory.
  unfoldable pub write_threads : ℤ → Bool → List CString → List Piece
  unfolding write_thread
  write_threads pid first [] = []
  write_threads pid first (t ∷ ts) =
      let skipped = write_threads pid first ts in
      let next = write_threads pid false ts in
      if not_numbered t then skipped else elim (stat_at (task_path pid (atoi t))) [
        | none ↦ skipped
        | some stat ↦
            comma_piece first
              (write_thread (atoi t) (sys.stale_name (task_path pid (atoi t))) ++ next)
      ]

  unfoldable pub write_tasks : ℤ → List Piece
  write_tasks pid = elim (sys.names (process_path (text "/task") pid)) [
    | none ↦ []
    | some names ↦ write_threads pid true names
  ]

  -- A process up to its threads.
  unfoldable pub write_head : ℤ → Stat → List Piece
  write_head pid stat =
      literal (text "{\"pid\":")
      ∷ decimal pid
      ∷ literal (text ",\"pgid\":")
      ∷ decimal stat.pgid
      ∷ literal (text ",\"pgp\":")
      ∷ decimal stat.pgid
      ∷ literal (text ",\"sid\":")
      ∷ decimal stat.sid
      ∷ literal (text ",\"uid\":")
      ∷ decimal (pos (id_field (text "Uid:") pid))
      ∷ literal (text ",\"gid\":")
      ∷ decimal (pos (id_field (text "Gid:") pid))
      ∷ literal (text ",\"ppid\":")
      ∷ decimal stat.ppid
      ∷ literal (text ",\"kernel\":false,\"name\":")
      ∷ escaped_string (sys.stale_name (process_path (text "/stat") pid))
      ∷ literal (text ",\"executable\":")
      ∷ escaped_string (executable pid)
      ∷ literal (text ",\"tty\":\"\",\"pledge\":\"\",\"veil\":\"\",\"creation_time\":")
      ∷ decimal (pos stat.creation_ns)
      ∷ literal (text ",\"amount_virtual\":")
      ∷ decimal (memory_field (text "VmSize:") pid)
      ∷ literal (text ",\"amount_resident\":")
      ∷ decimal (memory_field (text "VmRSS:") pid)
      ∷ literal (
          text
            ",\"amount_shared\":0,\"amount_dirty_private\":0,\"amount_clean_inode\":0,\"amount_purgeable_volatile\":0,\"amount_purgeable_nonvolatile\":0,\"threads\":[")
      ∷ []

  unfoldable pub write_process : ℤ → Stat → List Piece
  unfolding write_head
  write_process pid stat = write_head pid stat ++ (write_tasks pid ++ literal (text "]}") ∷ [])

  -- The outer loop over the names of /proc.
  unfoldable pub write_processes : Bool → List CString → List Piece
  write_processes first [] = []
  write_processes first (d ∷ ds) =
      let skipped = write_processes first ds in
      let next = write_processes false ds in
      if not_numbered d then skipped else elim (stat_at (process_path (text "/stat") (atoi d))) [
        | none ↦ skipped
        | some stat ↦ comma_piece first (write_process (atoi d) stat ++ next)
      ]

  unfoldable pub write_processes_json : List Piece
  write_processes_json = literal (text "{\"processes\":[") ∷ elim (sys.names (text "/proc")) [
    | none ↦ literal (text "],\"total_time\":0,\"total_time_kernel\":0}\n") ∷ []
    | some names ↦
        write_processes true names
        ++ literal (text "],\"total_time\":0,\"total_time_kernel\":0}\n") ∷ []
  ]
