-- ===== src/Launcher/Processes/Rendering.antt =====
-- The process list as a JSON value, beside what write_processes_json writes.
use serena_de.CString.{CString, text, atoi, int_onto, digits_onto}
use serena_de.Launcher.Json.Value.{
  Json, Items, Fields, number, string, boolean, array, object, no_items, item, no_fields, field,
  render_onto, items_onto, fields_onto, comma, literal, emit, emit-append, emit-comma_piece,
}
use serena_de.Launcher.Json.{json_escape, escape_all}
use serena_de.Launcher.Proc.{Stat}
use serena_de.Launcher.Processes.{
  not_numbered, process_path, task_path, stat_at, id_field, executable, memory_field, write_thread,
  write_threads, write_tasks, write_head, write_process, write_processes, write_processes_json,
}
use serena_de.Launcher.System.{System}
use serena_de.Prelude.Int.{ℤ, pos}
use serena_de.Prelude.{
  ◌≡◌, refl, ap, ◌∙◌, Bool, true, false, List, [], ◌∷◌, ◌++◌, none, some, if◌then◌else◌, Bool-cases,
  Option-cases, inl, inr,
}

abbrev zeros : List CString → Fields → Fields
zeros [] fs = fs
zeros (key ∷ keys) fs = field key (number (pos 0)) (zeros keys fs)

abbrev pub items_of : {A : Type 0} → (A → Json) → List A → Items
items_of f [] = no_items
items_of f (x ∷ xs) = item (f x) (items_of f xs)

module _ (sys : System) where
  -- The numbered names of a directory of which the stat file can be read.
  unfoldable pub stats_of : (ℤ → CString) → List CString → List (ℤ × Stat)
  stats_of path [] = []
  stats_of path (d ∷ ds) =
      let rest = stats_of path ds in
      if not_numbered d
      then rest
      else elim (stat_at sys (path (atoi d))) [ none ↦ rest | some stat ↦ (atoi d, stat) ∷ rest ]

  abbrev pub thread_value : ℤ → ℤ × Stat → Json
  thread_value pid (tid, stat) = object (
      field (text "tid") (number tid) (
        zeros (text "times_scheduled" ∷ []) (
          field (text "name") (string (sys.stale_name (task_path pid tid))) (
            field (text "state") (string (text "Running")) (
              zeros
                (text "time_user"
                  ∷ text "time_kernel"
                  ∷ text "cpu"
                  ∷ text "priority"
                  ∷ text "syscall_count"
                  ∷ text "inode_faults"
                  ∷ text "zero_faults"
                  ∷ text "cow_faults"
                  ∷ text "unix_socket_read_bytes"
                  ∷ text "unix_socket_write_bytes"
                  ∷ text "ipv4_socket_read_bytes"
                  ∷ text "ipv4_socket_write_bytes"
                  ∷ text "file_read_bytes"
                  ∷ text "file_write_bytes"
                  ∷ [])
                no_fields)))))

  -- No thread is listed where the task directory cannot be opened.
  abbrev pub threads_of : ℤ → List (ℤ × Stat)
  threads_of pid = elim (sys.names (process_path (text "/task") pid)) [
    | none ↦ []
    | some names ↦ stats_of (task_path pid) names
  ]

  abbrev pub process_value : ℤ × Stat → Json
  process_value (pid, stat) = object (
      field (text "pid") (number pid) (
        field (text "pgid") (number stat.pgid) (
          field (text "pgp") (number stat.pgid) (
            field (text "sid") (number stat.sid) (
              field (text "uid") (number (pos (id_field sys (text "Uid:") pid))) (
                field (text "gid") (number (pos (id_field sys (text "Gid:") pid))) (
                  field (text "ppid") (number stat.ppid) (
                    field (text "kernel") (boolean false) (
                      field (text "name")
                        (string (sys.stale_name (process_path (text "/stat") pid)))
                        (field (text "executable") (string (executable sys pid)) (
                          field (text "tty") (string []) (
                            field (text "pledge") (string []) (
                              field (text "veil") (string []) (
                                field (text "creation_time") (number (pos stat.creation_ns)) (
                                  field (text "amount_virtual")
                                    (number (memory_field sys (text "VmSize:") pid))
                                    (field (text "amount_resident")
                                      (number (memory_field sys (text "VmRSS:") pid))
                                      (zeros
                                        (text "amount_shared"
                                          ∷ text "amount_dirty_private"
                                          ∷ text "amount_clean_inode"
                                          ∷ text "amount_purgeable_volatile"
                                          ∷ text "amount_purgeable_nonvolatile"
                                          ∷ [])
                                        (field (text "threads")
                                          (array (items_of (thread_value pid) (threads_of pid)))
                                          no_fields))))))))))))))))))

  abbrev processes_of : List (ℤ × Stat)
  processes_of = elim (sys.names (text "/proc")) [
    | none ↦ []
    | some names ↦ stats_of (process_path (text "/stat")) names
  ]

  unfoldable pub processes_value : Json
  processes_value = object (
      field (text "processes") (array (items_of process_value processes_of))
        (zeros (text "total_time" ∷ text "total_time_kernel" ∷ []) no_fields))

  emit-write_thread :
      (tail : CString) (pid tid : ℤ) (stat : Stat)
      → emit tail (write_thread sys tid (sys.stale_name (task_path pid tid)))
        ≡ render_onto tail (thread_value pid (tid, stat))
  unfolding emit write_thread render_onto items_onto fields_onto escape_all json_escape int_onto
      digits_onto
  emit-write_thread tail pid tid stat = refl

  emit-write_head :
      (tail : CString) (pid : ℤ) (stat : Stat)
      → emit
          (items_onto (b']' ∷ b'}' ∷ tail) true (items_of (thread_value pid) (threads_of pid)))
          (write_head sys pid stat)
        ≡ render_onto tail (process_value (pid, stat))
  unfolding emit write_head render_onto items_onto fields_onto escape_all json_escape int_onto
      digits_onto
  emit-write_head tail pid stat = refl

  emit-write_threads :
      (tail : CString) (pid : ℤ) (first : Bool) (ts : List CString)
      → emit tail (write_threads sys pid first ts)
        ≡ items_onto tail first (items_of (thread_value pid) (stats_of (task_path pid) ts))
  unfolding emit write_threads items_onto stats_of
  emit-write_threads tail pid first [] = refl
  emit-write_threads tail pid first (t ∷ ts) = elim (Bool-cases (not_numbered t)) [
    | inl skip ↦ rw skip (emit-write_threads tail pid first ts)
    | inr keep ↦ elim (Option-cases (stat_at sys (task_path pid (atoi t)))) [
      | inl e ↦ rw (keep, e) (emit-write_threads tail pid first ts)
      | inr (stat, e) ↦
          rw (keep, e)
            (emit-comma_piece tail first (
                write_thread sys (atoi t) (sys.stale_name (task_path pid (atoi t)))
                ++ write_threads sys pid false ts)
              ∙ ap (comma first) (
                  emit-append tail
                    (write_thread sys (atoi t) (sys.stale_name (task_path pid (atoi t))))
                    (write_threads sys pid false ts)
                  ∙ emit-write_thread (emit tail (write_threads sys pid false ts)) pid (atoi t) stat
                  ∙ ap (λ r. render_onto r (thread_value pid (atoi t, stat)))
                      (emit-write_threads tail pid false ts)))
    ]
  ]

  emit-write_tasks :
      (tail : CString) (pid : ℤ)
      → emit tail (write_tasks sys pid)
        ≡ items_onto tail true (items_of (thread_value pid) (threads_of pid))
  unfolding emit items_onto write_tasks
  emit-write_tasks tail pid = elim (Option-cases (sys.names (process_path (text "/task") pid))) [
    | inl e ↦ rw (write_tasks, threads_of, e) refl
    | inr (names, e) ↦ rw (write_tasks, threads_of, e) (emit-write_threads tail pid true names)
  ]

  emit-write_process :
      (tail : CString) (pid : ℤ) (stat : Stat)
      → emit tail (write_process sys pid stat) ≡ render_onto tail (process_value (pid, stat))
  unfolding emit write_process
  emit-write_process tail pid stat =
      emit-append tail (write_head sys pid stat) (write_tasks sys pid ++ literal (text "]}") ∷ [])
      ∙ ap (λ r. emit r (write_head sys pid stat))
          (emit-append tail (write_tasks sys pid) (literal (text "]}") ∷ [])
            ∙ emit-write_tasks (b']' ∷ b'}' ∷ tail) pid)
      ∙ emit-write_head tail pid stat

  emit-write_processes :
      (tail : CString) (first : Bool) (ds : List CString)
      → emit tail (write_processes sys first ds)
        ≡ items_onto tail first (items_of process_value (stats_of (process_path (text "/stat")) ds))
  unfolding emit write_processes items_onto stats_of
  emit-write_processes tail first [] = refl
  emit-write_processes tail first (d ∷ ds) = elim (Bool-cases (not_numbered d)) [
    | inl skip ↦ rw skip (emit-write_processes tail first ds)
    | inr keep ↦ elim (Option-cases (stat_at sys (process_path (text "/stat") (atoi d)))) [
      | inl e ↦ rw (keep, e) (emit-write_processes tail first ds)
      | inr (stat, e) ↦
          rw (keep, e)
            (emit-comma_piece tail first
                (write_process sys (atoi d) stat ++ write_processes sys false ds)
              ∙ ap (comma first) (
                  emit-append tail (write_process sys (atoi d) stat) (write_processes sys false ds)
                  ∙ emit-write_process (emit tail (write_processes sys false ds)) (atoi d) stat
                  ∙ ap (λ r. render_onto r (process_value (atoi d, stat)))
                      (emit-write_processes tail false ds)))
    ]
  ]

  -- What is written for the process list is the rendering of a JSON value and a line feed, whatever
  -- the system answers: an object with a member for each process whose directory has a number and
  -- whose stat file can be read, in the order of /proc, with its threads likewise, and both totals
  -- zero. An unreadable /proc gives the empty list. The names are what the memory holds where the
  -- parser's array was.
  pub write_processes_json-Refines :
      emit [] (write_processes_json sys) ≡ render_onto (10 ∷ []) processes_value
  unfolding emit write_processes_json processes_value render_onto items_onto fields_onto escape_all
      json_escape int_onto digits_onto
  write_processes_json-Refines = elim (Option-cases (sys.names (text "/proc"))) [
    | inl e ↦ rw e refl
    | inr (names, e) ↦ rw e (
        ap (λ r. text "{\"processes\":[" ++ r)
          (emit-append [] (write_processes sys true names)
              (literal (text "],\"total_time\":0,\"total_time_kernel\":0}\n") ∷ [])
            ∙ emit-write_processes (text "],\"total_time\":0,\"total_time_kernel\":0}\n") true
                names))
  ]
