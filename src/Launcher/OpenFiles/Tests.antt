-- ===== src/Launcher/OpenFiles/Tests.antt =====
-- A session with two services, a broker and input FIFOs, in a launcher that has only stdin, stdout
-- and stderr open at first.
use serena_de.CString.{text}
use serena_de.Launcher.Groups.{group_services}
use serena_de.Launcher.OpenFiles.Handing.{
  HandsOver, window_server_listeners, main-HandsOver, serve_client-HandsOver,
}
use serena_de.Launcher.OpenFiles.Lowest.{IsFull, IsLowest, IsFull-update, AreLowest}
use serena_de.Launcher.OpenFiles.{
  Opened, in_order, open_each, spawn_window_server, spawn_group, serve_client,
}
use serena_de.Launcher.Spawn.Handover.{binary_of, matching}
use serena_de.Launcher.Takeover.{Table, update}
use serena_de.Prelude.{
  ℕ, zero, suc, ◌+◌, ◌≤◌, ◌≡◌, true, [], ◌∷◌, ◌++◌, none, some, map, All, ltb, ne→==_false, arith,
  if◌then◌else◌,
}

abbrev opened : Opened
opened = record {
  window_fd = 3;
  wm_fd = 4;
  services =
      record { listener_fd = 5; socket_path = text "/tmp/audio"; binary = text "AudioServer" }
      ∷ record { listener_fd = 6; socket_path = text "/tmp/mixer"; binary = text "AudioServer" }
      ∷ [];
  brokers =
      record { listener_fd = 7; socket_path = text "/tmp/request"; binary = text "RequestServer" }
      ∷ [];
  input_fds = 8 ∷ 9 ∷ [];
}

abbrev standard : Table
standard j = if ltb j 3 then some j else none

-- The table with `n` descriptors from 3 on opened too, for the files from 100 on.
abbrev grown : ℕ → Table
grown zero = standard
grown (suc n) = update (grown n) (3 + n) (100 + n)

grown-free : (n j : ℕ) → 3 + n ≤ j → grown n j ≡ none
grown-free zero j h = ground arith
grown-free (suc n) j h = rw (ne→==_false j (3 + n) (omega arith)) (grown-free n j (omega arith))

grown-IsFull : (n : ℕ) → IsFull (grown n) (3 + n)
grown-IsFull zero j h = (j, ground arith)
grown-IsFull (suc n) j h =
    IsFull-update (grown n) (3 + n) (100 + n) (grown-free n (3 + n) (omega arith), grown-IsFull n) j
      (omega arith)

grown-IsLowest : (n : ℕ) → IsLowest (grown n) (3 + n)
grown-IsLowest n = (grown-free n (3 + n) (omega arith), grown-IsFull n)

opened-AreLowest : AreLowest 100 (in_order opened ++ 10 ∷ []) standard
opened-AreLowest = (
  grown-IsLowest 0,
  (
    grown-IsLowest 1,
    (
      grown-IsLowest 2,
      (
        grown-IsLowest 3,
        (grown-IsLowest 4, (grown-IsLowest 5, (grown-IsLowest 6, (grown-IsLowest 7, tt)))),
      ),
    ),
  ),
)

abbrev open_table : Table
open_table = open_each 100 (in_order opened) standard

main-HandsOver_example :
    HandsOver open_table open_table 10 107
      (window_server_listeners opened)
      (spawn_window_server true (some 10) 107 opened open_table)
    × All
        (λ g.
          HandsOver open_table open_table 10 107
            (matching g.binary opened.services)
            (spawn_group true (some 10) 107 opened g open_table))
        (group_services (map binary_of opened.services))
main-HandsOver_example = main-HandsOver opened standard 100 10 107 (grown-IsFull 0) opened-AreLowest

serve_client-HandsOver_example :
    HandsOver
      (update (grown 7) 10 107)
      (grown 7)
      11
      108
      ((10, text "/tmp/request") ∷ [])
      (serve_client true (some 11) 107 10 (text "/tmp/request") (grown 7))
serve_client-HandsOver_example =
    serve_client-HandsOver (grown 7) 10 11 107 (text "/tmp/request")
      (λ j h. grown-IsFull 7 j (omega arith)) (grown-IsLowest 7, (grown-IsLowest 8, tt))
