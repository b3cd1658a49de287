-- ===== src/Launcher/Proc/Tests.antt =====
-- A process whose name holds a blank and both parentheses.
use serena_de.CString.Search.{avoids-All}
use serena_de.CString.{
  text, int_onto, digits_onto, c_string, find_text, starts_with, strtoull, unsigned_of, skip_spaces,
  is_space, read_digits, is_digit,
}
use serena_de.Launcher.Proc.Line.{stat_line, parse_proc_stat-stat_line}
use serena_de.Launcher.Proc.{boot_ns, read_small_file, File, creation_time, parse_proc_stat}
use serena_de.Prelude.Int.{ℤ, pos, negsuc}
use serena_de.Prelude.{◌≡◌, refl, List, [], ◌∷◌, some, arith, take, drop}

abbrev boot : File
boot = some (text "cpu 1 2 3\nbtime 1700000000\n")

abbrev more : List ℤ
more =
    pos 0
    ∷ negsuc 0
    ∷ pos 4194560
    ∷ pos 107
    ∷ pos 0
    ∷ pos 3
    ∷ pos 0
    ∷ pos 1
    ∷ pos 2
    ∷ pos 0
    ∷ pos 0
    ∷ pos 20
    ∷ pos 0
    ∷ pos 1
    ∷ pos 0
    ∷ pos 4711
    ∷ pos 8192000
    ∷ []

parse_proc_stat-stat_line_example :
    let line = stat_line (text "42 ") (text "a (b) c") b'S' (pos 7 ∷ pos 42 ∷ pos 5 ∷ more) in
    (parse_proc_stat (pos 100) boot (some line)
      ≡ some (record {
        comm_start = 4;
        comm_length = 7;
        ppid = pos 7;
        pgid = pos 42;
        sid = pos 5;
        creation_ns = creation_time (pos 100) boot 4711;
      }))
    × (take 7 (drop 4 line) ≡ text "a (b) c")
unfolding int_onto digits_onto
parse_proc_stat-stat_line_example =
    parse_proc_stat-stat_line (pos 100) boot (text "42 ") (text "a (b) c") b'S' (pos 7) (pos 42)
      (pos 5) more 4711 (avoids-All b'(' (text "42 ") refl) (omega arith) (omega arith)
      (omega arith, omega arith) (omega arith, omega arith) (omega arith, omega arith) refl
      (omega arith)
      (avoids-All 0 (stat_line (text "42 ") (text "a (b) c") b'S' (pos 7 ∷ pos 42 ∷ pos 5 ∷ more))
        refl)
      (omega arith)

-- The boot time and 47.11 seconds.
creation_time_test : creation_time (pos 100) boot 4711 ≡ 1700000047110000000
unfolding creation_time boot_ns read_small_file c_string find_text starts_with strtoull unsigned_of
    skip_spaces is_space read_digits is_digit
creation_time_test = refl
