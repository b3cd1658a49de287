-- ===== src/Launcher/Proc.antt =====
-- read_small_file, parse_proc_stat and read_status_field of src/Launcher/main.cpp. A file that opens
-- is its bytes; sysconf's clock rate and the text of /proc/stat are parameters.
pub mod Line
pub mod Fields
mod Tests
use serena_de.CString.{CString, text, c_string, split_at, split_last, find_text, atoi, strtoull}
use serena_de.Prelude.Int.{ℤ, pos, negsuc}
use serena_de.Prelude.{
  ℕ, zero, suc, ◌+◌, ◌-◌, ◌*◌, ◌/◌, ◌%◌, ◌^◌, List, [], ◌∷◌, Option, none, some, take, drop, length,
  get_elem?, ltb, ◌==◌, if◌then◌else◌,
}

abbrev pub File : Type 0
File = Option (List ℕ)

-- The buffer as a string: at most buffer_size - 1 bytes, up to the first NUL.
unfoldable pub read_small_file : File → ℕ → Option CString
read_small_file none buffer_size = none
read_small_file (some bytes) buffer_size = some (c_string (take (buffer_size - 1) bytes))

-- `comm` points into the local array `stat`, which is gone when parse_proc_stat has returned: kept are
-- where in the array it points, and how long the name is that is ended there by a NUL.
pub record Stat : Type 0 where
  pub comm_start : ℕ
  pub comm_length : ℕ
  pub ppid : ℤ
  pub pgid : ℤ
  pub sid : ℤ
  pub creation_ns : ℕ

unfoldable pub skip_blanks : CString → CString
skip_blanks [] = []
skip_blanks (c ∷ cs) = let rest = skip_blanks cs in if c == b' ' then rest else c ∷ cs

-- At most so many tokens. Each is the text from its start to the end of the line.
unfoldable pub tokens : ℕ → CString → List CString
tokens zero p = []
tokens (suc room) p = elim (skip_blanks p) [
  | [] ↦ []
  | c ∷ cs ↦
      (c ∷ cs) ∷ elim (split_at b' ' (c ∷ cs)) [ none ↦ [] | some q ↦ tokens room (b' ' ∷ q.1) ]
]

abbrev pub clock_rate : ℤ → ℕ
clock_rate (pos n) = if ltb n 1 then 100 else n
clock_rate (negsuc n) = 100

-- Nanoseconds in 64 bits.
abbrev pub nanoseconds : ℕ → ℕ
nanoseconds n = n * 1000000000 % 2 ^ 64

unfoldable pub boot_ns : CString → ℕ
boot_ns buffer = elim (find_text (text "btime ") buffer) [
  | none ↦ 0
  | some line ↦ nanoseconds (strtoull (drop 6 line))
]

-- creation_ns for a start in ticks since boot.
unfoldable pub creation_time : ℤ → File → ℕ → ℕ
creation_time hz proc_stat ticks = elim (read_small_file proc_stat 65536) [
  | none ↦ 0
  | some buffer ↦ (boot_ns buffer + nanoseconds ticks / clock_rate hz) % 2 ^ 64
]

abbrev pub starttime : List CString → ℕ
starttime fields = elim (get_elem? fields 19) [ none ↦ 0 | some s ↦ strtoull s ]

-- The fields behind the name; fewer than four are an error.
unfoldable pub stat_of : ℤ → File → ℕ → ℕ → List CString → Option Stat
stat_of hz proc_stat start size (t0 ∷ t1 ∷ t2 ∷ t3 ∷ ts) = some (record {
  comm_start = start;
  comm_length = size;
  ppid = atoi t1;
  pgid = atoi t2;
  sid = atoi t3;
  creation_ns = creation_time hz proc_stat (starttime (t0 ∷ t1 ∷ t2 ∷ t3 ∷ ts));
})
stat_of hz proc_stat start size _ = none

-- From the first opening parenthesis to the last closing one, which must stand behind it.
unfoldable pub parse_line : ℤ → File → CString → Option Stat
parse_line hz proc_stat stat = elim (split_at b'(' stat) [
  | none ↦ none
  | some opened ↦ elim (split_last b')' opened.1) [
    | none ↦ none
    | some closed ↦
        stat_of hz proc_stat (suc (length opened.0)) (length closed.0) (tokens 32 closed.1)
  ]
]

unfoldable pub parse_proc_stat : ℤ → File → File → Option Stat
parse_proc_stat hz proc_stat file = elim (read_small_file file 4096) [
  | none ↦ none
  | some stat ↦ parse_line hz proc_stat stat
]

unfoldable pub read_status_field : File → CString → ℕ
read_status_field file key = elim (read_small_file file 8192) [
  | none ↦ 0
  | some buffer ↦ elim (find_text key buffer) [
    | none ↦ 0
    | some line ↦ strtoull (drop (length key) line)
  ]
]
