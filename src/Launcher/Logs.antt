-- ===== src/Launcher/Logs.antt =====
-- dump_failure_logs of src/Launcher/main.cpp, on the bytes of both logs; none is a log that cannot be
-- opened. fgets is get_line of Script/Lines.antt. The loop is on fuel: a turn takes a byte at least.
pub mod Dump
use serena_de.CString.{CString, text, c_string}
use serena_de.Launcher.Script.Lines.{get_line}
use serena_de.Prelude.{
  ℕ, zero, suc, ◌+◌, ◌*◌, List, [], ◌∷◌, ◌++◌, Option, none, some, length, leb, ltb, if◌then◌else◌,
}

abbrev pub cap : ℕ
cap = 32 * 1024

-- What is written of a log from `dumped` bytes on; of a line, what stands in front of a NUL.
unfoldable pub dump_lines : ℕ → ℕ → List ℕ → List ℕ
dump_lines zero dumped file = []
dump_lines (suc fuel) dumped [] = []
dump_lines (suc fuel) dumped (c ∷ cs) =
    let chunk = get_line 4095 (c ∷ cs) in
    let written = c_string chunk.0 in
    let rest = dump_lines fuel (dumped + length written) chunk.1 in
    if ltb dumped cap then written ++ rest else []

unfoldable pub dump_log : List ℕ → List ℕ
dump_log file = dump_lines (length file) 0 file

unfoldable pub dump_named : CString → Option (List ℕ) → List ℕ
dump_named name none = []
dump_named name (some file) =
    text "serenade-launcher: --- "
    ++ (name
        ++ (text " ---\n"
            ++ (dump_log file
                ++ (if leb cap (length (dump_log file))
                    then text "serenade-launcher: --- "
                      ++ (name ++ text " truncated at 32 KiB ---\n")
                    else []))))

unfoldable pub dump_failure_logs : Option (List ℕ) → Option (List ℕ) → List ℕ
unfolding dump_named dump_log
dump_failure_logs app windowserver =
    dump_named (text "serenade-app.log") app
    ++ dump_named (text "serenade-windowserver.log") windowserver
