-- ===== src/Launcher/System.antt =====
-- What src/Launcher/main.cpp asks the operating system about processes: files and links by path, and
-- the names in a directory. All answers of one run belong together.
use serena_de.CString.{CString}
use serena_de.Launcher.Proc.{File}
use serena_de.Prelude.Int.{ℤ}
use serena_de.Prelude.{ℕ, List, Option}

pub record System : Type 0 where
  -- fopen and fread, readlink, opendir and readdir, sysconf(_SC_CLK_TCK)
  pub content : CString → File
  pub link : CString → Option (List ℕ)
  pub names : CString → Option (List CString)
  pub clock_ticks : ℤ
  -- What json_escape reads through the pointer to the name that parse_proc_stat of this path gave:
  -- the array is gone by then, so this is whatever the memory holds.
  pub stale_name : CString → CString
