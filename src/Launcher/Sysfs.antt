-- ===== src/Launcher/Sysfs.antt =====
-- write_sysfs_data of src/Launcher/main.cpp. What the system calls answer is a record; the text of
-- the process list is a parameter here.
pub mod Files
mod Tests
use serena_de.CString.{CString, text}
use serena_de.Launcher.Json.Value.{Piece, literal, decimal, escaped_string, emit, comma_piece}
use serena_de.Prelude.Int.{ℤ, pos, negsuc}
use serena_de.Prelude.{
  ℕ, zero, suc, ◌+◌, ◌-◌, ◌^◌, Bool, true, false, not, List, [], ◌∷◌, ◌++◌, Option, none, some,
  take, ltb, ◌==◌, if◌then◌else◌,
}

pub record StatVfs : Type 0 where
  pub f_bsize : ℕ
  pub f_blocks : ℕ
  pub f_bfree : ℕ
  pub f_files : ℕ
  pub f_ffree : ℕ

-- An interface, whether it has an IPv4 address, and inet_ntoa's text of the address.
pub record Adapter : Type 0 where
  pub name : CString
  pub has_inet : Bool
  pub address : CString

pub record Host : Type 0 where
  -- mkdir succeeds, or fails with EEXIST
  pub directory : CString → Bool
  -- fopen(path, "w") succeeds
  pub opens : CString → Bool
  -- sysconf of _SC_PHYS_PAGES, _SC_AVPHYS_PAGES and _SC_NPROCESSORS_ONLN
  pub phys_pages : ℤ
  pub avail_pages : ℤ
  pub processors : ℤ
  pub home : Option CString
  pub statvfs : CString → Option StatVfs
  pub getifaddrs : Option (List Adapter)

-- The files in the order of writing, exit(1), or a call of fprintf on a null pointer.
pub data Outcome : Type 0 where
  exits crashes : Outcome
  written : List (CString × CString) → Outcome

unfoldable pub and_file : CString × CString → Outcome → Outcome
and_file f exits = exits
and_file f crashes = crashes
and_file f (written fs) = written (f ∷ fs)

-- snprintf into a buffer of 4200 bytes.
abbrev pub path_in : CString → CString → CString
path_in dir name = take 4199 (dir ++ name)

-- (unsigned long long) of a long.
abbrev pub to_unsigned : ℤ → ℕ
to_unsigned (pos n) = n
to_unsigned (negsuc n) = 2 ^ 64 - suc n

-- The counts behind both clamps.
unfoldable pub phys_count : Host → ℕ
phys_count h = if to_unsigned h.phys_pages == 0 then 1 else to_unsigned h.phys_pages

unfoldable pub avail_count : Host → ℕ
unfolding phys_count
avail_count h =
    if ltb (phys_count h) (to_unsigned h.avail_pages)
    then phys_count h
    else to_unsigned h.avail_pages

unfoldable pub memstat : Host → List Piece
memstat h =
    literal (text "{\"kmalloc_allocated\":0,\"kmalloc_available\":0,\"physical_allocated\":")
    ∷ decimal (pos (phys_count h - avail_count h))
    ∷ literal (text ",\"physical_available\":")
    ∷ decimal (pos (avail_count h))
    ∷ literal (
        text
          ",\"physical_committed\":0,\"physical_uncommitted\":0,\"kmalloc_call_count\":0,\"kfree_call_count\":0}\n")
    ∷ []

unfoldable pub cpu_count : ℤ → ℕ
cpu_count (pos n) = if ltb n 1 then 1 else n
cpu_count (negsuc n) = 1

-- The loop from `i` on, with `left` processors to go.
unfoldable pub write_cpus : ℕ → ℕ → List Piece
write_cpus zero i = []
write_cpus (suc left) i =
    literal (if i == 0 then [] else text ",")
    ∷ literal (text "{\"processor\":")
    ∷ decimal (pos i)
    ∷ literal (text "}")
    ∷ write_cpus left (i + 1)

unfoldable pub cpuinfo : Host → List Piece
cpuinfo h =
    literal (text "[") ∷ (write_cpus (cpu_count h.processors) 0 ++ literal (text "]\n") ∷ [])

abbrev pub home_of : Host → CString
home_of h = elim h.home [ none ↦ text "." | some s ↦ s ]

unfoldable pub df : Host → List Piece
df h = elim (h.statvfs (home_of h)) [
  | none ↦ literal (text "[]\n") ∷ []
  | some sf ↦
      literal (text "[{\"mount_point\":")
      ∷ escaped_string (home_of h)
      ∷ literal (text ",\"source\":")
      ∷ escaped_string (text "serenade-shim")
      ∷ literal (text ",\"readonly\":false,\"mount_flags\":0,\"block_size\":")
      ∷ decimal (pos sf.f_bsize)
      ∷ literal (text ",\"total_block_count\":")
      ∷ decimal (pos sf.f_blocks)
      ∷ literal (text ",\"free_block_count\":")
      ∷ decimal (pos sf.f_bfree)
      ∷ literal (text ",\"total_inode_count\":")
      ∷ decimal (pos sf.f_files)
      ∷ literal (text ",\"free_inode_count\":")
      ∷ decimal (pos sf.f_ffree)
      ∷ literal (text "}]\n")
      ∷ []
]

unfoldable pub write_adapter : Adapter → List Piece
write_adapter a =
    literal (text "{\"name\":")
    ∷ escaped_string a.name
    ∷ literal (text ",\"ipv4_address\":")
    ∷ escaped_string a.address
    ∷ literal (
        text
          ",\"link_speed\":0,\"link_full_duplex\":false,\"packets_in\":0,\"packets_out\":0,\"bytes_in\":0,\"bytes_out\":0,\"packets_dropped\":0}")
    ∷ []

-- `first` is first_adapter.
unfoldable pub write_adapters : Bool → List Adapter → List Piece
unfolding write_adapter
write_adapters first [] = []
write_adapters first (a ∷ more) =
    let skipped = write_adapters first more in
    let next = write_adapters false more in
    if not a.has_inet then skipped else comma_piece first (write_adapter a ++ next)

unfoldable pub adapters : Host → List Piece
adapters h = literal (text "[") ∷ elim h.getifaddrs [
  | none ↦ literal (text "]\n") ∷ []
  | some list ↦ write_adapters true list ++ literal (text "]\n") ∷ []
]

module _ (h : Host) where
  -- A file that is opened, written and closed, and what follows. Only the first is checked for
  -- having been opened.
  unfoldable pub save : CString → List Piece → Outcome → Outcome
  unfolding and_file
  save path content rest = if h.opens path then and_file (path, emit [] content) rest else crashes

  unfoldable pub write_sysfs_data : CString → List Piece → Outcome
  unfolding save and_file
  write_sysfs_data dir processes =
      if not (h.directory dir)
      then exits
      else if not (h.directory (path_in dir (text "/net")))
      then exits
      else if not (h.opens (path_in dir (text "/processes")))
      then exits
      else save (path_in dir (text "/processes")) processes (
          save (path_in dir (text "/memstat")) (memstat h) (
            save (path_in dir (text "/cpuinfo")) (cpuinfo h) (
              save (path_in dir (text "/df")) (df h) (
                save (path_in dir (text "/net/adapters")) (adapters h) (
                  save (path_in dir (text "/net/tcp")) (literal (text "[]\n") ∷ []) (
                    save (path_in dir (text "/net/udp")) (literal (text "[]\n") ∷ [])
                      (written [])))))))
