-- ===== src/Launcher/Sysfs/Tests.antt =====
-- A host of two processors and one interface.
use serena_de.CString.{CString, text}
use serena_de.Launcher.Json.Value.{literal, emit, render_onto, array, no_items}
use serena_de.Launcher.Sysfs.Files.{
  memstat_value, cpu_items, df_items, adapter_items, adapters_of, write_sysfs_data-Refines,
}
use serena_de.Launcher.Sysfs.{Host, written, path_in, cpu_count, write_sysfs_data}
use serena_de.Prelude.Int.{pos, negsuc}
use serena_de.Prelude.{◌≡◌, refl, true, false, [], ◌∷◌, none, some}

-- sysconf does not know the number of available pages.
abbrev host : Host
host = record {
  directory = λ path. true;
  opens = λ path. true;
  phys_pages = pos 1000;
  avail_pages = negsuc 0;
  processors = pos 2;
  home = none;
  statvfs = λ path.
      some (record { f_bsize = 4096; f_blocks = 100; f_bfree = 10; f_files = 7; f_ffree = 2 });
  getifaddrs = some (
      record { name = text "tun0"; has_inet = false; address = [] }
      ∷ record { name = text "lo"; has_inet = true; address = text "127.0.0.1" }
      ∷ []);
}

abbrev dir : CString
dir = text "/tmp/sys"

write_sysfs_data-Refines_example :
    write_sysfs_data host dir (literal (text "{}") ∷ [])
    ≡ written (
        (path_in dir (text "/processes"), emit [] (literal (text "{}") ∷ []))
        ∷ (path_in dir (text "/memstat"), render_onto (10 ∷ []) (memstat_value host))
        ∷ (
          path_in dir (text "/cpuinfo"),
          render_onto (10 ∷ []) (array (cpu_items (cpu_count host.processors) 0)),
        )
        ∷ (path_in dir (text "/df"), render_onto (10 ∷ []) (array (df_items host)))
        ∷ (
          path_in dir (text "/net/adapters"),
          render_onto (10 ∷ []) (array (adapter_items (adapters_of host))),
        )
        ∷ (path_in dir (text "/net/tcp"), render_onto (10 ∷ []) (array no_items))
        ∷ (path_in dir (text "/net/udp"), render_onto (10 ∷ []) (array no_items))
        ∷ [])
write_sysfs_data-Refines_example =
    write_sysfs_data-Refines host dir (literal (text "{}") ∷ []) (λ path. refl) (λ path. refl)
