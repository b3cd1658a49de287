-- ===== src/Launcher/Setup/Tests.antt =====
-- A launcher with one service, an input root and a home, on a system where every call succeeds.
use serena_de.CString.{text, equal}
use serena_de.Launcher.Options.{Float, Options, defaults}
use serena_de.Launcher.Setup.Calls.{calls_of, IsQueued}
use serena_de.Launcher.Setup.Ready.{prepare-IsQueued}
use serena_de.Launcher.Setup.{
  Machine, then_at, listen_all, configure, prepare_input, prepare_sysfs, prepare_session, prepare,
}
use serena_de.Launcher.Sockets.{
  create_listening_socket, make_ancestor_directories, ancestors, ancestors_from, perform,
  setup_input_root,
}
use serena_de.Launcher.Sysfs.{save, and_file, write_sysfs_data}
use serena_de.Prelude.Int.{ℤ, pos, negsuc}
use serena_de.Prelude.{◌≡◌, refl, ap, true, false, [], ◌∷◌, none, some, arith, inl, inr}

abbrev float : Float
float = record { Double = ℤ; atof = λ s. pos 0; minus_one = negsuc 0 }

abbrev options : Options float
options = record (defaults float) {
  services = record { socket_path = text "/tmp/portal/config"; binary = text "ConfigServer" } ∷ [];
  input_root = some (text "/tmp/input");
  home = some (text "/home");
}

abbrev machine : Machine
machine = record {
  os = λ c. true;
  host = record {
    directory = λ path. true;
    opens = λ path. true;
    phys_pages = pos 1000;
    avail_pages = pos 10;
    processors = pos 2;
    home = none;
    statvfs = λ path. none;
    getifaddrs = none;
  };
  system = record {
    content = λ path. none;
    link = λ path. none;
    names = λ path. none;
    clock_ticks = pos 100;
    stale_name = λ path. [];
  };
}

prepare-IsQueued_example :
    IsQueued
      (text "/tmp/portal/config")
      (calls_of (prepare machine (text "/res") (text "out.png") options).effects)
unfolding prepare prepare_session prepare_sysfs prepare_input configure listen_all then_at
    create_listening_socket perform setup_input_root make_ancestor_directories ancestors
    ancestors_from write_sysfs_data save and_file equal
prepare-IsQueued_example =
    prepare-IsQueued machine (text "/res") (text "out.png") options (text "/tmp/portal/config") refl
      (omega arith, (omega arith, (omega arith, tt))) (inr (inr (inl refl)))
      (
        (λ e. let t : true ≡ false = ap (equal (text "/tmp/input/keyboard/kbd0")) e in cc),
        (λ e. let t : true ≡ false = ap (equal (text "/tmp/input/mouse/mouse0")) e in cc),
      )
