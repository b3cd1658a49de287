-- ===== src/Launcher/Sockets.antt =====
-- make_ancestor_directories, create_listening_socket and setup_input_root of src/Launcher/main.cpp, as
-- the system calls they make until they are done or one fails, which ends the program with status 1.
-- A path is not empty.
pub mod Ancestors
mod Tests
use serena_de.CString.{CString, text}
use serena_de.Prelude.{
  Bool, true, false, ◌&&◌, List, [], ◌∷◌, ◌++◌, Option, none, some, take, ◌==◌, if◌then◌else◌,
}

pub data Call : Type 0 where
  mkdir unlink bind mkfifo open_fifo : CString → Call
  socket listen : Call

-- Whether a call succeeds; for mkdir, also where the directory is there. Descriptors are not modelled.
abbrev pub Os : Type 0
Os = Call → Bool

-- Nobody looks at what unlink returns.
abbrev pub unchecked : Os → Os
unchecked os (unlink path) = true
unchecked os c = os c

-- The calls made, and whether the program goes on.
pub record Trace : Type 0 where
  pub calls : List Call
  pub goes_on : Bool

-- Calls one after the other, up to the first that fails.
unfoldable pub perform : Os → List Call → Trace
perform os [] = record { calls = []; goes_on = true }
perform os (c ∷ cs) =
    let rest = perform os cs in
    if os c
    then record { calls = c ∷ rest.calls; goes_on = rest.goes_on }
    else record { calls = c ∷ []; goes_on = false }

-- The loop of make_ancestor_directories: mkdir at every slash behind the first byte, for the text
-- `seen` in front of it.
unfoldable pub ancestors_from : CString → CString → List Call
ancestors_from seen [] = []
ancestors_from seen (c ∷ cs) =
    let rest = ancestors_from (seen ++ c ∷ []) cs in if c == b'/' then mkdir seen ∷ rest else rest

unfoldable pub ancestors : CString → List Call
unfolding ancestors_from
ancestors [] = []
ancestors (c ∷ cs) = ancestors_from (c ∷ []) cs

-- The copy of the path has 4096 bytes.
unfoldable pub make_ancestor_directories : CString → List Call
unfolding ancestors
make_ancestor_directories path = ancestors (take 4095 path)

-- sun_path has 108 bytes; unlink is not checked.
unfoldable pub create_listening_socket : Os → CString → Trace
unfolding perform
create_listening_socket os path =
    perform (unchecked os)
      (make_ancestor_directories path ++ unlink path ∷ socket ∷ bind (take 107 path) ∷ listen ∷ [])

abbrev pub device_path : CString → CString → CString
device_path input_root name = take 4095 (input_root ++ name)

-- unlink, then mkfifo.
abbrev pub make_fifo : CString → List Call
make_fifo path = unlink path ∷ mkfifo path ∷ []

-- Both FIFOs are opened before either descriptor is looked at.
unfoldable pub setup_input_root : Os → CString → Trace
unfolding perform
setup_input_root os input_root =
    let keyboard = device_path input_root (text "/keyboard/kbd0") in
    let mouse = device_path input_root (text "/mouse/mouse0") in
    let prepared = perform (unchecked os) (
      make_ancestor_directories input_root
      ++ mkdir input_root
        ∷ mkdir (device_path input_root (text "/keyboard"))
        ∷ mkdir (device_path input_root (text "/mouse"))
        ∷ (make_fifo keyboard ++ make_fifo mouse)) in
    if prepared.goes_on
    then record {
      calls = prepared.calls ++ open_fifo keyboard ∷ open_fifo mouse ∷ [];
      goes_on = os (open_fifo keyboard) && os (open_fifo mouse);
    }
    else prepared
