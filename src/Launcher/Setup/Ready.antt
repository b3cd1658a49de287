-- ===== src/Launcher/Setup/Ready.antt =====
-- What main of src/Launcher/main.cpp finds at its sockets once its preparation is done.
use serena_de.CString.{CString}
use serena_de.Launcher.Options.{Float, Options}
use serena_de.Launcher.Setup.Calls.{
  calls_of, calls_of-append, then_at-Both, IsQueued, IsQueued-append,
}
use serena_de.Launcher.Setup.Keeping.{Apart, prepare_session-Keeps}
use serena_de.Launcher.Setup.Listening.{listen_all-IsQueued}
use serena_de.Launcher.Setup.{proceeds, listen_all, Machine, socket_paths, prepare_session, prepare}
use serena_de.Prelude.{◌≡◌, ◌≤◌, sym, ap, subst, ◌∙◌, length, All, Some}

module _ {F : Float} (m : Machine) (res_root screenshot_path : CString) (o : Options F)
    (path : CString) where
  -- Where main goes on behind its preparation, every path among the sockets, the window server's two,
  -- the services' and the brokers', has been bound to a socket that listens at once, and nothing behind
  -- that, up to the first child, unlinks that path, even where two services have the same one. No path
  -- is longer than an address holds, and the input FIFOs are not at the path.
  pub prepare-IsQueued :
      (prepare m res_root screenshot_path o).ending ≡ proceeds
      → All (λ q. length q ≤ 107) (socket_paths o)
      → Some (λ q. q ≡ path) (socket_paths o)
      → Apart path o.input_root
      → IsQueued path (calls_of (prepare m res_root screenshot_path o).effects)
  unfolding prepare
  prepare-IsQueued ends short here apart =
      let listening = listen_all m.os (socket_paths o) in
      let rest = prepare_session m res_root screenshot_path o in
      let (first, second, e) = then_at-Both listening.effects listening.ending rest ends in
      subst (IsQueued path) (sym (ap calls_of e ∙ calls_of-append listening.effects rest.effects)) (
        IsQueued-append path (calls_of listening.effects) (calls_of rest.effects)
          (listen_all-IsQueued m.os path (socket_paths o) short first here)
          (prepare_session-Keeps m res_root screenshot_path o path apart))
