-- ===== src/Launcher/Sockets/Tests.antt =====
-- The window server's socket, on a system where every call succeeds.
use serena_de.CString.{CString, text}
use serena_de.Launcher.Sockets.Ancestors.{create_listening_socket-Binds}
use serena_de.Launcher.Sockets.{
  Call, mkdir, unlink, bind, listen, Os, create_listening_socket, make_ancestor_directories,
  ancestors, ancestors_from, perform,
}
use serena_de.Prelude.{◌≡◌, ◌≢◌, refl, true, List, [], ◌∷◌, ◌++◌, Some, arith}

abbrev os : Os
os = λ c. true

create_listening_socket-Binds_example :
    (before : List Call) × ((create_listening_socket os (text "/tmp/portal/window")).calls
      ≡ before ++ bind (text "/tmp/portal/window") ∷ listen ∷ [])
    × ((p q : CString)
        → p ≢ []
        → text "/tmp/portal/window" ≡ p ++ b'/' ∷ q
        → Some (λ d. d ≡ mkdir p) before)
    × Some (λ d. d ≡ unlink (text "/tmp/portal/window")) before
unfolding create_listening_socket perform make_ancestor_directories ancestors ancestors_from
create_listening_socket-Binds_example =
    create_listening_socket-Binds os (text "/tmp/portal/window") (omega arith) refl

make_ancestor_directories_test :
    make_ancestor_directories (text "/tmp/portal/window")
    ≡ mkdir (text "/tmp") ∷ mkdir (text "/tmp/portal") ∷ []
unfolding make_ancestor_directories ancestors ancestors_from
make_ancestor_directories_test = refl
