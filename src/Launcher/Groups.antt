-- ===== src/Launcher/Groups.antt =====
-- main of src/Launcher/main.cpp, where it groups the services by binary. The parallel arrays
-- group_binaries, group_members and group_member_count are one list of groups.
pub mod Partition
mod Tests
use serena_de.CString.{CString, equal}
use serena_de.Prelude.{ℕ, ◌+◌, List, [], ◌∷◌, ◌++◌, if◌then◌else◌}

pub record Group : Type 0 where
  pub binary : CString
  pub members : List ℕ

-- The search for a group with the service's binary, and what is done with service `i` then.
unfoldable pub add_member : ℕ → CString → List Group → List Group
add_member i binary [] = record { binary = binary; members = i ∷ [] } ∷ []
add_member i binary (g ∷ gs) =
    let rest = add_member i binary gs in
    if equal g.binary binary then record g { members = g.members ++ i ∷ [] } ∷ gs else g ∷ rest

unfoldable pub add_services : ℕ → List Group → List CString → List Group
add_services i groups [] = groups
add_services i groups (binary ∷ rest) = add_services (i + 1) (add_member i binary groups) rest

-- The groups for the binaries of all services, in the order of the options.
unfoldable pub group_services : List CString → List Group
unfolding add_services add_member
group_services = add_services 0 []
