-- ===== src/Launcher/Groups/Tests.antt =====
-- Three services, two of them of one binary.
use serena_de.CString.{CString, text}
use serena_de.Launcher.Groups.Partition.{indices_of, Distinct, group_services-Partition}
use serena_de.Launcher.Groups.{group_services}
use serena_de.Prelude.{◌≡◌, List, [], ◌∷◌, All}

abbrev binaries : List CString
binaries = text "Clipboard" ∷ text "Config" ∷ text "Clipboard" ∷ []

group_services-Partition_example :
    Distinct (group_services binaries)
    × All (λ g. g.members ≡ indices_of g.binary 0 binaries) (group_services binaries)
group_services-Partition_example = group_services-Partition binaries
