-- ===== src/Launcher/Spawn/Handover.antt =====
-- The descriptors of each group's child in main of src/Launcher/main.cpp.
use mathlib.Core.List.{append_assoc}
use serena_de.CString.{CString, equal}
use serena_de.Launcher.Groups.{group_services}
use serena_de.Launcher.Groups.Partition.{indices_of, group_services-Partition}
use serena_de.Launcher.Spawn.{Listening, listeners_of, take_over}
use serena_de.Launcher.Takeover.{Table}
use serena_de.Launcher.Takeover.Descriptors.{
  Rising, Rising-mono, AreOpen, Placed, move_descriptors-Placed,
}
use serena_de.Prelude.{
  ℕ, ◌+◌, ◌≡◌, refl, ap, List, [], ◌∷◌, ◌++◌, some, map, All, All-map, length, length-append,
  get_elem?, if◌then◌else◌, Bool-cases, inl, inr, arith,
}

abbrev pub listener : Listening → ℕ × CString
listener s = (s.listener_fd, s.socket_path)

abbrev pub binary_of : Listening → CString
binary_of s = s.binary

-- The listeners of the services of a binary, in order.
abbrev pub matching : CString → List Listening → List (ℕ × CString)
matching b [] = []
matching b (s ∷ ss) =
    let rest = matching b ss in if equal s.binary b then listener s ∷ rest else rest

get_elem?-length :
    (pre : List Listening) (s : Listening) (ss : List Listening)
    → get_elem? (pre ++ s ∷ ss) (length pre) ≡ some s
get_elem?-length [] s ss = refl
get_elem?-length (p ∷ pre) s ss = get_elem?-length pre s ss

pub listeners_of-matching :
    (b : CString) (pre ss : List Listening)
    → listeners_of (pre ++ ss) (indices_of b (length pre) (map binary_of ss)) ≡ matching b ss
unfolding listeners_of
listeners_of-matching b pre [] = refl
listeners_of-matching b pre (s ∷ ss) =
    let longer : length (pre ++ s ∷ []) ≡ length pre + 1 = length-append pre (s ∷ []) in
    let rest : listeners_of (pre ++ s ∷ ss) (indices_of b (length pre + 1) (map binary_of ss))
        ≡ matching b ss =
      rw (append_assoc pre (s ∷ []) ss, longer) at (listeners_of-matching b (pre ++ s ∷ []) ss) in
    elim (Bool-cases (equal s.binary b)) [
      | inl same ↦
          rw same (rw (get_elem?-length pre s ss, listeners_of) (ap (◌∷◌ (listener s)) rest))
      | inr other ↦ rw other rest
    ]

pub matching-Rising :
    (b : CString) (low : ℕ) (ss : List Listening)
    → Rising low (map listener ss)
    → Rising low (matching b ss)
matching-Rising b low [] r = tt
matching-Rising b low (s ∷ ss) (h, r) = elim (Bool-cases (equal s.binary b)) [
  | inl same ↦ rw (same, Rising) (h, matching-Rising b (s.listener_fd + 1) ss r)
  | inr other ↦
      rw other (matching-Rising b low ss (Rising-mono _ _ (map listener ss) (omega arith) r))
]

pub matching-AreOpen :
    (b : CString) (t : Table) (ss : List Listening)
    → AreOpen t (map listener ss)
    → AreOpen t (matching b ss)
matching-AreOpen b t [] o = tt
matching-AreOpen b t (s ∷ ss) (h, o) = elim (Bool-cases (equal s.binary b)) [
  | inl same ↦ rw (same, AreOpen) (h, matching-AreOpen b t ss o)
  | inr other ↦ rw other (matching-AreOpen b t ss o)
]

-- Whatever binaries the services have, if their listeners are open, on descriptors that rise in the
-- order of the options and begin at 3 or above, then for every group that main forms the child's dup2
-- calls succeed, and its descriptors from 3 on are the listeners of exactly the services that have the
-- group's binary, in the order of the options.
pub take_over-Placed :
    (services : List Listening) (t : Table)
    → Rising 3 (map listener services)
    → AreOpen t (map listener services)
    → All
        (λ g.
          (t' : Table) × (take_over services g t ≡ some t')
          × Placed t t' 3 (matching g.binary services))
        (group_services (map binary_of services))
unfolding take_over
take_over-Placed services t rising are_open =
    All-map (λ g. g.members ≡ indices_of g.binary 0 (map binary_of services))
      (λ g.
        (t' : Table) × (take_over services g t ≡ some t')
        × Placed t t' 3 (matching g.binary services))
      (λ g e.
        rw (e, listeners_of-matching g.binary [] services)
          (move_descriptors-Placed (matching g.binary services) t
            (matching-Rising g.binary 3 services rising)
            (matching-AreOpen g.binary t services are_open)))
      (group_services (map binary_of services))
      (group_services-Partition (map binary_of services)).1
