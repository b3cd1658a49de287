-- ===== src/Launcher/Groups/Partition.antt =====
-- The grouping of services by binary in main of src/Launcher/main.cpp.
use mathlib.Core.List.{append-nil, append_assoc}
use serena_de.CString.Equality.{equal_iff, equal_refl}
use serena_de.CString.{CString, equal}
use serena_de.Launcher.Groups.{Group, add_member, add_services, group_services}
use serena_de.Prelude.{
  ap, All-map, ℕ, ◌+◌, ◌≡◌, refl, sym, ◌∙◌, inl, inr, false, List, [], ◌∷◌, ◌++◌, arith,
  if◌then◌else◌, Bool-cases, All,
}

-- The indices at which a binary stands, the first index being `start`.
abbrev pub indices_of : CString → ℕ → List CString → List ℕ
indices_of b start [] = []
indices_of b start (x ∷ xs) =
    let rest = indices_of b (start + 1) xs in if equal x b then start ∷ rest else rest

-- The members of the group of a binary.
abbrev pub members_of : CString → List Group → List ℕ
members_of b [] = []
members_of b (g ∷ gs) = if equal g.binary b then g.members else members_of b gs

-- No two groups have one binary.
abbrev pub Distinct : List Group → Type 0
Distinct [] = Unit
Distinct (g ∷ gs) = All (λ (k : Group). equal g.binary k.binary ≡ false) gs × Distinct gs

members_of-add_member :
    (b x : CString) (i : ℕ) (gs : List Group)
    → members_of b (add_member i x gs) ≡ members_of b gs ++ (if equal x b then i ∷ [] else [])
unfolding add_member
members_of-add_member b x i [] = refl
members_of-add_member b x i (g ∷ gs) = ground (
  arith,
  equal_iff g.binary x,
  equal_iff g.binary b,
  equal_iff x b,
  append-nil g.members,
  append-nil (members_of b gs),
  members_of-add_member b x i gs,
)

members_of-add_services :
    (b : CString) (bs : List CString) (i : ℕ) (gs : List Group)
    → members_of b (add_services i gs bs) ≡ members_of b gs ++ indices_of b i bs
unfolding add_services
members_of-add_services b [] i gs = sym (append-nil (members_of b gs))
members_of-add_services b (x ∷ bs) i gs =
    members_of-add_services b bs (i + 1) (add_member i x gs)
    ∙ rw (members_of-add_member b x i gs) (
        append_assoc (members_of b gs) (if equal x b then i ∷ [] else []) (indices_of b (i + 1) bs)
        ∙ ap (◌++◌ (members_of b gs)) (one_more b x i (indices_of b (i + 1) bs)))
  where
    one_more :
        (b x : CString) (i : ℕ) (rest : List ℕ)
        → (if equal x b then i ∷ [] else []) ++ rest ≡ (if equal x b then i ∷ rest else rest)
    one_more b x i rest = ground arith

All-add_member :
    (P : CString → Type 0) (i : ℕ) (x : CString) (gs : List Group)
    → P x
    → All (λ g. P g.binary) gs
    → All (λ g. P g.binary) (add_member i x gs)
unfolding add_member
All-add_member P i x [] p h = (p, tt)
All-add_member P i x (g ∷ gs) p h = elim (Bool-cases (equal g.binary x)) [
  | inl e ↦ rw e h
  | inr e ↦ rw e (h.0, All-add_member P i x gs p h.1)
]

Distinct-add_member :
    (i : ℕ) (x : CString) (gs : List Group) → Distinct gs → Distinct (add_member i x gs)
unfolding add_member
Distinct-add_member i x [] d = (tt, tt)
Distinct-add_member i x (g ∷ gs) d = elim (Bool-cases (equal g.binary x)) [
  | inl e ↦ rw e d
  | inr e ↦
      rw e (
        All-add_member (λ y. equal g.binary y ≡ false) i x gs e d.0,
        Distinct-add_member i x gs d.1,
      )
]

Distinct-add_services :
    (bs : List CString) (i : ℕ) (gs : List Group) → Distinct gs → Distinct (add_services i gs bs)
unfolding add_services
Distinct-add_services [] i gs d = d
Distinct-add_services (x ∷ bs) i gs d =
    Distinct-add_services bs (i + 1) (add_member i x gs) (Distinct-add_member i x gs d)

-- A group found by its binary in a list of distinct groups is that group.
own_members : (gs : List Group) → Distinct gs → All (λ g. members_of g.binary gs ≡ g.members) gs
own_members [] d = tt
own_members (g ∷ gs) d = (rw (equal_refl g.binary), All-zip gs d.0 (own_members gs d.1))
  where
    All-zip :
        (ks : List Group)
        → All (λ (k : Group). equal g.binary k.binary ≡ false) ks
        → All (λ k. members_of k.binary gs ≡ k.members) ks
        → All (λ k. members_of k.binary (g ∷ gs) ≡ k.members) ks
    All-zip [] h k = tt
    All-zip (x ∷ ks) h k = (rw (h.0, k.0), All-zip ks h.1 k.1)

-- No two groups have the same binary, and each group holds exactly the indices of the services
-- that have its binary, in increasing order.
pub group_services-Partition :
    (bs : List CString)
    → Distinct (group_services bs)
      × All (λ g. g.members ≡ indices_of g.binary 0 bs) (group_services bs)
unfolding group_services
group_services-Partition bs =
    let d = Distinct-add_services bs 0 [] tt in
    (
      d,
      All-map (λ g. members_of g.binary (group_services bs) ≡ g.members)
          (λ g. g.members ≡ indices_of g.binary 0 bs)
          (λ g e. sym e ∙ members_of-add_services g.binary bs 0 []) (group_services bs)
          (own_members (group_services bs) d),
    )

-- The services of every binary are in its group: none is left out.
pub members_of-group_services :
    (b : CString) (bs : List CString) → members_of b (group_services bs) ≡ indices_of b 0 bs
unfolding group_services
members_of-group_services b bs = members_of-add_services b bs 0 []
