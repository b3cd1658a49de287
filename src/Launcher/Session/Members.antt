-- ===== src/Launcher/Session/Members.antt =====
-- A service that only one of main's groups has.
use mathlib.Core.Bool.{false≢true}
use serena_de.CString.Equality.{equal_iff}
use serena_de.CString.{CString, equal}
use serena_de.Launcher.Groups.Partition.{Distinct, indices_of, group_services-Partition}
use serena_de.Launcher.Groups.{Group, add_member, add_services, group_services}
use serena_de.Launcher.Session.{is_member}
use serena_de.Prelude.{
  ℕ, ◌+◌, ◌≤◌, ◌<◌, ◌≡◌, refl, sym, ◌∙◌, true, false, ◌==◌, List, [], ◌∷◌, ◌++◌, length, All, inl,
  inr, ◌⊎◌, arith, Bool-cases, ==_refl,
}

is_member-range :
    (i : ℕ) (b : CString) (start : ℕ) (bs : List CString)
    → is_member i (indices_of b start bs) ≡ true
    → (start ≤ i) × (i < start + length bs)
unfolding is_member
is_member-range i b start [] h = absurd (false≢true h)
is_member-range i b start (x ∷ xs) h = elim (Bool-cases (equal x b)) [
  | inl same ↦ elim (Bool-cases (start == i)) [
    | inl here ↦ (ground arith, ground arith)
    | inr later ↦
        let (low, high) = is_member-range i b (start + 1) xs (rw (same, is_member, later) at h) in
        (omega arith, omega arith)
  ]
  | inr other ↦
      let (low, high) = is_member-range i b (start + 1) xs (rw other at h) in
      (omega arith, omega arith)
]

-- What is behind the first index is a member of the rest.
member-rest :
    (i : ℕ) (b : CString) (start : ℕ) (xs : List CString)
    → (start == i) ≡ false
    → is_member i (start ∷ indices_of b (start + 1) xs) ≡ true
    → is_member i (indices_of b (start + 1) xs) ≡ true
unfolding is_member
member-rest i b start xs e h = rw e at h

not_first :
    (i : ℕ) (b : CString) (start : ℕ) (xs : List CString)
    → is_member i (indices_of b (start + 1) xs) ≡ true
    → (start == i) ≡ false
not_first i b start xs h = let (low, high) = is_member-range i b (start + 1) xs h in ground arith

is_member-own :
    (i : ℕ) (b c : CString) (start : ℕ) (bs : List CString)
    → is_member i (indices_of b start bs) ≡ true
    → is_member i (indices_of c start bs) ≡ true
    → b ≡ c
unfolding is_member
is_member-own i b c start [] h k = absurd (false≢true h)
is_member-own i b c start (x ∷ xs) h k = elim (Bool-cases (equal x b)) [
  | inl eb ↦ elim (Bool-cases (equal x c)) [
    | inl ec ↦ sym ((equal_iff x b).0 eb) ∙ (equal_iff x c).0 ec
    | inr nc ↦
        let later = rw nc at k in
        is_member-own i b c (start + 1) xs
          (member-rest i b start xs (not_first i c start xs later) (rw eb at h)) later
  ]
  | inr nb ↦
      let later = rw nb at h in
      elim (Bool-cases (equal x c)) [
        | inl ec ↦
            is_member-own i b c (start + 1) xs later
              (member-rest i c start xs (not_first i b start xs later) (rw ec at k))
        | inr nc ↦ is_member-own i b c (start + 1) xs later (rw nc at k)
      ]
]

abbrev pub HasMember : List ℕ → Type 0
HasMember ms = (i : ℕ) × (is_member i ms ≡ true)

first-HasMember : (i : ℕ) (ms : List ℕ) → HasMember (i ∷ ms)
unfolding is_member
first-HasMember i ms = (i, rw (==_refl i) refl)

append-HasMember : (ms : List ℕ) (i : ℕ) → HasMember (ms ++ i ∷ [])
append-HasMember [] i = first-HasMember i []
append-HasMember (m ∷ ms) i = first-HasMember m (ms ++ i ∷ [])

add_member-HasMember :
    (i : ℕ) (x : CString) (gs : List Group)
    → All (λ g. HasMember g.members) gs
    → All (λ g. HasMember g.members) (add_member i x gs)
unfolding add_member
add_member-HasMember i x [] h = (first-HasMember i [], tt)
add_member-HasMember i x (g ∷ gs) h = elim (Bool-cases (equal g.binary x)) [
  | inl e ↦ rw e (append-HasMember g.members i, h.1)
  | inr e ↦ rw e (h.0, add_member-HasMember i x gs h.1)
]

add_services-HasMember :
    (bs : List CString) (i : ℕ) (gs : List Group)
    → All (λ g. HasMember g.members) gs
    → All (λ g. HasMember g.members) (add_services i gs bs)
unfolding add_services
add_services-HasMember [] i gs h = h
add_services-HasMember (x ∷ bs) i gs h =
    add_services-HasMember bs (i + 1) (add_member i x gs) (add_member-HasMember i x gs h)

-- Each group has a service that is in no later group.
abbrev pub Apart : ℕ → List Group → Type 0
Apart count [] = Unit
Apart count (g ∷ gs) =
    ((i : ℕ) × (i < count)
      × (is_member i g.members ≡ true)
      × All (λ (k : Group). is_member i k.members ≡ false) gs)
    × Apart count gs

apart :
    (bs : List CString) (gs : List Group)
    → Distinct gs
    → All (λ g. g.members ≡ indices_of g.binary 0 bs) gs
    → All (λ g. HasMember g.members) gs
    → Apart (length bs) gs
apart bs [] d e h = tt
apart bs (g ∷ gs) d e h =
    let (i, m) = h.0 in
    let own : is_member i (indices_of g.binary 0 bs) ≡ true = rw (e.0) at m in
    (
      (i, omega (arith, (is_member-range i g.binary 0 bs own).1), m, others i own gs d.0 e.1),
      apart bs gs d.1 e.1 h.1,
    )
  where
    others :
        (i : ℕ)
        → is_member i (indices_of g.binary 0 bs) ≡ true
        → (ks : List Group) → All (λ (k : Group). equal g.binary k.binary ≡ false) ks
        → All (λ k. k.members ≡ indices_of k.binary 0 bs) ks
        → All (λ (k : Group). is_member i k.members ≡ false) ks
    others i own [] d e = tt
    others i own (k ∷ ks) d e = (one (Bool-cases (is_member i k.members)), others i own ks d.1 e.1)
      where
        one :
            ((is_member i k.members ≡ true) ⊎ (is_member i k.members ≡ false))
            → is_member i k.members ≡ false
        one (inl m) = absurd (
            false≢true (
              sym d.0
              ∙ (equal_iff g.binary k.binary).1
                  (is_member-own i g.binary k.binary 0 bs own (rw e.0 at m))))
        one (inr m) = m

pub group_services-Apart : (bs : List CString) → Apart (length bs) (group_services bs)
unfolding group_services
group_services-Apart bs =
    let (distinct, members) = group_services-Partition bs in
    apart bs (group_services bs) distinct members (add_services-HasMember bs 0 [] tt)
