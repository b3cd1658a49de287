-- ===== src/Launcher/OpenFiles/Lowest.antt =====
-- Descriptors that are the lowest free ones when they are given, for main of src/Launcher/main.cpp.
use serena_de.Launcher.OpenFiles.{fd_of, open_each}
use serena_de.Launcher.Spawn.{Listening}
use serena_de.Launcher.Spawn.Handover.{listener}
use serena_de.Launcher.Takeover.{Table, update}
use serena_de.Launcher.Takeover.Descriptors.{Rising, AreOpen}
use serena_de.Prelude.{
  ℕ, ◌+◌, ◌≤◌, ◌<◌, ◌≡◌, refl, List, [], ◌∷◌, ◌++◌, none, some, map, length, arith, ltb, ◌==◌,
  Bool-cases, inl, inr,
}

abbrev pub IsOpen : Table → ℕ → Type 0
IsOpen t fd = (file : ℕ) × (t fd ≡ some file)

-- What open, socket, accept and mkfifo's reader promise: the lowest number that is not open.
abbrev pub IsLowest : Table → ℕ → Type 0
IsLowest t fd = (t fd ≡ none) × ((j : ℕ) → j < fd → IsOpen t j)

-- Each descriptor is the lowest free one when it is given.
abbrev pub AreLowest : ℕ → List ℕ → Table → Type 0
AreLowest file [] t = Unit
AreLowest file (fd ∷ fds) t = IsLowest t fd × AreLowest (file + 1) fds (update t fd file)

-- All below a number are open.
abbrev pub IsFull : Table → ℕ → Type 0
IsFull t low = (j : ℕ) → j < low → IsOpen t j

abbrev pub RisingFds : ℕ → List ℕ → Type 0
RisingFds low [] = Unit
RisingFds low (fd ∷ fds) = (low ≤ fd) × RisingFds (fd + 1) fds

pub IsOpen-update : (t : Table) (fd file j : ℕ) → IsOpen t j → IsOpen (update t fd file) j
IsOpen-update t fd file j (f, e) = elim (Bool-cases (j == fd)) [
  | inl same ↦ (file, rw same refl)
  | inr other ↦ (f, rw other e)
]

pub IsOpen-here : (t : Table) (fd file : ℕ) → IsOpen (update t fd file) fd
IsOpen-here t fd file = (file, ground arith)

pub IsOpen-open_each :
    (fds : List ℕ) (file : ℕ) (t : Table) (j : ℕ) → IsOpen t j → IsOpen (open_each file fds t) j
unfolding open_each
IsOpen-open_each [] file t j o = o
IsOpen-open_each (fd ∷ fds) file t j o =
    IsOpen-open_each fds (file + 1) (update t fd file) j (IsOpen-update t fd file j o)

-- The lowest free descriptor is not below what is full.
pub IsLowest-le : (t : Table) (low fd : ℕ) → IsFull t low → IsLowest t fd → low ≤ fd
IsLowest-le t low fd full (free, _) = elim (Bool-cases (ltb fd low)) [
  | inl below ↦ absurd (taken (full fd (ground arith)))
  | inr above ↦ ground arith
]
  where
    taken : IsOpen t fd → ⊥
    taken (file, e) = cc (e, free)

pub IsFull-update : (t : Table) (fd file : ℕ) → IsLowest t fd → IsFull (update t fd file) (fd + 1)
IsFull-update t fd file (free, below) j h = elim (Bool-cases (j == fd)) [
  | inl same ↦ (file, rw same refl)
  | inr other ↦ IsOpen-update t fd file j (below j (ground arith))
]

pub AreLowest-RisingFds :
    (fds : List ℕ) (file low : ℕ) (t : Table)
    → IsFull t low
    → AreLowest file fds t
    → RisingFds low fds
AreLowest-RisingFds [] file low t full h = tt
AreLowest-RisingFds (fd ∷ fds) file low t full (lowest, h) = (
  IsLowest-le t low fd full lowest,
  AreLowest-RisingFds fds (file + 1) (fd + 1) (update t fd file) (IsFull-update t fd file lowest) h,
)

-- The last of several is free in the table that the ones before it leave, and behind them all.
pub last-IsLowest :
    (fds : List ℕ) (fd file : ℕ) (t : Table)
    → AreLowest file (fds ++ fd ∷ []) t
    → IsLowest (open_each file fds t) fd
unfolding open_each
last-IsLowest [] fd file t (lowest, _) = lowest
last-IsLowest (first ∷ fds) fd file t (_, h) =
    last-IsLowest fds fd (file + 1) (update t first file) h

pub last-RisingFds :
    (fds : List ℕ) (fd low : ℕ) → RisingFds low (fds ++ fd ∷ []) → low + length fds ≤ fd
last-RisingFds [] fd low (h, _) = omega arith
last-RisingFds (first ∷ fds) fd low (h, hs) =
    let rest = last-RisingFds fds fd (first + 1) hs in omega arith

-- The listeners that main opens among other descriptors.
pub RisingFds-Rising :
    (ss : List Listening) (rest : List ℕ) (low : ℕ)
    → RisingFds low (map fd_of ss ++ rest)
    → Rising low (map listener ss)
RisingFds-Rising [] rest low h = tt
RisingFds-Rising (s ∷ ss) rest low (h, hs) = (h, RisingFds-Rising ss rest (s.listener_fd + 1) hs)

pub open_each-AreOpen :
    (ss : List Listening) (rest : List ℕ) (file : ℕ) (t : Table)
    → AreOpen (open_each file (map fd_of ss ++ rest) t) (map listener ss)
unfolding open_each
open_each-AreOpen [] rest file t = tt
open_each-AreOpen (s ∷ ss) rest file t = (
  IsOpen-open_each (map fd_of ss ++ rest) (file + 1) (update t s.listener_fd file) s.listener_fd
      (IsOpen-here t s.listener_fd file),
  open_each-AreOpen ss rest (file + 1) (update t s.listener_fd file),
)
