-- ===== src/Launcher/Session/Slots.antt =====
-- Where main of src/Launcher/main.cpp keeps the pids of its children, and which of its steps give up
-- what a place holds.
use mathlib.Core.Bool.{false≢true}
use serena_de.Launcher.Session.Running.{running, Listed}
use serena_de.Launcher.Session.{
  Session, Step, World, spawn_window_server, wait_window_server, spawn_app, spawn_co_app,
  spawn_group, wait_service, is_member, pids_from, cleanup_pids, signal_pids, service_list,
}
use serena_de.Prelude.Int.{ℤ, pos}
use serena_de.Prelude.{
  ℕ, zero, suc, ◌+◌, ◌≤◌, ◌<◌, ◌≡◌, ap, sym, ◌∙◌, Bool, true, false, List, [], ◌∷◌, ◌++◌, length,
  All, Some, ◌⊎◌, inl, inr, arith, Bool-cases, ◌==◌,
}

pub data Slot : Type 0 where
  window_server app co_app : Slot
  service : ℕ → Slot

abbrev pub pid_at : Session → Slot → ℤ
pid_at s window_server = s.window_server_pid
pid_at s app = s.app_pid
pid_at s co_app = s.co_app_pid
pid_at s (service i) = s.service_pids i

-- A step that stores another pid there, or that may return without killing what is there.
abbrev pub loses : Step → Slot → Bool
loses spawn_window_server window_server = true
loses (spawn_group g) (service i) = is_member i g.members
loses spawn_app app = true
loses spawn_co_app co_app = true
loses wait_window_server app = true
loses wait_window_server co_app = true
loses (wait_service _) app = true
loses (wait_service _) co_app = true
loses _ _ = false

abbrev pub Kept : List Step → Slot → Type 0
Kept sts slot = All (λ st. loses st slot ≡ false) sts

abbrev pub InRange : ℕ → Slot → Type 0
InRange count (service i) = i < count
InRange count _ = Unit

-- A place for the services of which no step behind `sts` is unaware.
pub record Place (count : ℕ) (sts : List Step) (s : Session) (p : ℕ) : Type 0 where
  pub slot : Slot
  pub holds : pid_at s slot ≡ pos p
  pub in_range : InRange count slot
  pub kept : Kept sts slot

-- A child is tracked among the broker's children, which are never given up, or at a place. Beyond 32
-- broker children nothing is said.
abbrev pub Tracked : ℕ → List Step → Session → ℕ → Type 0
Tracked count sts s p =
    (0 < p)
    × ((32 ≤ length s.broker_children)
        ⊎ (Some (λ z. z ≡ pos p) s.broker_children ⊎ Place count sts s p))

abbrev pub AllTracked : ℕ → List Step → Session → Type 0
AllTracked count sts s = All (Tracked count sts s) (running s.events)

pub Some-append_left : (P : ℤ → Type 0) (xs ys : List ℤ) → Some P xs → Some P (xs ++ ys)
Some-append_left P [] ys h = absurd h
Some-append_left P (x ∷ xs) ys (inl h) = inl h
Some-append_left P (x ∷ xs) ys (inr h) = inr (Some-append_left P xs ys h)

pub Some-append_right : (P : ℤ → Type 0) (xs ys : List ℤ) → Some P ys → Some P (xs ++ ys)
Some-append_right P [] ys h = h
Some-append_right P (x ∷ xs) ys h = inr (Some-append_right P xs ys h)

Some-pids_from :
    (pids : ℕ → ℤ) (p i left j : ℕ)
    → i ≤ j
    → j < i + left
    → pids j ≡ pos p
    → Some (λ z. z ≡ pos p) (pids_from pids i left)
unfolding pids_from
Some-pids_from pids p i zero j low high e = absurd (omega arith)
Some-pids_from pids p i (suc left) j low high e = elim (Bool-cases (i == j)) [
  | inl same ↦ inl (ap pids (==→≡ i j same) ∙ e)
  | inr other ↦ inr (Some-pids_from pids p (i + 1) left j (further i j low other) (omega arith) e)
]
  where
    ==→≡ : (i j : ℕ) → (i == j) ≡ true → i ≡ j
    ==→≡ i j h = ground arith

    further : (i j : ℕ) → i ≤ j → (i == j) ≡ false → i + 1 ≤ j
    further i j h k = ground arith

-- What cleanup kills covers every child, where no step ahead may leave an app alone.
pub cleanup-Listed :
    (w : World) (st : Step) (rest : List Step) (s : Session) (p : ℕ)
    → loses st app ≡ true
    → loses st co_app ≡ true
    → length s.broker_children < 32
    → Tracked (length w.binaries) (st ∷ rest) s p
    → Listed (cleanup_pids w s) p
cleanup-Listed w st rest s p ha hc room (positive, inl full) = absurd (omega arith)
cleanup-Listed w st rest s p ha hc room (positive, inr (inl broker)) =
    (positive, Some-append_left _ s.broker_children _ broker)
cleanup-Listed w st rest s p ha hc room (positive, inr (inr place)) = (
  positive,
  Some-append_right _ s.broker_children _
      (found place.slot place.holds place.in_range place.kept.0),
)
  where
    found :
        (slot : Slot)
        → pid_at s slot ≡ pos p
        → InRange (length w.binaries) slot
        → loses st slot ≡ false
        → Some (λ z. z ≡ pos p) (service_list w s ++ s.window_server_pid ∷ [])
    found window_server e r k = Some-append_right _ (service_list w s) _ (inl e)
    found app e r k = absurd (false≢true (sym k ∙ ha))
    found co_app e r k = absurd (false≢true (sym k ∙ hc))
    found (service i) e r k =
        Some-append_left _ (service_list w s) _
          (Some-pids_from s.service_pids p 0 (length w.binaries) i (omega arith) (omega arith) e)

-- What is killed by the handler, and in the end, covers every child.
pub signal-Listed :
    (w : World) (sts : List Step) (s : Session) (p : ℕ)
    → length s.broker_children < 32
    → Tracked (length w.binaries) sts s p
    → Listed (signal_pids w s) p
signal-Listed w sts s p room (positive, inl full) = absurd (omega arith)
signal-Listed w sts s p room (positive, inr (inl broker)) =
    (positive, inr (inr (inr (Some-append_right _ (service_list w s) _ broker))))
signal-Listed w sts s p room (positive, inr (inr place)) =
    (positive, found place.slot place.holds place.in_range)
  where
    found :
        (slot : Slot)
        → pid_at s slot ≡ pos p
        → InRange (length w.binaries) slot
        → Some (λ z. z ≡ pos p) (signal_pids w s)
    found window_server e r = inr (inr (inl e))
    found app e r = inl e
    found co_app e r = inr (inl e)
    found (service i) e r = inr (
        inr (
          inr (
            Some-append_left _ (service_list w s) _ (
              Some-pids_from s.service_pids p 0 (length w.binaries) i (omega arith) (omega arith)
                e))))

pub finish-Listed :
    (w : World) (sts : List Step) (s : Session) (p : ℕ)
    → length s.broker_children < 32
    → Tracked (length w.binaries) sts s p
    → Listed (s.app_pid ∷ s.co_app_pid ∷ cleanup_pids w s) p
finish-Listed w sts s p room (positive, inl full) = absurd (omega arith)
finish-Listed w sts s p room (positive, inr (inl broker)) =
    (positive, inr (inr (Some-append_left _ s.broker_children _ broker)))
finish-Listed w sts s p room (positive, inr (inr place)) =
    (positive, found place.slot place.holds place.in_range)
  where
    found :
        (slot : Slot)
        → pid_at s slot ≡ pos p
        → InRange (length w.binaries) slot
        → Some (λ z. z ≡ pos p) (s.app_pid ∷ s.co_app_pid ∷ cleanup_pids w s)
    found window_server e r = inr (
        inr (
          Some-append_right _ s.broker_children _
            (Some-append_right _ (service_list w s) _ (inl e))))
    found app e r = inl e
    found co_app e r = inr (inl e)
    found (service i) e r = inr (
        inr (
          Some-append_right _ s.broker_children _ (
            Some-append_left _ (service_list w s) _ (
              Some-pids_from s.service_pids p 0 (length w.binaries) i (omega arith) (omega arith)
                e))))
