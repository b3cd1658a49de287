-- ===== src/Launcher/Session/Running.antt =====
-- The children that run after a trace.
use serena_de.CString.{CString}
use serena_de.Launcher.Session.{
  Event, spawned, terminated, unlinked, kill_event, kill_each, unlink_each,
}
use serena_de.Prelude.Int.{ℤ, pos, negsuc, pos_part}
use serena_de.Prelude.{
  ℕ, zero, suc, ◌<◌, ◌≡◌, ◌≢◌, refl, sym, ap, List, [], ◌∷◌, ◌++◌, ◌==◌, if◌then◌else◌, All, Some,
  All-map, Bool-cases, inl, inr, arith,
}

unfoldable pub remove : ℕ → List ℕ → List ℕ
remove p [] = []
remove p (q ∷ qs) = let rest = remove p qs in if q == p then rest else q ∷ rest

-- Those that were started and not terminated since.
unfoldable pub running : List Event → List ℕ
unfolding remove
running [] = []
running (spawned p ∷ es) = p ∷ running es
running (terminated p ∷ es) = remove p (running es)
running (unlinked path ∷ es) = running es

All-remove :
    (P : ℕ → Type 0) (p : ℕ) (qs : List ℕ) → All P qs → All (λ q. P q × (q ≢ p)) (remove p qs)
unfolding remove
All-remove P p [] h = tt
All-remove P p (q ∷ qs) h = elim (Bool-cases (q == p)) [
  | inl same ↦ rw same (All-remove P p qs h.1)
  | inr other ↦ rw other ((h.0, ground arith), All-remove P p qs h.1)
]

-- A pid that stands in a list of pids.
abbrev pub Listed : List ℤ → ℕ → Type 0
Listed pids p = (0 < p) × Some (λ z. z ≡ pos p) pids

Listed-tail : (z : ℤ) (pids : List ℤ) (p : ℕ) → z ≢ pos p → Listed (z ∷ pids) p → Listed pids p
Listed-tail z pids p h (positive, inl e) = absurd (h e)
Listed-tail z pids p h (positive, inr l) = (positive, l)

kill_event-pos : (n : ℕ) (es : List Event) → kill_event (pos (suc n)) es ≡ terminated (suc n) ∷ es
unfolding kill_event
kill_event-pos n es = ground arith

kill_event-neg : (n : ℕ) (es : List Event) → kill_event (negsuc n) es ≡ es
unfolding kill_event
kill_event-neg n es = ground arith

kill_event-Listed :
    (pid : ℤ) (pids : List ℤ) (es : List Event)
    → All (Listed (pid ∷ pids)) (running es)
    → All (Listed pids) (running (kill_event pid es))
unfolding kill_event running
kill_event-Listed (pos zero) pids es h =
    All-map (Listed (pos zero ∷ pids)) (Listed pids)
      (λ p l. Listed-tail (pos zero) pids p (λ e. omega (arith, l.0, ap pos_part e)) l) (running es)
      h
kill_event-Listed (pos (suc n)) pids es h = rw (kill_event-pos n es) (
    All-map (λ p. Listed (pos (suc n) ∷ pids) p × (p ≢ suc n)) (Listed pids)
      (λ p l. Listed-tail (pos (suc n)) pids p (λ e. l.1 (sym (ap pos_part e))) l.0)
      (remove (suc n) (running es))
      (All-remove (Listed (pos (suc n) ∷ pids)) (suc n) (running es) h))
kill_event-Listed (negsuc n) pids es h = rw (kill_event-neg n es) (
    All-map (Listed (negsuc n ∷ pids)) (Listed pids)
      (λ p l. Listed-tail (negsuc n) pids p (λ e. omega (arith, l.0, ap pos_part e)) l) (running es)
      h)

pub kill_each-Listed :
    (xs ys : List ℤ) (es : List Event)
    → All (Listed (xs ++ ys)) (running es)
    → All (Listed ys) (running (kill_each xs es))
unfolding kill_each
kill_each-Listed [] ys es h = h
kill_each-Listed (x ∷ xs) ys es h =
    kill_each-Listed xs ys (kill_event x es) (kill_event-Listed x (xs ++ ys) es h)

-- When every running child is killed, none runs.
pub running-kill_each :
    (pids : List ℤ) (es : List Event)
    → All (Listed pids) (running es)
    → running (kill_each pids es) ≡ []
unfolding kill_each
running-kill_each [] es h = nothing (running es) h
  where
    nothing : (ps : List ℕ) → All (Listed []) ps → ps ≡ []
    nothing [] h = refl
    nothing (p ∷ ps) h = absurd h.0.1
running-kill_each (pid ∷ pids) es h =
    running-kill_each pids (kill_event pid es) (kill_event-Listed pid pids es h)

pub running-unlink_each :
    (paths : List CString) (es : List Event) → running (unlink_each paths es) ≡ running es
unfolding unlink_each running
running-unlink_each [] es = refl
running-unlink_each (path ∷ paths) es = running-unlink_each paths (unlinked path ∷ es)
