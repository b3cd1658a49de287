-- ===== src/Launcher/OpenFiles/Plain.antt =====
-- The descriptors of the app and the co-app: spawn_plain of src/Launcher/main.cpp.
use serena_de.Launcher.OpenFiles.{spawn_plain}
use serena_de.Launcher.OpenFiles.Handing.{close-update}
use serena_de.Launcher.OpenFiles.Lowest.{IsFull, IsLowest, IsLowest-le}
use serena_de.Launcher.Takeover.{Table, update, close}
use serena_de.Launcher.Takeover.Log.{redirect_log-open}
use serena_de.Prelude.{ℕ, ◌≡◌, ◌≢◌, refl, ap, true, none, some, arith, ne→==_false, ==_refl}

-- The app's child, if stdin, stdout and stderr are open and the system gives the lowest free
-- descriptor for its log: at its execv the log is its stderr, and is open nowhere else that it was;
-- every other descriptor is the launcher's, and the launcher has afterwards what it had before.
pub spawn_plain-log :
    (t : Table) (log file : ℕ)
    → IsFull t 3
    → IsLowest t log
    → (child : Table) × (parent : Table) × (spawn_plain true (some log) file t
        ≡ some (child, parent))
      × (child 2 ≡ some file)
      × (child log ≡ none)
      × ((j : ℕ) → j ≢ 2 → j ≢ log → child j ≡ t j)
      × ((j : ℕ) → parent j ≡ t j)
unfolding spawn_plain
spawn_plain-log t log file full lowest =
    let behind = IsLowest-le t 3 log full lowest in
    let u = update t log file in
    let at_log : u log ≡ some file = rw (==_refl log) refl in
    (
      close log (update u 2 file),
      close log u,
      ap (λ c. some (c, close log u)) (redirect_log-open log file u at_log),
      rw (ne→==_false 2 log (omega arith)) refl,
      rw (==_refl log) refl,
      (λ j a b. rw (ne→==_false j log b, ne→==_false j 2 a) refl),
      close-update t log file lowest.0,
    )
