-- ===== src/Launcher/Waiting/Tests.antt =====
-- A child that ignores SIGTERM, and a file that is written after 100 ms.
use serena_de.Launcher.Waiting.Deadline.{Ends, kill_and_reap-Ends}
use serena_de.Launcher.Waiting.{
  still_running, is_gone, sigterm, sigkill, kill_and_reap, Blocked, interrupted, signaled,
}
use serena_de.Prelude.{
  ℕ, zero, suc, ◌+◌, ◌*◌, ◌<◌, ◌≡◌, refl, Bool, [], ◌∷◌, Option, none, some, leb, arith,
  if◌then◌else◌,
}
use serena_de.Prelude.Int.{pos}

abbrev clock : ℕ → ℕ
clock k = 1000 + 50 * k

abbrev file : ℕ → Option ℕ
file k = if leb 2 k then some 7 else none

-- waitpid is interrupted once, then the child is gone by SIGKILL.
abbrev killed : ℕ → Blocked
killed zero = interrupted
killed (suc k) = signaled 9

kill_and_reap-Ends_example :
    (b : Bool) × (last : ℕ) × (kill_and_reap 61 (pos 42) (λ k. still_running) killed clock 1000 3000
      ≡ some (if b then sigterm ∷ [] else sigterm ∷ sigkill ∷ []))
    × Ends (λ k. is_gone still_running) clock 4000 0 last b
    × (50 * last < 3050)
kill_and_reap-Ends_example =
    kill_and_reap-Ends (pos 42) (λ k. still_running) killed clock 1000 3000 61 1 refl
      (λ k. omega arith) (omega arith) (omega arith) (λ e. cc e)
