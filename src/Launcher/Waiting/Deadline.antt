-- ===== src/Launcher/Waiting/Deadline.antt =====
-- How the waiting loops of src/Launcher/main.cpp end.
use native.Mathlib.Decide.{ℕ_discrete}
use serena_de.Launcher.Waiting.{
  wait_until, wait_for_file, is_written, Answer, is_gone, sigterm, sigkill, kill_and_reap, Blocked,
  interrupted, wait_out,
}
use serena_de.Launcher.Waiting.Blocking.{wait_out-IsFirst}
use serena_de.Prelude.{
  ℕ, zero, suc, ◌+◌, ◌*◌, ◌<◌, ◌≤◌, ◌≡◌, ◌≢◌, refl, ◌⊎◌, inl, inr, Bool, true, false, [], ◌∷◌,
  Option, some, leb, arith, Bool-cases, if◌then◌else◌,
}
use serena_de.Prelude.Int.{ℤ, pos, ltb_ℤ}

-- nanosleep() sleeps for at least the time it is given: turn `k` is 50 k ms after the start or later.
abbrev pub Advances : ℕ → (ℕ → ℕ) → Type 0
Advances start now = (k : ℕ) → start + 50 * k ≤ now k

-- How a loop ends at turn `last`: it was not ready before, and then it is, or the time is up.
pub record Ends (ready : ℕ → Bool) (now : ℕ → ℕ) (deadline from last : ℕ) (b : Bool) : Type 0 where
  pub answer : ready last ≡ b
  pub early : (k : ℕ) → from ≤ k → k < last → (ready k ≡ false) × (now k < deadline)
  pub in_time : (b ≡ true) ⊎ (deadline ≤ now last)

module _ (ready : ℕ → Bool) (now : ℕ → ℕ) (start timeout : ℕ) (advances : Advances start now) where
  wait_until-Ends :
      (fuel k : ℕ)
      → 50 * k < timeout + 50
      → timeout + 50 ≤ 50 * (k + fuel)
      → (b : Bool) × (last : ℕ) × (wait_until fuel ready now (start + timeout) k ≡ some b)
        × Ends ready now (start + timeout) k last b
        × (k ≤ last)
        × (50 * last < timeout + 50)
  unfolding wait_until
  wait_until-Ends zero k lo hi = absurd (omega arith)
  wait_until-Ends (suc fuel) k lo hi = elim (Bool-cases (ready k)) [
    | inl yes_ready ↦ (
      true,
      k,
      rw yes_ready refl,
      record { answer = yes_ready; early = λ j a b. absurd (omega arith); in_time = inl refl },
      omega arith,
      lo,
    )
    | inr not_ready ↦ elim (Bool-cases (leb (start + timeout) (now k))) [
      | inl late ↦ (
        false,
        k,
        rw (not_ready, late) refl,
        record {
          answer = not_ready;
          early = λ j a b. absurd (omega arith);
          in_time = inr (ground arith);
        },
        omega arith,
        lo,
      )
      | inr early ↦
          let at = advances k in
          let soon : now k < start + timeout = ground arith in
          let (b, last, run, ends, past, bound) =
            wait_until-Ends fuel (k + 1) (omega arith) (omega arith) in
          (
            b,
            last,
            rw (not_ready, early) run,
            record {
              answer = ends.answer;
              early = λ j a l. elim (ℕ_discrete j k) [
                | yes e ↦ rw e (not_ready, soon)
                | no ne ↦ ends.early j (omega arith) l
              ];
              in_time = ends.in_time;
            },
            omega arith,
            bound,
          )
    ]
  ]

-- wait_for_file returns, if the clock advances with the sleeps: within one turn for each 50 ms of the
-- timeout and one more. At its last turn the file has a byte and the result is true, or it has none,
-- the time is up and the result is false; before that turn neither was the case.
pub wait_for_file-Ends :
    (stat : ℕ → Option ℕ) (now : ℕ → ℕ) (start timeout fuel : ℕ)
    → Advances start now
    → timeout + 50 ≤ 50 * fuel
    → (b : Bool) × (last : ℕ) × (wait_for_file fuel stat now start timeout ≡ some b)
      × Ends (λ k. is_written (stat k)) now (start + timeout) 0 last b
      × (50 * last < timeout + 50)
wait_for_file-Ends stat now start timeout fuel advances enough =
    let (b, last, run, ends, _, bound) =
      wait_until-Ends (λ k. is_written (stat k)) now start timeout advances fuel 0 (omega arith)
        (omega arith) in
    (b, last, run, ends, bound)

-- kill_and_reap of a real process ends, if the clock advances with the sleeps and the wait behind
-- SIGKILL is not interrupted for ever. It polls within one turn for each 50 ms of its timeout and one
-- more. It sends SIGTERM, and SIGKILL behind it exactly when the time was up before the child was gone.
pub kill_and_reap-Ends :
    (pid : ℤ) (waitpid : ℕ → Answer) (blocking : ℕ → Blocked) (now : ℕ → ℕ)
    (start timeout fuel j : ℕ)
    → ltb_ℤ (pos 0) pid ≡ true
    → Advances start now
    → timeout + 50 ≤ 50 * fuel
    → j < fuel
    → blocking j ≢ interrupted
    → (b : Bool) × (last : ℕ) × (kill_and_reap fuel pid waitpid blocking now start timeout
        ≡ some (if b then sigterm ∷ [] else sigterm ∷ sigkill ∷ []))
      × Ends (λ k. is_gone (waitpid k)) now (start + timeout) 0 last b
      × (50 * last < timeout + 50)
unfolding kill_and_reap
kill_and_reap-Ends pid waitpid blocking now start timeout fuel j real advances enough less ne =
    let (b, last, run, ends, _, bound) =
      wait_until-Ends (λ k. is_gone (waitpid k)) now start timeout advances fuel 0 (omega arith)
        (omega arith) in
    let (_, collected, _) = wait_out-IsFirst fuel blocking 0 j (omega arith) (omega arith) ne in
    (b, last, sent b run _ collected, ends, bound)
  where
    sent :
        (b : Bool)
        → wait_until fuel (λ k. is_gone (waitpid k)) now (start + timeout) 0 ≡ some b
        → (r : Blocked) → wait_out fuel blocking 0 ≡ some r
        → kill_and_reap fuel pid waitpid blocking now start timeout
          ≡ some (if b then sigterm ∷ [] else sigterm ∷ sigkill ∷ [])
    sent true run r collected = rw (kill_and_reap, real, run) refl
    sent false run r collected = rw (kill_and_reap, real, run, kill_and_reap, collected) refl
