-- ===== src/Launcher/Waiting/Blocking.antt =====
-- waitpid() without WNOHANG in reap and kill_and_reap of src/Launcher/main.cpp.
use native.Mathlib.Decide.{ℕ_discrete}
use serena_de.Launcher.Waiting.{
  Blocked, interrupted, failed, stopped, exited, signaled, wait_out, status_of, reap,
}
use serena_de.Prelude.{
  ℕ, zero, suc, ◌+◌, ◌<◌, ◌≤◌, ◌≡◌, ◌≢◌, refl, sym, ap, ◌∙◌, ◌⊎◌, inl, inr, some, arith,
}

-- The first answer that is not an interruption.
pub record IsFirst (blocking : ℕ → Blocked) (from last : ℕ) : Type 0 where
  pub final : blocking last ≢ interrupted
  pub before : (k : ℕ) → from ≤ k → k < last → blocking k ≡ interrupted

wait_out-stops :
    (fuel : ℕ) (blocking : ℕ → Blocked) (k : ℕ) (b : Blocked)
    → b ≢ interrupted
    → blocking k ≡ b
    → wait_out (suc fuel) blocking k ≡ some b
unfolding wait_out
wait_out-stops fuel blocking k interrupted ne e = absurd (ne refl)
wait_out-stops fuel blocking k failed ne e = rw (wait_out, e) refl
wait_out-stops fuel blocking k stopped ne e = rw (wait_out, e) refl
wait_out-stops fuel blocking k (exited n) ne e = rw (wait_out, e) refl
wait_out-stops fuel blocking k (signaled n) ne e = rw (wait_out, e) refl

is_interrupted : (b : Blocked) → (b ≡ interrupted) ⊎ (b ≢ interrupted)
is_interrupted interrupted = inl refl
is_interrupted failed = inr (λ e. cc e)
is_interrupted stopped = inr (λ e. cc e)
is_interrupted (exited n) = inr (λ e. cc e)
is_interrupted (signaled n) = inr (λ e. cc e)

-- The loop ends if an answer within the fuel is no interruption.
pub wait_out-IsFirst :
    (fuel : ℕ) (blocking : ℕ → Blocked) (k j : ℕ)
    → k ≤ j
    → j < k + fuel
    → blocking j ≢ interrupted
    → (last : ℕ) × (wait_out fuel blocking k ≡ some (blocking last)) × IsFirst blocking k last
unfolding wait_out
wait_out-IsFirst zero blocking k j lo hi ne = absurd (omega arith)
wait_out-IsFirst (suc fuel) blocking k j lo hi ne = elim (is_interrupted (blocking k)) [
  | inr final ↦ (
    k,
    wait_out-stops fuel blocking k (blocking k) final refl,
    record { final = final; before = λ i a b. absurd (omega arith) },
  )
  | inl again ↦
      let later : k < j = elim (ℕ_discrete k j) [
        | yes e ↦ absurd (ne (ap blocking (sym e) ∙ again))
        | no other ↦ omega arith
      ] in
      let (last, run, first) =
        wait_out-IsFirst fuel blocking (k + 1) j (omega arith) (omega arith) ne in
      (
        last,
        rw (wait_out, again) run,
        record {
          final = first.final;
          before = λ i a l. elim (ℕ_discrete i k) [
            | yes e ↦ rw e again
            | no other ↦ first.before i (omega arith) l
          ];
        },
      )
]

-- reap of a child returns, if waitpid is not interrupted for ever: the result is the exit status of a
-- child that has exited, 128 more than the signal of one that was killed, and else -1, from the first
-- answer that is no interruption.
pub reap-IsFirst :
    (fuel j : ℕ) (blocking : ℕ → Blocked)
    → j < fuel
    → blocking j ≢ interrupted
    → (last : ℕ) × (reap fuel blocking ≡ some (status_of (blocking last))) × IsFirst blocking 0 last
unfolding reap
reap-IsFirst fuel j blocking h ne =
    let (last, run, first) = wait_out-IsFirst fuel blocking 0 j (omega arith) (omega arith) ne in
    (last, rw (reap, run) refl, first)
