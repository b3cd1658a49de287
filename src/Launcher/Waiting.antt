-- ===== src/Launcher/Waiting.antt =====
-- The waiting loops of src/Launcher/main.cpp: wait_for_socket, wait_for_file, reap and kill_and_reap. What
-- the system answers in turn `k` of a loop is a function of `k`, and so is the clock's reading there,
-- in milliseconds; between two turns the program sleeps for 50. The loops run on fuel: none is a loop
-- that has not ended.
pub mod Blocking
pub mod Deadline
mod Tests
use serena_de.Prelude.{
  ℕ, zero, suc, ◌+◌, Bool, true, false, ◌&&◌, List, [], ◌∷◌, Option, none, some, ltb, leb,
  if◌then◌else◌,
}
use serena_de.Prelude.Int.{ℤ, pos, negsuc, ltb_ℤ}

-- The loop that the three share: until the answer is the one waited for, or the time is up.
unfoldable pub wait_until : ℕ → (ℕ → Bool) → (ℕ → ℕ) → ℕ → ℕ → Option Bool
wait_until zero ready now deadline k = none
wait_until (suc fuel) ready now deadline k =
    let rest = wait_until fuel ready now deadline (k + 1) in
    if ready k then some true else if leb deadline (now k) then some false else rest

-- An attempt to connect: whether socket() gave a descriptor, and whether connect() succeeded on it.
pub record Attempt : Type 0 where
  pub has_socket : Bool
  pub connects : Bool

abbrev pub wait_for_socket : ℕ → (ℕ → Attempt) → (ℕ → ℕ) → ℕ → ℕ → Option Bool
wait_for_socket fuel attempt now start timeout_ms =
    wait_until fuel (λ k. (attempt k).has_socket && (attempt k).connects) now (start + timeout_ms) 0

-- What stat() says: the size of the file, if there is one.
abbrev pub is_written : Option ℕ → Bool
is_written none = false
is_written (some size) = ltb 0 size

abbrev pub wait_for_file : ℕ → (ℕ → Option ℕ) → (ℕ → ℕ) → ℕ → ℕ → Option Bool
wait_for_file fuel stat now start timeout_ms =
    wait_until fuel (λ k. is_written (stat k)) now (start + timeout_ms) 0

-- What waitpid() with WNOHANG returns: the child, 0, ECHILD, or another error.
pub data Answer : Type 0 where
  reaped still_running no_child other_error : Answer

abbrev pub is_gone : Answer → Bool
is_gone reaped = true
is_gone no_child = true
is_gone _ = false

-- What waitpid() without WNOHANG returns: EINTR, another error, or the child's status, which
-- WIFEXITED or WIFSIGNALED take apart, or neither does.
pub data Blocked : Type 0 where
  interrupted failed stopped : Blocked
  exited signaled : ℕ → Blocked

-- The loop that reap and kill_and_reap share: until the call is not interrupted.
unfoldable pub wait_out : ℕ → (ℕ → Blocked) → ℕ → Option Blocked
wait_out zero waitpid k = none
wait_out (suc fuel) waitpid k =
    let rest = wait_out fuel waitpid (k + 1) in
    elim (waitpid k) [
      | interrupted ↦ rest
      | failed ↦ some failed
      | stopped ↦ some stopped
      | exited n ↦ some (exited n)
      | signaled n ↦ some (signaled n)
    ]

abbrev pub status_of : Blocked → ℤ
status_of (exited n) = pos n
status_of (signaled n) = pos (128 + n)
status_of _ = negsuc 0

unfoldable pub reap : ℕ → (ℕ → Blocked) → Option ℤ
unfolding wait_out
reap fuel waitpid = elim (wait_out fuel waitpid 0) [ none ↦ none | some b ↦ some (status_of b) ]

pub data Signal : Type 0 where
  sigterm sigkill : Signal

-- The signals that are sent to the child; after SIGKILL it is waited for without a limit.
unfoldable pub kill_and_reap :
    ℕ → ℤ → (ℕ → Answer) → (ℕ → Blocked) → (ℕ → ℕ) → ℕ → ℕ → Option (List Signal)
unfolding wait_out
kill_and_reap fuel pid waitpid blocking now start sigterm_timeout_ms =
    if ltb_ℤ (pos 0) pid
    then elim (wait_until fuel (λ k. is_gone (waitpid k)) now (start + sigterm_timeout_ms) 0) [
      | none ↦ none
      | some true ↦ some (sigterm ∷ [])
      | some false ↦ elim (wait_out fuel blocking 0) [
        | none ↦ none
        | some b ↦ some (sigterm ∷ sigkill ∷ [])
      ]
    ]
    else some []
