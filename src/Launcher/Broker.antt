-- ===== src/Launcher/Broker.antt =====
-- broker_wait of src/Launcher/main.cpp against a clock: `now k` is its reading in turn `k` of the loop,
-- in milliseconds, after `now 0` for the deadline. What it does with the children is `serve` of
-- Session; what select, FD_ISSET and accept answer in a turn are functions of the turn. The loop runs on
-- fuel: none is a loop that has not ended.
pub mod Turns
mod Tests
use serena_de.Launcher.Session.{
  Client, not_ready, refused, connected, Session, World, Run, going, exited, returned, serve,
}
use serena_de.Prelude.Int.{ℤ, pos, negsuc, ltb_ℤ, sub_ℕ}
use serena_de.Prelude.{
  ℕ, zero, suc, ◌+◌, ◌-◌, ◌*◌, ◌/◌, ◌%◌, Bool, true, false, ◌&&◌, List, [], ◌∷◌, Option, none, some,
  length, ltb, leb, ◌==◌, if◌then◌else◌,
}

-- The seconds and nanoseconds that nanosleep is given, or the seconds and microseconds for select.
pub data Wait : Type 0 where
  nap : ℤ → ℤ → Wait
  select_for : ℕ → ℕ → Wait

-- `/` and `%` round towards zero, so both parts of a negative time are negative or zero.
unfoldable pub sleep_ms : ℤ → Wait
sleep_ms (pos ms) = nap (pos (ms / 1000)) (pos ((ms % 1000) * 1000 * 1000))
sleep_ms (negsuc n) = nap (sub_ℕ 0 (suc n / 1000)) (sub_ℕ 0 ((suc n % 1000) * 1000 * 1000))

unfoldable pub select_timeout : ℕ → Wait
select_timeout remaining = select_for (remaining / 1000) ((remaining % 1000) * 1000)

-- EINTR, or the descriptors that are set afterwards.
pub data Selected : Type 0 where
  interrupted : Selected
  answered : (ℕ → Bool) → Selected

-- How it ended, and each wait with the reading of the clock before it.
pub record Waited : Type 0 where
  pub outcome : Run
  pub waits : List (ℕ × Wait)

unfoldable pub max_fd : ℤ → List ℤ → ℤ
max_fd so_far [] = so_far
max_fd so_far (fd ∷ fds) =
    max_fd (if ltb_ℤ fd (pos 0) then so_far else if ltb_ℤ so_far fd then fd else so_far) fds

-- What the loop over the brokers does about the `i`-th on.
unfoldable pub clients_of : (ℕ → Bool) → (ℕ → Bool) → ℕ → List ℤ → List Client
clients_of is_set accepts i [] = []
clients_of is_set accepts i (negsuc n ∷ fds) = not_ready ∷ clients_of is_set accepts (i + 1) fds
clients_of is_set accepts i (pos fd ∷ fds) =
    (if is_set fd then if accepts i then connected else refused else not_ready)
    ∷ clients_of is_set accepts (i + 1) fds

abbrev pub noted : ℕ × Wait → Option Waited → Option Waited
noted wait none = none
noted wait (some r) = some (record r { waits = wait ∷ r.waits })

-- exit() in a turn ends the program.
abbrev pub then_loop : Run → (Session → Option Waited) → Option Waited
then_loop (going s) next = next s
then_loop (exited status s) next = some (record { outcome = exited status s; waits = [] })
then_loop (returned status s) next = some (record { outcome = returned status s; waits = [] })

-- The listeners of the brokers, and the answers of the system.
pub record Broker : Type 0 where
  pub listener_fds : List ℤ
  pub now : ℕ → ℕ
  pub select : ℕ → Selected
  pub accepts : ℕ → ℕ → Bool

-- The deadline. One below zero is past at any reading, and so is zero.
abbrev pub deadline_of : ℕ → ℤ → ℕ
deadline_of at (pos timeout) = at + timeout
deadline_of at (negsuc n) = at - suc n

module _ (w : World) (b : Broker) where
  -- A turn of the loop in time `at`, with the answers of select and accept: naps if no listener is
  -- open, goes on behind EINTR, or looks at every broker.
  abbrev pub in_turn :
      Bool → Selected → (ℕ → Bool) → ℕ → ℕ → Session → (Session → Option Waited) → Option Waited
  in_turn true selected accepts deadline at s next =
      let remaining = deadline - at in
      noted (at, sleep_ms (pos (if ltb remaining 50 then remaining else 50))) (next s)
  in_turn false interrupted accepts deadline at s next =
      noted (at, select_timeout (deadline - at)) (next s)
  in_turn false (answered is_set) accepts deadline at s next =
      noted (at, select_timeout (deadline - at))
        (then_loop (serve w (clients_of is_set accepts 0 b.listener_fds) s) next)

  abbrev pub all_closed : Bool
  all_closed = ltb_ℤ (max_fd (negsuc 0) b.listener_fds) (pos 0)

  unfoldable pub broker_loop : ℕ → ℕ → ℕ → Session → Option Waited
  unfolding max_fd
  broker_loop zero deadline k s = none
  broker_loop (suc fuel) deadline k s =
      let next = broker_loop fuel deadline (k + 1) in
      if leb deadline (b.now k)
      then some (record { outcome = going s; waits = [] })
      else in_turn all_closed (b.select k) (b.accepts k) deadline (b.now k) s next

  -- Without brokers it only sleeps.
  unfoldable pub broker_wait : ℕ → ℤ → Session → Option Waited
  unfolding broker_loop sleep_ms
  broker_wait fuel timeout_ms s =
      if length b.listener_fds == 0
      then some (record { outcome = going s; waits = (b.now 0, sleep_ms timeout_ms) ∷ [] })
      else broker_loop fuel (deadline_of (b.now 0) timeout_ms) 1 s
