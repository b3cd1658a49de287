-- ===== src/Launcher/Broker/Turns.antt =====
-- broker_wait of src/Launcher/main.cpp, as the turns of Session.
use serena_de.Launcher.Broker.{Wait, nap, select_for, answered, Waited, clients_of, Broker}
use serena_de.Launcher.Session.{Client, Session, World, Run, Step, broker_turn, run}
use serena_de.Prelude.Int.{pos_part, neg_part}
use serena_de.Prelude.{ℕ, ◌+◌, ◌*◌, ◌<◌, ◌≤◌, ◌≡◌, Bool, List, Option, some, map, All, length}

abbrev pub nanoseconds : Wait → ℕ
nanoseconds (nap s ns) = pos_part s * 1000000000 + pos_part ns
nanoseconds (select_for s us) = s * 1000000000 + us * 1000

-- What nanosleep and select accept.
abbrev pub IsAccepted : Wait → Type 0
IsAccepted (nap s ns) = (neg_part s ≡ 0) × (neg_part ns ≡ 0) × (pos_part ns < 1000000000)
IsAccepted (select_for s us) = us < 1000000

-- A wait that does not ask to sleep past the deadline.
abbrev pub IsInTime : ℕ → ℕ × Wait → Type 0
IsInTime deadline (at, wait) =
    IsAccepted wait × (at * 1000000 + nanoseconds wait ≤ deadline * 1000000)

-- The clients that the brokers have in a turn in which select and accept answer.
abbrev pub IsAnswer : Broker → List Client → Type 0
IsAnswer b cs =
    (k : ℕ) × (is_set : (ℕ → Bool)) × (b.select k ≡ answered is_set)
    × (cs ≡ clients_of is_set (b.accepts k) 0 b.listener_fds)

-- How a wait ends that has `n` turns at most: its outcome is that of turns of Session, which `from`
-- gives for the steps.
pub record Ends (b : Broker) (from : List Step → Run) (deadline n : ℕ) (r : Option Waited)
    : Type 0 where
  pub turns : List (List Client)
  pub waits : List (ℕ × Wait)
  pub ended : r ≡ some (record { outcome = from (map broker_turn turns); waits = waits })
  pub answers : All (IsAnswer b) turns
  pub few : length turns ≤ n
  pub in_time : All (IsInTime deadline) waits

module _ (w : World) (deadline : ℕ) (b : Broker) where
  abbrev runs : Session → List Step → Run
  runs s sts = run w sts s
