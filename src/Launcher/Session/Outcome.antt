-- ===== src/Launcher/Session/Outcome.antt =====
-- What main of src/Launcher/main.cpp leaves running when it returns, and when a signal ends it.
use mathlib.Core.List.{append-nil}
use serena_de.Launcher.Session.Running.{running, Listed, running-kill_each}
use serena_de.Launcher.Session.Slots.{Tracked, AllTracked, signal-Listed}
use serena_de.Launcher.Session.Spawning.{Good, WellOrdered}
use serena_de.Launcher.Session.Steps.{bind-Good, step-Good}
use serena_de.Launcher.Session.{
  Session, Step, World, going, exited, returned, on_signal, signal_pids, step, run, program, start,
  main, kill_each,
}
use serena_de.Prelude.{
  ℕ, ◌<◌, ◌≤◌, ◌⊎◌, ◌≡◌, refl, sym, List, [], ◌∷◌, ◌++◌, length, All-map, inl, inr, arith, subst,
}
use serena_de.Launcher.Session.Order.{program-WellOrdered}

run-Good :
    (w : World) (pre post : List Step) (s : Session)
    → WellOrdered (length w.binaries) (pre ++ post)
    → AllTracked (length w.binaries) (pre ++ post) s
    → Good (length w.binaries) post (run w pre s)
unfolding run
run-Good w [] post s o h = h
run-Good w (st ∷ pre) post s (o, os) h =
    bind-Good w (pre ++ post) post (step w st s) (run w pre) (step-Good w st (pre ++ post) s o h)
      (λ t. run-Good w pre post t os)

module _ (w : World) where
  none_running : (count : ℕ) (sts : List Step) → AllTracked count sts start
  unfolding running
  none_running count sts = tt

  pub main-Good :
      (status : ℕ) (s : Session)
      → main w ≡ returned status s
      → (32 ≤ length s.broker_children) ⊎ (running s.events ≡ [])
  unfolding main
  main-Good status s e =
      let whole : program w ++ [] ≡ program w = append-nil (program w) in
      subst (Good (length w.binaries) []) e (
        run-Good w (program w) [] start
          (subst (WellOrdered (length w.binaries)) (sym whole) (program-WellOrdered w))
          (none_running (length w.binaries) (program w ++ [])))

  -- When main returns, whatever the services, the connections and the answers of the system were, no
  -- child that it started is left running, unless the array of the brokers' children is full. That is
  -- so for every return: a window server or a service that does not become ready, and the end.
  pub main-None_running :
      (status : ℕ) (s : Session)
      → main w ≡ returned status s
      → length s.broker_children < 32
      → running s.events ≡ []
  main-None_running status s e room = elim (main-Good status s e) [
    | inl full ↦ absurd (omega arith)
    | inr nobody ↦ nobody
  ]

  -- A signal that arrives when main has done any number of its steps and neither returned nor called
  -- exit kills every child that runs, unless the array of the brokers' children is full.
  pub on_signal-None_running :
      (pre post : List Step) (s : Session)
      → program w ≡ pre ++ post
      → run w pre start ≡ going s
      → length s.broker_children < 32
      → (t : Session) × (on_signal w s ≡ exited 130 t) × (running t.events ≡ [])
  unfolding on_signal
  on_signal-None_running pre post s whole e room =
      let tracked : AllTracked (length w.binaries) post s =
        subst (Good (length w.binaries) post) e (
          run-Good w pre post start
            (subst (WellOrdered (length w.binaries)) whole (program-WellOrdered w))
            (none_running (length w.binaries) (pre ++ post))) in
      (
        record s { events = kill_each (signal_pids w s) s.events },
        refl,
        running-kill_each (signal_pids w s) s.events (
            All-map (Tracked (length w.binaries) post s) (Listed (signal_pids w s))
              (λ p. signal-Listed w post s p room) (running s.events) tracked),
      )
