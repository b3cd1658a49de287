-- ===== src/Launcher/Session/Steps.antt =====
-- The steps of main in src/Launcher/main.cpp, one by one, on the children that are tracked.
use serena_de.CString.{text}
use serena_de.Launcher.Session.Running.{
  running, Listed, running-kill_each, kill_each-Listed, running-unlink_each,
}
use serena_de.Launcher.Session.Slots.{
  Slot, window_server, app, co_app, service, pid_at, loses, Tracked, AllTracked, cleanup-Listed,
  finish-Listed, Some-append_left, Some-append_right,
}
use serena_de.Launcher.Session.{
  Session, Step, World, Run, going, exited, returned, bind, Client, not_ready, refused, connected,
  spawn_window_server, wait_window_server, spawn_app, spawn_co_app, spawn_group, wait_service,
  broker_turn, replay, finish, cleanup, cleanup_pids, spawn, store_window_server, store_group,
  store_app, store_co_app, store_broker, serve, wait_ready, step, kill_each, unlink_each, spawned,
}
use serena_de.Prelude.Int.{pos}
use serena_de.Prelude.{
  none, some, ℕ, suc, ◌+◌, ◌≤◌, ◌<◌, ◌≡◌, refl, sym, ◌∙◌, Bool, true, false, List, subst, [], ◌∷◌,
  ◌++◌, length, All, All-map, ◌⊎◌, inl, inr, arith, Bool-cases, Option-cases, ltb, length-append,
  ltb→lt,
}
use serena_de.Launcher.Session.Spawning.{
  Good, Owns, Tracked-carry, spawn-Good, window_server_others, app_others, co_app_others,
  service_others,
}

module _ (w : World) where
  pub bind-Good :
      (sts rest : List Step) (r : Run) (next : Session → Run)
      → Good (length w.binaries) sts r
      → ((s : Session)
          → AllTracked (length w.binaries) sts s
          → Good (length w.binaries) rest (next s))
      → Good (length w.binaries) rest (bind r next)
  unfolding bind
  bind-Good sts rest (going s) next g f = f s g
  bind-Good sts rest (exited status s) next g f = tt
  bind-Good sts rest (returned status s) next g f = g

  with_broker : Session → ℕ → Session
  with_broker s n = record s {
    spawns = s.spawns + 1;
    broker_children = s.broker_children ++ pos (suc n) ∷ [];
    events = spawned (suc n) ∷ s.events;
  }

  Tracked-with_broker :
      (rest : List Step) (s : Session) (n p : ℕ)
      → Tracked (length w.binaries) rest s p
      → Tracked (length w.binaries) rest (with_broker s n) p
  unfolding with_broker
  Tracked-with_broker rest s n p (positive, inl full) =
      (positive, inl (omega (arith, length-append s.broker_children (pos (suc n) ∷ []))))
  Tracked-with_broker rest s n p (positive, inr (inl broker)) =
      (positive, inr (inl (Some-append_left _ s.broker_children _ broker)))
  Tracked-with_broker rest s n p (positive, inr (inr place)) = (
    positive,
    inr (
        inr (record {
          slot = place.slot;
          holds = same_slots place.slot ∙ place.holds;
          in_range = place.in_range;
          kept = place.kept;
        })),
  )
    where
      same_slots : (slot : Slot) → pid_at (with_broker s n) slot ≡ pid_at s slot
      same_slots window_server = refl
      same_slots app = refl
      same_slots co_app = refl
      same_slots (service i) = refl

  -- A broker's child finds its place in the array, or the array is full.
  store_broker-AllTracked :
      (rest : List Step) (s : Session) (n : ℕ)
      → AllTracked (length w.binaries) rest s
      → AllTracked (length w.binaries) rest (
          store_broker w
            (pos (suc n))
            (record s { spawns = s.spawns + 1; events = spawned (suc n) ∷ s.events }))
  unfolding running with_broker
  store_broker-AllTracked rest s n h = elim (Bool-cases (ltb (length s.broker_children) 32)) [
    | inl room ↦ rw room (
      (omega arith, inr (inl (Some-append_right _ s.broker_children _ (inl refl)))),
      All-map (Tracked (length w.binaries) rest s)
          (Tracked (length w.binaries) rest (with_broker s n)) (Tracked-with_broker rest s n)
          (running s.events) h,
    )
    | inr full ↦ rw full (
      (omega arith, inl (ground arith)),
      All-map (Tracked (length w.binaries) rest s) _ (λ p t. (t.0, inl (ground arith)))
          (running s.events) h,
    )
  ]

  spawn_broker-Good :
      (rest : List Step) (s : Session)
      → AllTracked (length w.binaries) rest s
      → Good (length w.binaries) rest (spawn w (store_broker w) s)
  unfolding spawn
  spawn_broker-Good rest s h = elim (Option-cases (w.child s.spawns)) [
    | inl e ↦ rw (spawn, e) tt
    | inr (n, e) ↦ rw (spawn, e) (store_broker-AllTracked rest s n h)
  ]

  serve-Good :
      (rest : List Step) (cs : List Client) (s : Session)
      → AllTracked (length w.binaries) rest s
      → Good (length w.binaries) rest (serve w cs s)
  unfolding serve
  serve-Good rest [] s h = h
  serve-Good rest (connected ∷ cs) s h =
      bind-Good rest rest (spawn w (store_broker w) s) (serve w cs) (spawn_broker-Good rest s h)
        (serve-Good rest cs)
  serve-Good rest (refused ∷ cs) s h = serve-Good rest cs s h
  serve-Good rest (not_ready ∷ cs) s h = serve-Good rest cs s h

  -- A step that changes nothing.
  AllTracked-tail :
      (st : Step) (rest : List Step) (s : Session)
      → AllTracked (length w.binaries) (st ∷ rest) s
      → AllTracked (length w.binaries) rest s
  AllTracked-tail st rest s h =
      All-map (Tracked (length w.binaries) (st ∷ rest) s) (Tracked (length w.binaries) rest s)
        (Tracked-carry (length w.binaries) st rest s s refl (λ slot l. refl)) (running s.events) h

  cleanup-Good :
      (s : Session)
      → ((length s.broker_children < 32) → All (Listed (cleanup_pids w s)) (running s.events))
      → (32 ≤ length s.broker_children) ⊎ (running (cleanup w s).events ≡ [])
  unfolding cleanup
  cleanup-Good s h = elim (Bool-cases (ltb (length s.broker_children) 32)) [
    | inl room ↦ inr (
        running-unlink_each (text "/tmp/portal/window" ∷ text "/tmp/portal/wm" ∷ []) _
        ∙ running-kill_each (cleanup_pids w s) (unlink_each w.socket_paths s.events) (
            subst (All (Listed (cleanup_pids w s)))
              (sym (running-unlink_each w.socket_paths s.events)) (h (ltb→lt _ _ room))))
    | inr full ↦ inl (ground arith)
  ]

  -- A wait that fails cleans up before any app is started.
  wait_ready-Good :
      (st : Step) (rest : List Step) (ready : Bool) (s : Session)
      → loses st app ≡ true
      → loses st co_app ≡ true
      → AllTracked (length w.binaries) (st ∷ rest) s
      → Good (length w.binaries) rest (wait_ready w ready s)
  unfolding wait_ready cleanup
  wait_ready-Good st rest true s ha hc h = AllTracked-tail st rest s h
  wait_ready-Good st rest false s ha hc h = cleanup-Good s (λ room.
      All-map (Tracked (length w.binaries) (st ∷ rest) s) (Listed (cleanup_pids w s))
        (λ p. cleanup-Listed w st rest s p ha hc room) (running s.events) h)

  finish-Good :
      (status : ℕ) (rest : List Step) (s : Session)
      → AllTracked (length w.binaries) (finish status ∷ rest) s
      → Good (length w.binaries) rest (step w (finish status) s)
  unfolding step cleanup
  finish-Good status rest s h =
      cleanup-Good (record s { events = kill_each (s.app_pid ∷ s.co_app_pid ∷ []) s.events })
        (λ room. kill_each-Listed (s.app_pid ∷ s.co_app_pid ∷ []) (cleanup_pids w s) s.events (
          All-map (Tracked (length w.binaries) (finish status ∷ rest) s)
            (Listed (s.app_pid ∷ s.co_app_pid ∷ cleanup_pids w s))
            (λ p. finish-Listed w (finish status ∷ rest) s p room) (running s.events) h))

  pub step-Good :
      (st : Step) (rest : List Step) (s : Session)
      → Owns (length w.binaries) st rest
      → AllTracked (length w.binaries) (st ∷ rest) s
      → Good (length w.binaries) rest (step w st s)
  unfolding step
  step-Good spawn_window_server rest s o h =
      spawn-Good w spawn_window_server rest s (store_window_server w) window_server (λ pid t. refl)
        (λ pid t. refl) (window_server_others w) (λ pid t. refl) tt o h
  step-Good wait_window_server rest s o h =
      wait_ready-Good wait_window_server rest w.window_ready s refl refl h
  step-Good spawn_app rest s o h =
      spawn-Good w spawn_app rest s (store_app w) app (λ pid t. refl) (λ pid t. refl) (app_others w)
        (λ pid t. refl) tt o h
  step-Good spawn_co_app rest s o h =
      spawn-Good w spawn_co_app rest s (store_co_app w) co_app (λ pid t. refl) (λ pid t. refl)
        (co_app_others w) (λ pid t. refl) tt o h
  step-Good (spawn_group g) rest s (i, r, m, k) h =
      spawn-Good w (spawn_group g) rest s (store_group w g.members) (service i) (λ pid t. refl)
        (λ pid t. refl) (service_others w g) (λ pid t. rw m refl) r k h
  step-Good (wait_service i) rest s o h =
      wait_ready-Good (wait_service i) rest (w.service_ready i) s refl refl h
  step-Good (broker_turn cs) rest s o h =
      serve-Good rest cs s (AllTracked-tail (broker_turn cs) rest s h)
  step-Good (replay none) rest s o h = AllTracked-tail (replay none) rest s h
  step-Good (replay (some status)) rest s o h = tt
  step-Good (finish status) rest s o h = finish-Good status rest s h
