-- ===== src/Launcher/Session/Completion.antt =====
-- A run of main in src/Launcher/main.cpp in which nothing fails.
use mathlib.Core.List.{append_assoc}
use serena_de.Launcher.Groups.{Group, group_services}
use serena_de.Launcher.Session.{
  Session, Step, World, Run, Client, going, returned, bind, connected, refused, not_ready,
  spawn_window_server, wait_window_server, spawn_app, spawn_co_app, spawn_group, wait_service,
  broker_turn, replay, finish, spawn, store_broker, serve, wait_ready, step, run, group_steps,
  script_steps, co_app_steps, program, start, main,
}
use serena_de.Prelude.Int.{ℤ}
use serena_de.Prelude.{
  Option, none, ℕ, ◌≡◌, refl, sym, ap, ◌∙◌, Bool, true, List, [], ◌∷◌, ◌++◌, map, some, Bool-cases,
  Option-cases, inl, inr, subst, Every,
}

-- Every child starts, every socket becomes ready, and the script has no bad line.
pub record IsFortunate (w : World) : Type 0 where
  pub child : (i : ℕ) → (n : ℕ) × (w.child i ≡ some n)
  pub window_ready : w.window_ready ≡ true
  pub service_ready : (i : ℕ) → w.service_ready i ≡ true
  pub script : Every (λ ended. ended ≡ none) w.script

module _ (w : World) (luck : IsFortunate w) where
  GoesOn : Run → Type 0
  GoesOn r = (t : Session) × (r ≡ going t)

  spawn-GoesOn : (store : ℤ → Session → Session) (s : Session) → GoesOn (spawn w store s)
  unfolding spawn GoesOn
  spawn-GoesOn store s = let (n, e) = luck.child s.spawns in rw (spawn, e) (_, refl)

  -- The steps end main with its status, whatever was before.
  Ends : List Step → Type 0
  Ends sts = (s : Session) → (t : Session) × (run w sts s ≡ returned w.verdict t)

  Ends-step :
      (st : Step) (sts : List Step)
      → ((s : Session) → GoesOn (step w st s))
      → Ends sts
      → Ends (st ∷ sts)
  unfolding run bind GoesOn Ends
  Ends-step st sts g h s =
      let (u, e) = g s in let (t, f) = h u in (t, ap (λ r. bind r (run w sts)) e ∙ f)

  serve-GoesOn : (cs : List Client) (s : Session) → GoesOn (serve w cs s)
  unfolding serve GoesOn bind
  serve-GoesOn [] s = (s, refl)
  serve-GoesOn (connected ∷ cs) s =
      let (u, e) = spawn-GoesOn (store_broker w) s in
      let (t, f) = serve-GoesOn cs u in (t, ap (λ r. bind r (serve w cs)) e ∙ f)
  serve-GoesOn (refused ∷ cs) s = serve-GoesOn cs s
  serve-GoesOn (not_ready ∷ cs) s = serve-GoesOn cs s

  Ends-turns :
      (ts : List (List Client)) (sts : List Step) → Ends sts → Ends (map broker_turn ts ++ sts)
  unfolding step
  Ends-turns [] sts h = h
  Ends-turns (t ∷ ts) sts h = Ends-step (broker_turn t) _ (serve-GoesOn t) (Ends-turns ts sts h)

  wait-GoesOn : (ready : Bool) → ready ≡ true → (s : Session) → GoesOn (wait_ready w ready s)
  unfolding wait_ready GoesOn
  wait-GoesOn ready e s = (s, rw e refl)

  Ends-waits : (ms : List ℕ) (sts : List Step) → Ends sts → Ends (map wait_service ms ++ sts)
  unfolding step
  Ends-waits [] sts h = h
  Ends-waits (m ∷ ms) sts h =
      Ends-step (wait_service m) _ (wait-GoesOn (w.service_ready m) (luck.service_ready m))
        (Ends-waits ms sts h)

  Ends-groups : (gs : List Group) (sts : List Step) → Ends sts → Ends (group_steps w gs ++ sts)
  unfolding group_steps step
  Ends-groups [] sts h = h
  Ends-groups (g ∷ gs) sts h = Ends-step (spawn_group g) _ (spawn-GoesOn _) (
      subst Ends (sym (append_assoc (map wait_service g.members) (group_steps w gs) sts))
        (Ends-waits g.members _ (Ends-groups gs sts h)))

  Ends-script : (sts : List Step) → Ends sts → Ends (script_steps w ++ sts)
  unfolding step GoesOn
  Ends-script sts h = elim (Option-cases w.script) [
    | inl e ↦ rw (script_steps, e) h
    | inr (b, e) ↦
        rw (script_steps, e)
          (subst Ends (sym (append_assoc (map broker_turn w.script_turns) (replay b ∷ []) sts)) (
            Ends-turns w.script_turns _
              (Ends-step (replay b) sts (λ s. (s, rw (good b e) refl)) h)))
  ]
    where
      good : (b : Option ℕ) → w.script ≡ some b → b ≡ none
      good b e = subst (Every (λ ended. ended ≡ none)) e luck.script

  Ends-co_app : (sts : List Step) → Ends sts → Ends (co_app_steps w ++ sts)
  unfolding step
  Ends-co_app sts h = elim (Bool-cases w.has_co_app) [
    | inl e ↦
        rw (co_app_steps, e)
          (subst Ends (sym (append_assoc (map broker_turn w.co_app_turns) (spawn_co_app ∷ []) sts))
            (Ends-turns w.co_app_turns _ (Ends-step spawn_co_app sts (spawn-GoesOn _) h)))
    | inr e ↦ rw (co_app_steps, e) h
  ]

  Ends-finish : Ends (finish w.verdict ∷ [])
  unfolding Ends run bind step
  Ends-finish s = (_, refl)

  Ends-program : Ends (program w)
  unfolding program step
  Ends-program = Ends-step spawn_window_server _ (spawn-GoesOn _) (
      Ends-step wait_window_server _ (wait-GoesOn w.window_ready luck.window_ready) (
        Ends-groups (group_services w.binaries) _ (
          Ends-step spawn_app _ (spawn-GoesOn _)
            (Ends-script _ (Ends-co_app _ (Ends-turns w.settle_turns _ Ends-finish))))))

  -- When every child starts, every socket becomes ready in time and the script is read to its end,
  -- main returns, with the exit status of its checks, whatever clients the brokers have.
  pub main-Returns : (t : Session) × (main w ≡ returned w.verdict t)
  unfolding main Ends
  main-Returns = Ends-program start
