-- ===== src/Launcher/Session/Order.antt =====
-- The order of main's steps in src/Launcher/main.cpp.
use mathlib.Core.List.{append_assoc}
use serena_de.Launcher.Groups.{Group, group_services}
use serena_de.Launcher.Session.Members.{Apart, group_services-Apart}
use serena_de.Launcher.Session.Slots.{Slot, window_server, app, co_app, service, loses, Kept}
use serena_de.Launcher.Session.Spawning.{Owns, WellOrdered}
use serena_de.Launcher.Session.{
  Step, World, Client, spawn_group, wait_service, broker_turn, replay, finish, is_member,
  group_steps, script_steps, co_app_steps, app_steps, program, spawn_co_app,
}
use serena_de.Prelude.{
  ℕ, ◌≡◌, refl, sym, false, List, [], ◌∷◌, ◌++◌, map, length, All, All-append, inl, inr, subst,
  Bool-cases, Option-cases,
}

turns-Kept : (ts : List (List Client)) (slot : Slot) → Kept (map broker_turn ts) slot
turns-Kept [] slot = tt
turns-Kept (t ∷ ts) slot = (refl, turns-Kept ts slot)

turns-WellOrdered :
    (count : ℕ) (ts : List (List Client)) (sts : List Step)
    → WellOrdered count sts
    → WellOrdered count (map broker_turn ts ++ sts)
turns-WellOrdered count [] sts o = o
turns-WellOrdered count (t ∷ ts) sts o = (tt, turns-WellOrdered count ts sts o)

waits-WellOrdered :
    (count : ℕ) (ms : List ℕ) (sts : List Step)
    → WellOrdered count sts
    → WellOrdered count (map wait_service ms ++ sts)
waits-WellOrdered count [] sts o = o
waits-WellOrdered count (m ∷ ms) sts o = (tt, waits-WellOrdered count ms sts o)

waits-service : (ms : List ℕ) (i : ℕ) → Kept (map wait_service ms) (service i)
waits-service [] i = tt
waits-service (m ∷ ms) i = (refl, waits-service ms i)

waits-window_server : (ms : List ℕ) → Kept (map wait_service ms) window_server
waits-window_server [] = tt
waits-window_server (m ∷ ms) = (refl, waits-window_server ms)

module _ (w : World) where
  groups-service :
      (gs : List Group) (i : ℕ)
      → All (λ (k : Group). is_member i k.members ≡ false) gs
      → Kept (group_steps w gs) (service i)
  unfolding group_steps
  groups-service [] i h = tt
  groups-service (g ∷ gs) i h = (
    h.0,
    All-append _ (map wait_service g.members) _ (waits-service g.members i)
        (groups-service gs i h.1),
  )

  groups-window_server : (gs : List Group) → Kept (group_steps w gs) window_server
  unfolding group_steps
  groups-window_server [] = tt
  groups-window_server (g ∷ gs) = (
    refl,
    All-append _ (map wait_service g.members) _ (waits-window_server g.members)
        (groups-window_server gs),
  )

  script-Kept : (slot : Slot) → Kept (script_steps w) slot
  script-Kept slot = elim (Option-cases w.script) [
    | inl e ↦ rw (script_steps, e) tt
    | inr (b, e) ↦
        rw (script_steps, e)
          (All-append _ (map broker_turn w.script_turns) _ (turns-Kept w.script_turns slot)
            (refl, tt))
  ]

  settle-Kept : (slot : Slot) → Kept (map broker_turn w.settle_turns ++ finish w.verdict ∷ []) slot
  settle-Kept slot =
      All-append _ (map broker_turn w.settle_turns) _ (turns-Kept w.settle_turns slot) (refl, tt)

  co_app-Kept : (slot : Slot) → loses spawn_co_app slot ≡ false → Kept (co_app_steps w) slot
  co_app-Kept slot h = elim (Bool-cases w.has_co_app) [
    | inl e ↦
        rw (co_app_steps, e)
          (All-append _ (map broker_turn w.co_app_turns) _ (turns-Kept w.co_app_turns slot) (h, tt))
    | inr e ↦ rw (co_app_steps, e) tt
  ]

  -- What stands behind the app's start keeps every place but the second app's.
  later-Kept :
      (slot : Slot)
      → loses spawn_co_app slot ≡ false
      → Kept
          (script_steps w
            ++ (co_app_steps w ++ (map broker_turn w.settle_turns ++ finish w.verdict ∷ [])))
          slot
  later-Kept slot h =
      All-append _ (script_steps w) _ (script-Kept slot)
        (All-append _ (co_app_steps w) _ (co_app-Kept slot h) (settle-Kept slot))

  settle-WellOrdered :
      WellOrdered (length w.binaries) (map broker_turn w.settle_turns ++ finish w.verdict ∷ [])
  settle-WellOrdered = turns-WellOrdered (length w.binaries) w.settle_turns _ (tt, tt)

  co_app-WellOrdered :
      (sts : List Step)
      → Kept sts co_app
      → WellOrdered (length w.binaries) sts
      → WellOrdered (length w.binaries) (co_app_steps w ++ sts)
  co_app-WellOrdered sts k o = elim (Bool-cases w.has_co_app) [
    | inl e ↦
        rw (co_app_steps, e)
          (subst (WellOrdered (length w.binaries))
            (sym (append_assoc (map broker_turn w.co_app_turns) (spawn_co_app ∷ []) sts))
            (turns-WellOrdered (length w.binaries) w.co_app_turns _ (k, o)))
    | inr e ↦ rw (co_app_steps, e) o
  ]

  script-WellOrdered :
      (sts : List Step)
      → WellOrdered (length w.binaries) sts
      → WellOrdered (length w.binaries) (script_steps w ++ sts)
  script-WellOrdered sts o = elim (Option-cases w.script) [
    | inl e ↦ rw (script_steps, e) o
    | inr (b, e) ↦
        rw (script_steps, e)
          (subst (WellOrdered (length w.binaries))
            (sym (append_assoc (map broker_turn w.script_turns) (replay b ∷ []) sts))
            (turns-WellOrdered (length w.binaries) w.script_turns _ (tt, o)))
  ]

  app-WellOrdered : WellOrdered (length w.binaries) (app_steps w)
  app-WellOrdered = (
    later-Kept app refl,
    script-WellOrdered _ (co_app-WellOrdered _ (settle-Kept co_app) settle-WellOrdered),
  )

  groups-WellOrdered :
      (gs : List Group)
      → Apart (length w.binaries) gs
      → WellOrdered (length w.binaries) (group_steps w gs ++ app_steps w)
  unfolding group_steps
  groups-WellOrdered [] a = app-WellOrdered
  groups-WellOrdered (g ∷ gs) ((i, r, m, k), a) =
      subst
        (λ sts. Owns (length w.binaries) (spawn_group g) sts × WellOrdered (length w.binaries) sts)
        (sym (append_assoc (map wait_service g.members) (group_steps w gs) (app_steps w)))
        (
          (
            i,
            r,
            m,
            All-append _ (map wait_service g.members) _ (waits-service g.members i) (
                All-append _ (group_steps w gs) _ (groups-service gs i k)
                  (refl, later-Kept (service i) refl)),
          ),
          waits-WellOrdered (length w.binaries) g.members _ (groups-WellOrdered gs a),
        )

  pub program-WellOrdered : WellOrdered (length w.binaries) (program w)
  unfolding program
  program-WellOrdered = (
    (
      refl,
      All-append _ (group_steps w (group_services w.binaries)) _
          (groups-window_server (group_services w.binaries)) (refl, later-Kept window_server refl),
    ),
    (tt, groups-WellOrdered (group_services w.binaries) (group_services-Apart w.binaries)),
  )
