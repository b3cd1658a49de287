-- ===== src/Launcher/Session/Spawning.antt =====
-- Starting a child at a place, in main of src/Launcher/main.cpp.
use serena_de.Launcher.Groups.{Group}
use serena_de.Launcher.Session.{store_window_server, store_group, store_app, store_co_app}
use serena_de.Launcher.Session.Running.{running}
use serena_de.Launcher.Session.Slots.{
  Slot, window_server, app, co_app, service, pid_at, loses, Kept, InRange, Tracked, AllTracked,
}
use serena_de.Launcher.Session.{
  Session, Step, World, Run, going, exited, returned, spawn_window_server, spawn_app, spawn_co_app,
  spawn_group, is_member, spawn, spawned,
}
use serena_de.Prelude.Int.{ℤ, pos}
use mathlib.Core.Bool.{false≢true}
use serena_de.Prelude.{
  ℕ, suc, ◌+◌, ◌≤◌, ◌<◌, ◌≡◌, refl, ap, sym, ◌∙◌, true, false, List, subst, [], ◌∷◌, length, All,
  All-map, ◌⊎◌, inl, inr, arith, Option-cases,
}

-- What holds of the outcome of the steps in front of `sts`.
abbrev pub Good : ℕ → List Step → Run → Type 0
Good count sts (going s) = AllTracked count sts s
Good count sts (exited status s) = Unit
Good count sts (returned status s) = (32 ≤ length s.broker_children) ⊎ (running s.events ≡ [])

-- A step that starts a child has a place for it that no later step loses.
abbrev pub Owns : ℕ → Step → List Step → Type 0
Owns count spawn_window_server rest = Kept rest window_server
Owns count spawn_app rest = Kept rest app
Owns count spawn_co_app rest = Kept rest co_app
Owns count (spawn_group g) rest =
    (i : ℕ) × (i < count) × (is_member i g.members ≡ true) × Kept rest (service i)
Owns count _ rest = Unit

abbrev pub WellOrdered : ℕ → List Step → Type 0
WellOrdered count [] = Unit
WellOrdered count (st ∷ sts) = Owns count st sts × WellOrdered count sts

-- A change of the session that keeps the broker's children and every place that the step does not
-- lose keeps the children tracked.
pub Tracked-carry :
    (count : ℕ) (st : Step) (rest : List Step) (s s' : Session)
    → s'.broker_children ≡ s.broker_children
    → ((slot : Slot) → loses st slot ≡ false → pid_at s' slot ≡ pid_at s slot)
    → (p : ℕ) → Tracked count (st ∷ rest) s p
    → Tracked count rest s' p
Tracked-carry count st rest s s' same keeps p (positive, inl full) = (positive, inl (rw same full))
Tracked-carry count st rest s s' same keeps p (positive, inr (inl broker)) =
    (positive, inr (inl (rw same broker)))
Tracked-carry count st rest s s' same keeps p (positive, inr (inr place)) = (
  positive,
  inr (
      inr (record {
        slot = place.slot;
        holds = keeps place.slot place.kept.0 ∙ place.holds;
        in_range = place.in_range;
        kept = place.kept.1;
      })),
)

module _ (w : World) where
  -- A spawn at a place that the step loses and the later ones keep.
  pub spawn-Good :
      (st : Step) (rest : List Step) (s : Session) (store : ℤ → Session → Session) (slot : Slot)
      → ((pid : ℤ) (t : Session) → (store pid t).broker_children ≡ t.broker_children)
      → ((pid : ℤ) (t : Session) → (store pid t).events ≡ t.events)
      → ((pid : ℤ) (t : Session) (other : Slot)
          → loses st other ≡ false
          → pid_at (store pid t) other ≡ pid_at t other)
      → ((pid : ℤ) (t : Session) → pid_at (store pid t) slot ≡ pid)
      → InRange (length w.binaries) slot
      → Kept rest slot
      → AllTracked (length w.binaries) (st ∷ rest) s
      → Good (length w.binaries) rest (spawn w store s)
  unfolding spawn running
  spawn-Good st rest s store slot brokers events others here r k h =
      elim (Option-cases (w.child s.spawns)) [
        | inl e ↦ rw (spawn, e) tt
        | inr (n, e) ↦
            let t = record s { spawns = s.spawns + 1; events = spawned (suc n) ∷ s.events } in
            let s' = store (pos (suc n)) t in
            rw (spawn, e)
              (subst (All (Tracked (length w.binaries) rest s'))
                (sym (ap running (events (pos (suc n)) t)))
                (
                  (
                    omega arith,
                    inr (
                        inr (record {
                          slot = slot;
                          holds = here (pos (suc n)) t;
                          in_range = r;
                          kept = k;
                        })),
                  ),
                  All-map (Tracked (length w.binaries) (st ∷ rest) s)
                      (Tracked (length w.binaries) rest s')
                      (Tracked-carry (length w.binaries) st rest s s' (brokers (pos (suc n)) t)
                        (λ other l. others (pos (suc n)) t other l ∙ same_slots n s other))
                      (running s.events) h,
                ))
      ]
    where
      same_slots :
          (n : ℕ) (s : Session) (other : Slot)
          → pid_at (record s { spawns = s.spawns + 1; events = spawned (suc n) ∷ s.events }) other
            ≡ pid_at s other
      same_slots n s window_server = refl
      same_slots n s app = refl
      same_slots n s co_app = refl
      same_slots n s (service i) = refl

  pub window_server_others :
      (pid : ℤ) (t : Session) (other : Slot)
      → loses spawn_window_server other ≡ false
      → pid_at (store_window_server w pid t) other ≡ pid_at t other
  window_server_others pid t window_server l = absurd (false≢true (sym l))
  window_server_others pid t app l = refl
  window_server_others pid t co_app l = refl
  window_server_others pid t (service i) l = refl

  pub app_others :
      (pid : ℤ) (t : Session) (other : Slot)
      → loses spawn_app other ≡ false
      → pid_at (store_app w pid t) other ≡ pid_at t other
  app_others pid t window_server l = refl
  app_others pid t app l = absurd (false≢true (sym l))
  app_others pid t co_app l = refl
  app_others pid t (service i) l = refl

  pub co_app_others :
      (pid : ℤ) (t : Session) (other : Slot)
      → loses spawn_co_app other ≡ false
      → pid_at (store_co_app w pid t) other ≡ pid_at t other
  co_app_others pid t window_server l = refl
  co_app_others pid t app l = refl
  co_app_others pid t co_app l = absurd (false≢true (sym l))
  co_app_others pid t (service i) l = refl

  pub service_others :
      (g : Group) (pid : ℤ) (t : Session) (other : Slot)
      → loses (spawn_group g) other ≡ false
      → pid_at (store_group w g.members pid t) other ≡ pid_at t other
  service_others g pid t window_server l = refl
  service_others g pid t app l = refl
  service_others g pid t co_app l = refl
  service_others g pid t (service i) l = rw l refl
