-- ===== src/Window/Wake/Progress.antt =====
-- The pump thread and the notifier of src/WindowServerX11/X11Context.cpp, when data has come.
use mathlib.Core.Bool.{false≢true}
use mathlib.Core.List.{append-nil}
use serena_de.Prelude.{
  ℕ, zero, suc, ◌-◌, ◌≤◌, ◌<◌, ◌≡◌, refl, ap, sym, ◌∙◌, Bool, true, false, List, [], ◌∷◌, ◌++◌,
  subst, ◌==◌, if◌then◌else◌, arith, Bool-cases, inl, inr,
}
use serena_de.Window.{Context, XEvent, pump_events}
use serena_de.Window.Pump.{raws_of, pump_events-Since}
use serena_de.Window.Wake.{
  Pumping, Turn, polls, notified, has_data, drain, poll, notify, turn, turns,
}
use serena_de.Window.Wake.Order.{
  Handled, pumped-Handled, turn-Handled, arrivals, at_start, turns-at_start,
}
use serena_de.X11Input.{KeyApi, on_raws}

drain-zero : (fuel bytes : ℕ) → bytes ≤ fuel → drain fuel bytes ≡ 0
unfolding drain
drain-zero zero bytes h = omega arith
drain-zero (suc fuel) bytes h = elim (Bool-cases (bytes == 0)) [
  | inl empty ↦ rw empty refl
  | inr filled ↦ rw filled (drain-zero fuel (bytes - 64) (ground arith))
]

-- Nothing is left to read, and all that came is delivered.
pub record IsDrained (api : KeyApi) (c : Context api.KeyCode) (all : List XEvent)
    (s : Pumping api.KeyCode) : Type 0 where
  pub queued : s.queued ≡ []
  pub socket : s.socket ≡ []
  pub pipe : s.pipe ≡ 0
  pub delivered : s.context.delivered ≡ c.delivered ++ (on_raws api (raws_of all) c.mapper).1

module _ (api : KeyApi) (capacity : ℕ) (c : Context api.KeyCode) where
  notify-IsDrained :
      (all : List XEvent) (s : Pumping api.KeyCode)
      → s.pipe == 0 ≡ false
      → Handled api c all s
      → IsDrained api c all (notify api capacity s)
  unfolding notify
  notify-IsDrained all s awake h = woken (s.pipe == 0) awake
    where
      woken :
          (b : Bool)
          → b ≡ false
          → IsDrained api c all (
              if b then s else record s {
                context = pump_events api (s.queued ++ s.socket) s.context;
                queued = [];
                socket = [];
                pipe = drain s.pipe s.pipe;
              })
      woken true e = absurd (false≢true (sym e))
      woken false e =
          let after =
            pumped-Handled api capacity c all s _ _ (drain s.pipe s.pipe) h
              (pump_events-Since api (s.queued ++ s.socket) s.context) in
          let every : after.handled ≡ all = sym (append-nil after.handled) ∙ after.split in
          record {
            queued = refl;
            socket = refl;
            pipe = drain-zero s.pipe s.pipe (omega arith);
            delivered =
                after.delivered
                ∙ ap (λ l. c.delivered ++ (on_raws api (raws_of l) c.mapper).1) every;
          }

  -- A turn of the pump thread with data in the socket leaves a byte in the pipe.
  poll-awake :
      (s : Pumping api.KeyCode)
      → 0 < capacity
      → has_data s.socket ≡ true
      → (poll api capacity s).pipe == 0 ≡ false
  unfolding poll
  poll-awake s room filled = ground arith

  turns-then :
      (ts us : List Turn) (s : Pumping api.KeyCode)
      → turns api capacity (ts ++ us) s ≡ turns api capacity us (turns api capacity ts s)
  unfolding turns
  turns-then [] us s = refl
  turns-then (t ∷ ts) us s = turns-then ts us (turn api capacity t s)

-- Whatever has happened before, if the socket has data, then a turn of the pump thread and one of the
-- notifier behind it deliver every event that has arrived, in order, and leave nothing unread, neither
-- in the socket nor in Xlib's queue, and the pipe empty.
pub turns-IsDrained :
    (api : KeyApi) (capacity : ℕ) (c : Context api.KeyCode) (ts : List Turn)
    → 0 < capacity
    → has_data (turns api capacity ts (at_start api c)).socket ≡ true
    → IsDrained api c
        (arrivals ts)
        (turns api capacity (ts ++ polls ∷ notified ∷ []) (at_start api c))
unfolding turns turn
turns-IsDrained api capacity c ts room filled =
    let s = turns api capacity ts (at_start api c) in
    subst (IsDrained api c (arrivals ts))
      (sym (turns-then api capacity c ts (polls ∷ notified ∷ []) (at_start api c)))
      (notify-IsDrained api capacity c (arrivals ts) (poll api capacity s)
        (poll-awake api capacity c s room filled)
        (subst (λ l. Handled api c l (poll api capacity s)) (append-nil (arrivals ts))
          (turn-Handled api capacity c polls (arrivals ts) s (turns-at_start api capacity c ts))))
