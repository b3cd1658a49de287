-- ===== src/Window/Wake/Stranded.antt =====
-- Events in Xlib's queue alone, for the pump thread of src/WindowServerX11/X11Context.cpp.
use serena_de.Prelude.{ℕ, ◌≡◌, refl, List, [], ◌∷◌, All}
use serena_de.Window.{Context, XEvent}
use serena_de.Window.Wake.{
  Pumping, Turn, arrives, reads, polls, notified, puts, flushes, poll, notify, turn, turns,
}
use serena_de.Window.Wake.Order.{at_start}
use serena_de.X11Input.{KeyApi}

-- The turns of the pump thread and of its notifier.
abbrev pub IsPump : Turn → Type 0
IsPump polls = Unit
IsPump notified = Unit
IsPump _ = ⊥

abbrev pub stranded : (api : KeyApi) → Context api.KeyCode → List XEvent → Pumping api.KeyCode
stranded api c evs = record { context = c; queued = evs; socket = []; pipe = 0 }

pump-stranded :
    (api : KeyApi) (capacity : ℕ) (c : Context api.KeyCode) (evs : List XEvent) (ts : List Turn)
    → All IsPump ts
    → turns api capacity ts (stranded api c evs) ≡ stranded api c evs
unfolding turns turn poll notify
pump-stranded api capacity c evs [] h = refl
pump-stranded api capacity c evs (polls ∷ ts) (_, h) = pump-stranded api capacity c evs ts h
pump-stranded api capacity c evs (notified ∷ ts) (_, h) = pump-stranded api capacity c evs ts h
pump-stranded api capacity c evs (arrives ev ∷ ts) (h, _) = absurd h
pump-stranded api capacity c evs (reads ∷ ts) (h, _) = absurd h
pump-stranded api capacity c evs (puts r ∷ ts) (h, _) = absurd h
pump-stranded api capacity c evs (flushes ∷ ts) (h, _) = absurd h

-- If Xlib reads an event from the socket during a request, before the pump thread has seen it there,
-- then no number of turns of the pump thread and its notifier delivers it: it stays in Xlib's queue
-- and the pipe stays empty, with no regard to the 30 ms of the select.
pub turns-stranded :
    (api : KeyApi) (capacity : ℕ) (c : Context api.KeyCode) (ev : XEvent) (ts : List Turn)
    → All IsPump ts
    → turns api capacity (arrives ev ∷ reads ∷ ts) (at_start api c) ≡ stranded api c (ev ∷ [])
unfolding turns turn
turns-stranded api capacity c ev ts h = pump-stranded api capacity c (ev ∷ []) ts h
