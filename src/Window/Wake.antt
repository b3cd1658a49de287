-- ===== src/Window/Wake.antt =====
-- How events reach pump_events of src/WindowServerX11/X11Context.cpp: the pump thread
-- (pump_thread_main), the self-pipe, and the notifier of start_event_pump, with put_rect of the main
-- thread between them. What happens is a sequence of turns. Events that the X server has sent lie in
-- the socket; Xlib moves them to its own queue when it reads the socket, which it may do in any
-- request. XPending finds both.
pub mod Order
pub mod Progress
pub mod Stranded
mod Tests
use serena_de.Prelude.{
  ℕ, zero, suc, ◌+◌, ◌-◌, Bool, true, false, ◌&&◌, List, [], ◌∷◌, ◌++◌, ltb, ◌==◌, if◌then◌else◌,
}
use serena_de.Window.{Context, Rect, XEvent, pump_events, put_rect, flush_requests}
use serena_de.X11Input.{KeyApi}

-- The context, the events in Xlib's queue and in the socket, and the bytes in the pipe.
pub record Pumping (K : Type 0) : Type 0 where
  pub context : Context K
  pub queued : List XEvent
  pub socket : List XEvent
  pub pipe : ℕ

pub data Turn : Type 0 where
  -- the server sends an event, and Xlib reads the socket while it sends a request
  arrives : XEvent → Turn
  reads : Turn
  -- the pump thread's select, and the notifier in the main thread
  polls notified : Turn
  -- put_rect, which reads no event without an X image, and flush of the main thread
  puts : Rect → Turn
  flushes : Turn

abbrev pub has_data : List XEvent → Bool
has_data [] = false
has_data (_ ∷ _) = true

-- The reads of 64 bytes until the pipe is empty.
unfoldable pub drain : ℕ → ℕ → ℕ
drain zero bytes = bytes
drain (suc fuel) bytes = let rest = drain fuel (bytes - 64) in if bytes == 0 then 0 else rest

module _ (api : KeyApi) (capacity : ℕ) where
  abbrev pub unread : Pumping api.KeyCode → List XEvent
  unread s = s.queued ++ s.socket

  -- select wakes for the socket alone; behind its 30 ms nothing is written. A write to a full pipe waits.
  unfoldable pub poll : Pumping api.KeyCode → Pumping api.KeyCode
  poll s = if has_data s.socket && ltb s.pipe capacity then record s { pipe = s.pipe + 1 } else s

  -- on_activation, which runs if the pipe can be read.
  unfoldable pub notify : Pumping api.KeyCode → Pumping api.KeyCode
  unfolding drain
  notify s = if s.pipe == 0 then s else record s {
    context = pump_events api (unread s) s.context;
    queued = [];
    socket = [];
    pipe = drain s.pipe s.pipe;
  }

  unfoldable pub turn : Turn → Pumping api.KeyCode → Pumping api.KeyCode
  turn (arrives ev) s = record s { socket = s.socket ++ ev ∷ [] }
  turn reads s = record s { queued = s.queued ++ s.socket; socket = [] }
  turn polls s = poll s
  turn notified s = notify s
  turn (puts r) s =
      if s.context.has_image
      then record s { context = put_rect api (unread s) r s.context; queued = []; socket = [] }
      else s
  turn flushes s = record s { context = flush_requests s.context }

  unfoldable pub turns : List Turn → Pumping api.KeyCode → Pumping api.KeyCode
  turns [] s = s
  turns (t ∷ ts) s = turns ts (turn t s)
