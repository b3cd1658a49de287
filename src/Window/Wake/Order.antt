-- ===== src/Window/Wake/Order.antt =====
-- The order and the completeness of what the pump of src/WindowServerX11/X11Context.cpp delivers.
use mathlib.Core.List.{append-nil, append_assoc}
use serena_de.Prelude.{
  ℕ, ◌+◌, ◌≡◌, refl, ap, sym, ◌∙◌, Bool, true, false, ◌&&◌, List, [], ◌∷◌, ◌++◌, ltb, subst, ◌==◌,
  if◌then◌else◌,
}
use serena_de.Window.{Context, Rect, XEvent, pump_events, put_rect, flush_requests}
use serena_de.Window.Pump.{
  raws_of, raws_of-append, Since, pump_events-Since, put_rect-Since, on_raws-append,
  on_raws-append_state,
}
use serena_de.Window.Wake.{
  Pumping, Turn, arrives, reads, polls, notified, puts, flushes, has_data, drain, unread, poll,
  notify, turn, turns,
}
use serena_de.X11Input.{KeyApi, on_raws}

-- The events that arrive in some turns.
abbrev pub arrivals : List Turn → List XEvent
arrivals [] = []
arrivals (arrives ev ∷ ts) = ev ∷ arrivals ts
arrivals (_ ∷ ts) = arrivals ts

-- Of all the events, the first ones have been handled, and what the mapper makes of them delivered, in
-- order; the others are still unread.
pub record Handled (api : KeyApi) (c : Context api.KeyCode) (all : List XEvent)
    (s : Pumping api.KeyCode) : Type 0 where
  pub handled : List XEvent
  pub split : handled ++ (s.queued ++ s.socket) ≡ all
  pub delivered : s.context.delivered ≡ c.delivered ++ (on_raws api (raws_of handled) c.mapper).1
  pub mapper : s.context.mapper ≡ (on_raws api (raws_of handled) c.mapper).0

module _ (api : KeyApi) (capacity : ℕ) (c : Context api.KeyCode) where
  -- Everything unread is handled by a pump that leads to the context `c'`.
  pub pumped-Handled :
      (all : List XEvent) (s : Pumping api.KeyCode) (rects : List Rect) (c' : Context api.KeyCode)
      (pipe : ℕ)
      → Handled api c all s
      → Since api s.context (raws_of (s.queued ++ s.socket)) rects c'
      → Handled api c all (record { context = c'; queued = []; socket = []; pipe = pipe })
  pumped-Handled all s rects c' pipe h since = record {
    handled = h.handled ++ (s.queued ++ s.socket);
    split = append-nil (h.handled ++ (s.queued ++ s.socket)) ∙ h.split;
    delivered =
        since.delivered
        ∙ rw
            (
              h.delivered,
              h.mapper,
              raws_of-append api h.handled (s.queued ++ s.socket),
              on_raws-append api (raws_of h.handled) (raws_of (s.queued ++ s.socket)) c.mapper,
              append_assoc,
            )
            refl;
    mapper =
        since.mapper
        ∙ rw (h.mapper, raws_of-append api h.handled (s.queued ++ s.socket))
            (sym (
              on_raws-append_state api (raws_of h.handled) (raws_of (s.queued ++ s.socket))
                c.mapper));
  }

  still-Handled :
      (all : List XEvent) (s : Pumping api.KeyCode)
      → Handled api c all s
      → Handled api c (all ++ []) s
  still-Handled all s h = record {
    handled = h.handled;
    split = h.split ∙ sym (append-nil all);
    delivered = h.delivered;
    mapper = h.mapper;
  }

  pub turn-Handled :
      (t : Turn) (all : List XEvent) (s : Pumping api.KeyCode)
      → Handled api c all s
      → Handled api c (all ++ arrivals (t ∷ [])) (turn api capacity t s)
  unfolding turn poll notify flush_requests
  turn-Handled (arrives ev) all s h = record {
    handled = h.handled;
    split =
        ap (λ l. h.handled ++ l) (sym (append_assoc s.queued s.socket (ev ∷ [])))
        ∙ sym (append_assoc h.handled (s.queued ++ s.socket) (ev ∷ []))
        ∙ ap (λ l. l ++ ev ∷ []) h.split;
    delivered = h.delivered;
    mapper = h.mapper;
  }
  turn-Handled reads all s h = record {
    handled = h.handled;
    split =
        ap (λ l. h.handled ++ l) (append-nil (s.queued ++ s.socket))
        ∙ h.split
        ∙ sym (append-nil all);
    delivered = h.delivered;
    mapper = h.mapper;
  }
  turn-Handled polls all s h = poll_if (has_data s.socket && ltb s.pipe capacity)
    where
      poll_if :
          (b : Bool) → Handled api c (all ++ []) (if b then record s { pipe = s.pipe + 1 } else s)
      poll_if true = record {
        handled = h.handled;
        split = h.split ∙ sym (append-nil all);
        delivered = h.delivered;
        mapper = h.mapper;
      }
      poll_if false = still-Handled all s h
  turn-Handled notified all s h = notify_if (s.pipe == 0)
    where
      notify_if :
          (b : Bool)
          → Handled api c (all ++ []) (
              if b then s else record s {
                context = pump_events api (unread api capacity s) s.context;
                queued = [];
                socket = [];
                pipe = drain s.pipe s.pipe;
              })
      notify_if true = still-Handled all s h
      notify_if false =
          subst
            (λ l. Handled api c l (record {
              context = pump_events api (s.queued ++ s.socket) s.context;
              queued = [];
              socket = [];
              pipe = drain s.pipe s.pipe;
            }))
            (sym (append-nil all))
            (pumped-Handled all s _ _ (drain s.pipe s.pipe) h
              (pump_events-Since api (s.queued ++ s.socket) s.context))
  turn-Handled (puts r) all s h = put_if s.context.has_image refl
    where
      put_if :
          (b : Bool)
          → s.context.has_image ≡ b
          → Handled api c (all ++ []) (
              if b
              then record s {
                context = put_rect api (unread api capacity s) r s.context;
                queued = [];
                socket = [];
              }
              else s)
      put_if true image =
          subst
            (λ l. Handled api c l (record {
              context = put_rect api (s.queued ++ s.socket) r s.context;
              queued = [];
              socket = [];
              pipe = s.pipe;
            }))
            (sym (append-nil all))
            (pumped-Handled all s _ _ s.pipe h
              (put_rect-Since api (s.queued ++ s.socket) r s.context image))
      put_if false hidden = still-Handled all s h
  turn-Handled flushes all s h = record {
    handled = h.handled;
    split = h.split ∙ sym (append-nil all);
    delivered = h.delivered;
    mapper = h.mapper;
  }

  pub turns-Handled :
      (ts : List Turn) (all : List XEvent) (s : Pumping api.KeyCode)
      → Handled api c all s
      → Handled api c (all ++ arrivals ts) (turns api capacity ts s)
  unfolding turns
  turns-Handled [] all s h = still-Handled all s h
  turns-Handled (t ∷ ts) all s h =
      subst (λ l. Handled api c l (turns api capacity ts (turn api capacity t s)))
        (append_assoc all (arrivals (t ∷ [])) (arrivals ts)
          ∙ ap (λ l. all ++ l) (arrivals-cons t ts))
        (turns-Handled ts (all ++ arrivals (t ∷ [])) (turn api capacity t s)
          (turn-Handled t all s h))
    where
      arrivals-cons :
          (t : Turn) (ts : List Turn) → arrivals (t ∷ []) ++ arrivals ts ≡ arrivals (t ∷ ts)
      arrivals-cons (arrives ev) ts = refl
      arrivals-cons reads ts = refl
      arrivals-cons polls ts = refl
      arrivals-cons notified ts = refl
      arrivals-cons (puts r) ts = refl
      arrivals-cons flushes ts = refl

abbrev pub at_start : (api : KeyApi) → Context api.KeyCode → Pumping api.KeyCode
at_start api c = record { context = c; queued = []; socket = []; pipe = 0 }

-- Whatever the threads, the server and Xlib do in whatever order, no event is lost, repeated or
-- overtaken: the events that have arrived are some that were handled, followed by those that are still
-- unread; what was delivered is what the mapper makes of the handled ones, in the order of their
-- arrival, and its state is the mapper's behind them.
pub turns-at_start :
    (api : KeyApi) (capacity : ℕ) (c : Context api.KeyCode) (ts : List Turn)
    → Handled api c (arrivals ts) (turns api capacity ts (at_start api c))
unfolding on_raws
turns-at_start api capacity c ts =
    turns-Handled api capacity c ts [] (at_start api c) (record {
      handled = [];
      split = refl;
      delivered = sym (append-nil c.delivered);
      mapper = refl;
    })
