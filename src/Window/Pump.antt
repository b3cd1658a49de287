-- ===== src/Window/Pump.antt =====
-- The events and the requests of a flush: X11Context.cpp and X11ScreenBackend.cpp in
-- src/WindowServerX11.
use mathlib.Core.Bool.{false≢true}
use mathlib.Core.List.{append-nil, append_assoc, map-append}
use serena_de.Prelude.{
  ◌≡◌, refl, ap, sym, ◌∙◌, Bool, true, false, List, [], ◌∷◌, ◌++◌, map, if◌then◌else◌,
}
use serena_de.X11Input.{
  motion, button_down, button_up, key_down, key_up, RawX11Event, KeyApi, Mapper, on_raw, on_raws,
}
use serena_de.X11Input.Keys.{key_event}
use serena_de.Window.{
  Rect, Request, Context, put_image_of, blit, flush_requests, XEvent, expose, motion_notify,
  button_press, button_release, key_press, key_release, other_event, pointer_event, deliver, handle,
  pump_events, put_rect,
}
use serena_de.Window.Backend.{put_rects, flush_framebuffer_rects}

-- The input among the X events, and the regions that the window lost.
abbrev pub raw_of : XEvent → List RawX11Event
raw_of (expose r) = []
raw_of (motion_notify x y) = pointer_event motion x y 0 ∷ []
raw_of (button_press x y b) = pointer_event button_down x y b ∷ []
raw_of (button_release x y b) = pointer_event button_up x y b ∷ []
raw_of (key_press ev state) = key_event key_down ev state ∷ []
raw_of (key_release ev state) = key_event key_up ev state ∷ []
raw_of other_event = []

abbrev pub lost_of : XEvent → List Rect
lost_of (expose r) = r ∷ []
lost_of _ = []

abbrev pub raws_of : List XEvent → List RawX11Event
raws_of [] = []
raws_of (ev ∷ evs) = raw_of ev ++ raws_of evs

abbrev pub all_lost : List XEvent → List Rect
all_lost [] = []
all_lost (ev ∷ evs) = lost_of ev ++ all_lost evs

-- All the events that a flush finds, and all the regions that it repaints, in order.
abbrev pub all_pending : List (List XEvent × Rect) → List XEvent
all_pending [] = []
all_pending ((pending, r) ∷ rs) = pending ++ all_pending rs

abbrev pub repainted : List (List XEvent × Rect) → List Rect
repainted [] = []
repainted ((pending, r) ∷ rs) = all_lost pending ++ r ∷ repainted rs

-- The request for a rect, by the way that the context puts images.
abbrev pub request : Bool → Rect → Request
request use_shm r = if use_shm then Request.shm_put_image r else Request.put_image r

-- The images that are put: all of them where there is an X image, or none.
abbrev pub shown : Bool → List Rect → List Rect
shown true rects = rects
shown false rects = []

shown-append :
    (b : Bool) (rects rects' : List Rect)
    → shown b (rects ++ rects') ≡ shown b rects ++ shown b rects'
shown-append true rects rects' = refl
shown-append false rects rects' = refl

shown-nil : (b : Bool) → shown b [] ≡ []
shown-nil true = refl
shown-nil false = refl

-- What a context has done since it was another.
pub record Since (api : KeyApi) (c : Context api.KeyCode) (raws : List RawX11Event)
    (rects : List Rect) (c' : Context api.KeyCode) : Type 0 where
  pub delivered : c'.delivered ≡ c.delivered ++ (on_raws api raws c.mapper).1
  pub mapper : c'.mapper ≡ (on_raws api raws c.mapper).0
  pub requests : c'.requests ≡ c.requests ++ map (request c.use_shm) (shown c.has_image rects)
  pub use_shm : c'.use_shm ≡ c.use_shm
  pub has_image : c'.has_image ≡ c.has_image

module _ (api : KeyApi) where
  pub on_raws-append_state :
      (res res' : List RawX11Event) (s : Mapper)
      → (on_raws api (res ++ res') s).0 ≡ (on_raws api res' (on_raws api res s).0).0
  unfolding on_raws
  on_raws-append_state [] res' s = refl
  on_raws-append_state (re ∷ res) res' s = on_raws-append_state res res' (on_raw api re s).0

  pub on_raws-append :
      (res res' : List RawX11Event) (s : Mapper)
      → (on_raws api (res ++ res') s).1
        ≡ (on_raws api res s).1 ++ (on_raws api res' (on_raws api res s).0).1
  unfolding on_raws
  on_raws-append [] res' s = refl
  on_raws-append (re ∷ res) res' s =
      ap (λ out. (on_raw api re s).1 ++ out) (on_raws-append res res' (on_raw api re s).0)
      ∙ sym (append_assoc (on_raw api re s).1 _ _)

  Since-trans :
      (c c' c'' : Context api.KeyCode) (raws raws' : List RawX11Event) (rects rects' : List Rect)
      → Since api c raws rects c'
      → Since api c' raws' rects' c''
      → Since api c (raws ++ raws') (rects ++ rects') c''
  Since-trans c c' c'' raws raws' rects rects' a b = record {
    delivered =
        b.delivered
        ∙ rw (a.delivered, a.mapper, on_raws-append raws raws' c.mapper, append_assoc) refl;
    mapper = b.mapper ∙ rw a.mapper (sym (on_raws-append_state raws raws' c.mapper));
    requests =
        b.requests
        ∙ rw
            (
              a.requests,
              a.use_shm,
              a.has_image,
              shown-append c.has_image rects rects',
              map-append,
              append_assoc,
            )
            refl;
    use_shm = b.use_shm ∙ a.use_shm;
    has_image = b.has_image ∙ a.has_image;
  }

  delivers :
      (re : RawX11Event) (c : Context api.KeyCode) → Since api c (re ∷ []) [] (deliver api re c)
  unfolding deliver on_raws
  delivers re c = record {
    delivered = rw append-nil refl;
    mapper = refl;
    requests = rw (shown-nil c.has_image) (sym (append-nil c.requests));
    use_shm = refl;
    has_image = refl;
  }

  nothing-Since : (c : Context api.KeyCode) → Since api c [] [] c
  unfolding on_raws
  nothing-Since c = record {
    delivered = sym (append-nil c.delivered);
    mapper = refl;
    requests = rw (shown-nil c.has_image) (sym (append-nil c.requests));
    use_shm = refl;
    has_image = refl;
  }

  put_image_of-Since :
      (r : Rect) (c : Context api.KeyCode)
      → c.has_image ≡ true
      → Since api c [] (r ∷ []) (put_image_of r c)
  unfolding put_image_of on_raws
  put_image_of-Since r c h = record {
    delivered = sym (append-nil c.delivered);
    mapper = refl;
    requests = rw h refl;
    use_shm = refl;
    has_image = refl;
  }

  hidden-Since :
      (r : Rect) (c : Context api.KeyCode) → c.has_image ≡ false → Since api c [] (r ∷ []) c
  unfolding on_raws
  hidden-Since r c h = record {
    delivered = sym (append-nil c.delivered);
    mapper = refl;
    requests = rw h (sym (append-nil c.requests));
    use_shm = refl;
    has_image = refl;
  }

  blit-Since : (r : Rect) (c : Context api.KeyCode) → Since api c [] (r ∷ []) (blit r c)
  unfolding blit
  blit-Since r c = with_image c.has_image refl
    where
      with_image :
          (b : Bool) → c.has_image ≡ b → Since api c [] (r ∷ []) (if b then put_image_of r c else c)
      with_image true h = put_image_of-Since r c h
      with_image false h = hidden-Since r c h

  handle-Since :
      (ev : XEvent) (c : Context api.KeyCode)
      → Since api c (raw_of ev) (lost_of ev) (handle api ev c)
  unfolding handle
  handle-Since (expose r) c = blit-Since r c
  handle-Since (motion_notify x y) c = delivers _ c
  handle-Since (button_press x y b) c = delivers _ c
  handle-Since (button_release x y b) c = delivers _ c
  handle-Since (key_press ev state) c = delivers _ c
  handle-Since (key_release ev state) c = delivers _ c
  handle-Since other_event c = nothing-Since c

  pub pump_events-Since :
      (evs : List XEvent) (c : Context api.KeyCode)
      → Since api c (raws_of evs) (all_lost evs) (pump_events api evs c)
  unfolding pump_events
  pump_events-Since [] c = nothing-Since c
  pump_events-Since (ev ∷ evs) c =
      Since-trans c (handle api ev c) _ (raw_of ev) (raws_of evs) (lost_of ev) (all_lost evs)
        (handle-Since ev c) (pump_events-Since evs (handle api ev c))

  pub put_rect-Since :
      (evs : List XEvent) (r : Rect) (c : Context api.KeyCode)
      → c.has_image ≡ true
      → Since api c (raws_of evs) (all_lost evs ++ r ∷ []) (put_rect api evs r c)
  unfolding put_rect
  put_rect-Since evs r c h = with_image c.has_image h
    where
      with_image :
          (b : Bool)
          → b ≡ true
          → Since api c
              (raws_of evs)
              (all_lost evs ++ r ∷ [])
              (if b then blit r (pump_events api evs c) else c)
      with_image true e = rw (append-nil (raws_of evs)) at (
          Since-trans c (pump_events api evs c) _ (raws_of evs) [] (all_lost evs) (r ∷ [])
            (pump_events-Since evs c) (blit-Since r (pump_events api evs c)))
      with_image false e = absurd (false≢true e)

  pub raws_of-append :
      (evs evs' : List XEvent) → raws_of (evs ++ evs') ≡ raws_of evs ++ raws_of evs'
  raws_of-append [] evs' = refl
  raws_of-append (ev ∷ evs) evs' =
      ap (λ res. raw_of ev ++ res) (raws_of-append evs evs') ∙ sym (append_assoc (raw_of ev) _ _)

  put_rects-Since :
      (rs : List (List XEvent × Rect)) (c : Context api.KeyCode)
      → c.has_image ≡ true
      → Since api c (raws_of (all_pending rs)) (repainted rs) (put_rects api rs c)
  unfolding put_rects
  put_rects-Since [] c h = nothing-Since c
  put_rects-Since ((pending, r) ∷ rs) c h =
      let first = put_rect-Since pending r c h in
      rw (raws_of-append pending (all_pending rs)) (
        rw (append_assoc (all_lost pending) (r ∷ []) (repainted rs)) at (
          Since-trans c (put_rect api pending r c) _ (raws_of pending) (raws_of (all_pending rs))
            (all_lost pending ++ r ∷ []) (repainted rs) first
            (put_rects-Since rs (put_rect api pending r c) (first.has_image ∙ h))))

  -- Once create_window has made the X image, a flush loses no input and no region, whatever events are
  -- pending when each of its rects is put: what is delivered is what the mapper makes of all the input
  -- events among them, in the order in which they came, and its state is the mapper's afterwards; the
  -- images put are the exposed regions and the rects, each before the rect that its event was found at,
  -- and one request to flush is last.
  pub flush_framebuffer_rects-delivered :
      (rs : List (List XEvent × Rect)) (c : Context api.KeyCode)
      → c.has_image ≡ true
      → let c' = flush_framebuffer_rects api rs c in
        let all = on_raws api (raws_of (all_pending rs)) c.mapper in
        (c'.delivered ≡ c.delivered ++ all.1)
        × (c'.mapper ≡ all.0)
        × (c'.requests
            ≡ (c.requests ++ map (request c.use_shm) (repainted rs)) ++ Request.flush ∷ [])
  unfolding flush_framebuffer_rects flush_requests
  flush_framebuffer_rects-delivered rs c h =
      let s = put_rects-Since rs c h in
      let every : shown c.has_image (repainted rs) ≡ repainted rs = rw h refl in
      (
        s.delivered,
        s.mapper,
        ap (λ out. out ++ Request.flush ∷ [])
            (s.requests ∙ ap (λ rects. c.requests ++ map (request c.use_shm) rects) every),
      )
