-- ===== src/Window/Backend/Retry.antt =====
-- map_framebuffer of src/WindowServerX11/X11ScreenBackend.cpp after a failure of create_window.
use mathlib.Core.Bool.{false≢true}
use serena_de.Prelude.{
  ℕ, ◌*◌, ◌≡◌, refl, sym, ap, subst, ◌∙◌, not, Bool, true, false, Option, none, some, ◌&&◌, Every,
  if-Every, if◌then◌else◌,
}
use serena_de.Window.Backend.{Backend, point_at, map_window, map_framebuffer}
use serena_de.Window.Creation.{
  Block, block, Answers, State, Outcome, succeeded, failed, crashed, image_bytes, choose_visual,
  try_shm, paint, make_framebuffer, make_plain_image, make_store, create_window,
}
use serena_de.Window.Creation.Leads.{if-Holds, Option-Holds}

-- The window is there, and no framebuffer.
record IsHalf (s : State) : Type 0 where
  pub has_display : s.has_display ≡ true
  pub has_window : s.has_window ≡ true
  pub no_fb : s.fb ≡ none

Halves : State × Outcome → Type 0
Halves r = r.1 ≡ failed → IsHalf r.0

abbrev IsFailure : Outcome → Type 0
IsFailure failed = Unit
IsFailure _ = ⊥

has_succeeded : {A : Type 0} → succeeded ≡ failed → A
has_succeeded e = absurd (subst IsFailure (sym e) tt)

has_crashed : {A : Type 0} → crashed ≡ failed → A
has_crashed e = absurd (subst IsFailure (sym e) tt)

module _ (a : Answers) where
  make_framebuffer-Halves : (s : State) → IsHalf s → Halves (make_framebuffer a s)
  unfolding make_framebuffer paint Halves
  make_framebuffer-Halves s h =
      if-Holds Halves s.zero_copy _ _ (λ direct e. has_succeeded e)
        (λ converted.
          Option-Holds Halves (a.fb_malloc (s.width * s.height * 4)) _
            (λ address. paint a (record s { fb = block (s.width * s.height * 4) address }))
            (λ e. record { has_display = h.has_display; has_window = h.has_window; no_fb = refl })
            (λ address e. has_succeeded e))

  with_image :
      (s : State) (image : Option Block) (made shm : Bool)
      → IsHalf s
      → IsHalf (record s { image_data = image; has_image = made; use_shm = shm })
  with_image s image made shm h = record {
    has_display = h.has_display;
    has_window = h.has_window;
    no_fb = h.no_fb;
  }

  make_plain_image-Halves : (s : State) → IsHalf s → Halves (make_plain_image a s)
  unfolding make_plain_image Halves
  make_plain_image-Halves s h =
      Option-Holds Halves (a.image_malloc (image_bytes a s)) _
        (λ address.
          if a.plain_image
          then make_framebuffer a
              (record s { image_data = block (image_bytes a s) address; has_image = true })
          else (
            record s { image_data = block (image_bytes a s) address; has_image = false },
            failed,
          ))
        (λ e. with_image s none s.has_image s.use_shm h)
        (λ address.
          if-Holds Halves a.plain_image _ _
            (λ made. make_framebuffer-Halves _ (with_image s _ true s.use_shm h))
            (λ refused e. with_image s _ false s.use_shm h))

  try_shm-IsHalf : (s : State) → IsHalf s → Every IsHalf (try_shm a s)
  unfolding try_shm
  try_shm-IsHalf s h =
      if-Every IsHalf (a.wants_shm && (a.has_shm && a.shmget (image_bytes a s))) _ (some s)
        (attach a.shmat) h
    where
      attach :
          (o : Option ℕ)
          → Every IsHalf (elim o [
            | none ↦ none
            | some address ↦
                if a.shm_image
                then some (record s {
                  image_data = block (image_bytes a s) address;
                  has_image = true;
                  use_shm = true;
                })
                else some (record s { image_data = none; has_image = false })
          ])
      attach none = tt
      attach (some address) =
          if-Every IsHalf a.shm_image _ _ (with_image s _ true true h)
            (with_image s none false s.use_shm h)

  make_store-Halves : (s : State) → IsHalf s → Halves (make_store a s)
  unfolding make_store Halves
  make_store-Halves s h = go (try_shm a s) (try_shm-IsHalf s h)
    where
      go :
          (r : Option State)
          → Every IsHalf r
          → Halves (elim r [
            | none ↦ (s, crashed)
            | some t ↦ if t.use_shm then make_framebuffer a t else make_plain_image a t
          ])
      go none e = λ e. has_crashed e
      go (some t) e =
          if-Holds Halves t.use_shm _ _ (λ z. make_framebuffer-Halves t e)
            (λ z. make_plain_image-Halves t e)

  create_window-Halves :
      (width height : ℕ) (s : State)
      → s.has_display ≡ true
      → s.has_window ≡ false
      → s.fb ≡ none
      → a.creates_window ≡ true
      → Halves (create_window a width height s)
  unfolding create_window choose_visual Halves
  create_window-Halves width height s display no_window no_fb creates =
      if-Holds Halves (not s.has_display) _ _ (λ h. absurd (false≢true (sym (ap not display) ∙ h)))
        (λ z.
          if-Holds Halves s.has_window _ _ (λ h. absurd (false≢true (sym no_window ∙ h)))
            (λ z.
              if-Holds Halves (not a.creates_window) _ _
                (λ h. absurd (false≢true (sym (ap not creates) ∙ h)))
                (λ z.
                  make_store-Halves (record (choose_visual a width height s) { has_window = true })
                    (record { has_display = display; has_window = refl; no_fb = no_fb }))))

-- With the window there, create_window does nothing.
create_window-IsHalf :
    (a : Answers) (width height : ℕ) (s : State)
    → IsHalf s
    → create_window a width height s ≡ (s, succeeded)
unfolding create_window
create_window-IsHalf a width height s h =
    if-Holds (λ r. r ≡ (s, succeeded)) (not s.has_display) _ _
      (λ e. absurd (false≢true (sym (ap not h.has_display) ∙ e)))
      (λ z.
        if-Holds (λ r. r ≡ (s, succeeded)) s.has_window _ _ (λ e. refl)
          (λ e. absurd (false≢true (sym e ∙ h.has_window))))

-- Where map_framebuffer fails behind XCreateWindow, on a context without a framebuffer, the next call
-- reports success, whatever the system answers then: it changes nothing in the context, and gives
-- the compositor no framebuffer, but its size in bytes.
pub map_framebuffer-again :
    (a a' : Answers) (b : Backend) (s : State)
    → s.has_display ≡ true
    → s.has_window ≡ false
    → s.fb ≡ none
    → a.creates_window ≡ true
    → (map_framebuffer a b s).2 ≡ failed
    → let s' = (map_framebuffer a b s).1 in
      map_framebuffer a' b s' ≡ (point_at none b, s', succeeded)
unfolding map_framebuffer Halves
map_framebuffer-again a a' b s display no_window no_fb creates h =
    again (create_window a b.width b.height s)
      (create_window-Halves a b.width b.height s display no_window no_fb creates) h
  where
    again :
        (r : State × Outcome)
        → Halves r
        → (map_window b r).2 ≡ failed
        → map_window b (create_window a' b.width b.height (map_window b r).1)
          ≡ (point_at none b, (map_window b r).1, succeeded)
    again (t, succeeded) halves h = has_succeeded h
    again (t, failed) halves h =
        let half = halves refl in
        ap (map_window b) (create_window-IsHalf a' b.width b.height t half)
        ∙ ap (λ fb. (point_at fb b, t, succeeded)) half.no_fb
    again (t, crashed) halves h = has_crashed h
