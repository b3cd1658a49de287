-- ===== src/Window/Creation/Ready.antt =====
-- The context behind create_window of src/WindowServerX11/X11Context.cpp.
use mathlib.Core.Bool.{false≢true}
use mathlib.Core.Path.{ap₂}
use serena_de.Prelude.{
  ℕ, ◌*◌, ◌/◌, ◌≡◌, refl, sym, ap, ◌∙◌, not, Bool, true, false, Option, none, some, ◌&&◌, Every,
  if-Every, arith, if◌then◌else◌,
}
use serena_de.Window.Creation.{
  block, Answers, State, succeeded, failed, crashed, image_bytes, choose_visual, try_shm, paint,
  make_framebuffer, make_plain_image, make_store, create_window,
}
use serena_de.Window.Creation.Leads.{
  IsStored, IsReady, Leads, fails, crashes, if-Leads, Option-Leads,
}

module _ (a : Answers) (width height : ℕ) where
  make_framebuffer-Leads :
      (s : State) → IsStored width height s → Leads width height (make_framebuffer a s)
  unfolding make_framebuffer paint
  make_framebuffer-Leads s i =
      if-Leads width height s.zero_copy _ _
        (λ direct h. record {
          stored = record {
            has_window = i.has_window;
            has_image = i.has_image;
            width_is = i.width_is;
            height_is = i.height_is;
            image = i.image;
            image_is = i.image_is;
            image_size = i.image_size;
            copies = λ z. i.copies direct;
          };
          fb = i.image;
          fb_is = i.image_is;
          fb_size = i.image_size ∙ ap (λ (d : ℕ). width * height * (d / 8)) (i.copies direct);
          shared = λ z. refl;
          viewport = ap₂ (λ (w v : ℕ). some (w, v)) i.width_is i.height_is;
          is_painted = refl;
        })
        (λ converted.
          Option-Leads width height (a.fb_malloc (s.width * s.height * 4)) _
            (λ address. paint a (record s { fb = block (s.width * s.height * 4) address }))
            (λ h. fails h)
            (λ address h. record {
              stored = record {
                has_window = i.has_window;
                has_image = i.has_image;
                width_is = i.width_is;
                height_is = i.height_is;
                image = i.image;
                image_is = i.image_is;
                image_size = i.image_size;
                copies = i.copies;
              };
              fb = record { address = address; size = s.width * s.height * 4 };
              fb_is = refl;
              fb_size = ap₂ (λ (w v : ℕ). w * v * 4) i.width_is i.height_is;
              shared = λ z. absurd (false≢true (sym converted ∙ z));
              viewport = ap₂ (λ (w v : ℕ). some (w, v)) i.width_is i.height_is;
              is_painted = refl;
            }))

  -- What the two ways to an image start from.
  record IsOpen (s : State) : Type 0 where
    has_window : s.has_window ≡ true
    width_is : s.width ≡ width
    height_is : s.height ≡ height
    copies : s.zero_copy ≡ true → s.depth ≡ 32

  with_image :
      (s : State) (address : ℕ) (shm : Bool)
      → IsOpen s
      → IsStored width height (record s {
        image_data = some (record { address = address; size = image_bytes a s });
        has_image = true;
        use_shm = shm;
      })
  with_image s address shm o = record {
    has_window = o.has_window;
    has_image = refl;
    width_is = o.width_is;
    height_is = o.height_is;
    image = record { address = address; size = image_bytes a s };
    image_is = refl;
    image_size = ap₂ (λ (w v : ℕ). w * v * (s.depth / 8)) o.width_is o.height_is;
    copies = o.copies;
  }

  make_plain_image-Leads : (s : State) → IsOpen s → Leads width height (make_plain_image a s)
  unfolding make_plain_image
  make_plain_image-Leads s o =
      Option-Leads width height (a.image_malloc (image_bytes a s)) _
        (λ address.
          if a.plain_image
          then make_framebuffer a
              (record s { image_data = block (image_bytes a s) address; has_image = true })
          else (
            record s { image_data = block (image_bytes a s) address; has_image = false },
            failed,
          ))
        (λ h. fails h)
        (λ address.
          if-Leads width height a.plain_image _ _
            (λ made. make_framebuffer-Leads _ (with_image s address s.use_shm o))
            (λ refused h. fails h))

  -- Either the image is in shared memory, or the plain one is still to be made.
  ShmTried : State → Type 0
  ShmTried s = (s.use_shm ≡ true → IsStored width height s) × (s.use_shm ≡ false → IsOpen s)

  try_shm-ShmTried : (s : State) → s.use_shm ≡ false → IsOpen s → Every ShmTried (try_shm a s)
  unfolding try_shm ShmTried
  try_shm-ShmTried s plain o =
      if-Every ShmTried (a.wants_shm && (a.has_shm && a.shmget (image_bytes a s))) _ (some s)
        (attach a.shmat) ((λ shared. absurd (false≢true (sym plain ∙ shared))), (λ z. o))
    where
      attach :
          (o' : Option ℕ)
          → Every ShmTried (elim o' [
            | none ↦ none
            | some address ↦
                if a.shm_image
                then some (record s {
                  image_data = block (image_bytes a s) address;
                  has_image = true;
                  use_shm = true;
                })
                else some (record s { image_data = none; has_image = false })
          ])
      attach none = tt
      attach (some address) =
          if-Every ShmTried a.shm_image _ _
            ((λ z. with_image s address true o), (λ z. absurd (false≢true (sym z))))
            (
              (λ shared. absurd (false≢true (sym plain ∙ shared))),
              (λ z. record {
                has_window = o.has_window;
                width_is = o.width_is;
                height_is = o.height_is;
                copies = o.copies;
              }),
            )

  make_store-Leads :
      (s : State) → s.use_shm ≡ false → IsOpen s → Leads width height (make_store a s)
  unfolding make_store ShmTried
  make_store-Leads s plain o = go (try_shm a s) (try_shm-ShmTried s plain o)
    where
      go :
          (r : Option State)
          → Every ShmTried r
          → Leads width height (elim r [
            | none ↦ (s, crashed)
            | some t ↦ if t.use_shm then make_framebuffer a t else make_plain_image a t
          ])
      go none h = λ e. crashes e
      go (some t) h =
          if-Leads width height t.use_shm _ _ (λ z. make_framebuffer-Leads t (h.0 z))
            (λ z. make_plain_image-Leads t (h.1 z))

  -- A context that has a display and no window and does not share memory, for which create_window
  -- succeeds, is ready: the window is there; the image store has the bytes of every pixel at the
  -- screen's depth; the framebuffer has four bytes for every pixel, and is the image store itself
  -- where flushing does not convert, which only a depth of 32 allows; the input mapper knows the size;
  -- and the first picture is put.
  pub create_window-IsReady :
      (s : State)
      → s.has_display ≡ true
      → s.has_window ≡ false
      → s.use_shm ≡ false
      → (create_window a width height s).1 ≡ succeeded
      → IsReady width height (create_window a width height s).0
  unfolding create_window choose_visual
  create_window-IsReady s display no_window plain =
      if-Leads width height (not s.has_display) _ _
        (λ h. absurd (false≢true (sym (ap not display) ∙ h)))
        (λ z.
          if-Leads width height s.has_window _ _ (λ h. absurd (false≢true (sym no_window ∙ h)))
            (λ z.
              if-Leads width height (not a.creates_window) _ _ (λ z h. fails h)
                (λ z.
                  make_store-Leads (record (choose_visual a width height s) { has_window = true })
                    plain
                    (record {
                      has_window = refl;
                      width_is = refl;
                      height_is = refl;
                      copies = λ both. ground arith;
                    }))))
