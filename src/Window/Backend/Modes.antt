-- ===== src/Window/Backend/Modes.antt =====
-- set_head_mode_setting of src/WindowServerX11/X11ScreenBackend.cpp.
use mathlib.Core.Bool.{false≢true}
use serena_de.Prelude.{◌*◌, ◌<◌, ◌^◌, ◌≡◌, true, refl, sym, ◌∙◌, Bool-cases, inl, inr}
use serena_de.Prelude.Int.{pos, int32-pos, eq_ℤ, eq_ℤ_sound}
use serena_de.Window.Backend.{ModeSetting, Backend, packed_stride, stride_of, set_head_mode_setting}

-- The fields behind a mode that is taken, where the packed stride is an `int`.
pub set_head_mode_setting-taken :
    (mode : ModeSetting) (b : Backend)
    → mode.horizontal_active * 4 < 2 ^ 31
    → (set_head_mode_setting mode b).1 ≡ true
    → let b' = (set_head_mode_setting mode b).0 in
      (b'.width ≡ mode.horizontal_active)
      × (b'.height ≡ mode.vertical_active)
      × (b'.pitch ≡ pos (mode.horizontal_active * 4))
unfolding set_head_mode_setting
set_head_mode_setting-taken mode b fits h =
    elim (Bool-cases (eq_ℤ (packed_stride mode) (stride_of mode))) [
      | inl same ↦ rw same (
        refl,
        refl,
        sym (eq_ℤ_sound (packed_stride mode) (stride_of mode) same)
            ∙ int32-pos (mode.horizontal_active * 4) fits,
      )
      | inr differs ↦ absurd (false≢true (rw differs at h))
    ]
