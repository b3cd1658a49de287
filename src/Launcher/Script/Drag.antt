-- ===== src/Launcher/Script/Drag.antt =====
-- mouse_drag of src/Launcher/main.cpp.
use mathlib.Core.List.{append_assoc}
use mathlib.Core.Path.{ap₂}
use serena_de.Launcher.Script.{
  ScriptApi, InputChannels, Effect, mouse_packet, write_mouse_packet, along, drag_step, drag_steps,
  step_count, mouse_drag,
}
use serena_de.Prelude.{
  ℕ, zero, suc, ◌+◌, ◌-◌, ◌*◌, ◌/◌, ◌<◌, ◌≡◌, refl, ap, ◌∙◌, false, List, [], ◌∷◌, ◌++◌, arith,
  range_from,
}
use serena_de.Prelude.Int.{ℤ, pos, negsuc, ◌+ℤ◌, ◌-ℤ◌, ◌*ℤ◌, ◌/ℤ◌, int32, int32-pos, int32-negsuc}

-- The values of a 32-bit `int`.
abbrev pub InInt : ℤ → Type 0
InInt (pos n) = n < 2147483648
InInt (negsuc n) = n < 2147483648

int32-InInt : (z : ℤ) → InInt z → int32 z ≡ z
int32-InInt (pos n) h = int32-pos n h
int32-InInt (negsuc n) h = int32-negsuc n h

mul-pos : (k n : ℕ) → pos k *ℤ pos n ≡ pos (k * n)
unfolding ◌*ℤ◌
mul-pos k n = ground arith

positive_mul : (k n : ℕ) → 0 < n → 0 < suc k * n
positive_mul k n h = grind arith

mul-negsuc : (k n : ℕ) → 0 < n → negsuc k *ℤ pos n ≡ negsuc (suc k * n - 1)
unfolding ◌*ℤ◌
mul-negsuc k n h = let p = positive_mul k n h in ground arith

mul-div : (k n : ℕ) → 0 < n → k * n / n ≡ k
mul-div k n h = grind arith

-- Multiplying by a positive number and dividing by it.
mul_div : (d : ℤ) (n : ℕ) → 0 < n → (d *ℤ pos n) /ℤ pos n ≡ d
unfolding ◌/ℤ◌
mul_div (pos k) n h = rw (mul-pos k n) (ap pos (mul-div k n h))
mul_div (negsuc k) n h =
    let p = positive_mul k n h in
    let q = mul-div (suc k) n h in
    let one : suc (suc k * n - 1) ≡ suc k * n = (omega arith) in
    rw (mul-negsuc k n h) (rw one (rw q (ground arith)))

add_sub : (a b : ℤ) → a +ℤ (b -ℤ a) ≡ b
unfolding ◌+ℤ◌ ◌-ℤ◌
add_sub (pos a) (pos b) = ground arith
add_sub (pos a) (negsuc b) = ground arith
add_sub (negsuc a) (pos b) = ground arith
add_sub (negsuc a) (negsuc b) = ground arith

-- No product or difference on the way wraps round.
pub record StaysInInt (a b : ℤ) (n : ℕ) : Type 0 where
  pub end : InInt b
  pub difference : InInt (b -ℤ a)
  pub product : InInt ((b -ℤ a) *ℤ pos n)

range_from-last : (start n : ℕ) → range_from start (suc n) ≡ range_from start n ++ (start + n) ∷ []
range_from-last start zero = grind arith
range_from-last start (suc n) =
    let shift : start + 1 + n ≡ start + suc n = (omega arith) in
    ap (◌∷◌ start)
      (range_from-last (start + 1) n ∙ ap (λ k. range_from (start + 1) n ++ k ∷ []) shift)

step_count-positive : (steps : ℤ) → 0 < step_count steps
step_count-positive (pos n) = ground arith
step_count-positive (negsuc n) = (omega arith)

-- The last step is at the end.
along-end : (a b : ℤ) (n : ℕ) → 0 < n → StaysInInt a b n → along a b n n ≡ b
along-end a b n h t = rw (int32-InInt (b -ℤ a) t.difference) (
    rw (int32-InInt ((b -ℤ a) *ℤ pos n) t.product)
      (rw (mul_div (b -ℤ a) n h) (rw (add_sub a b) (int32-InInt b t.end))))

module _ (api : ScriptApi) (ch : InputChannels) (x1 y1 x2 y2 : ℤ) where
  drag_steps-append :
      (n : ℕ) (is js : List ℕ)
      → drag_steps api ch x1 y1 x2 y2 n (is ++ js)
        ≡ drag_steps api ch x1 y1 x2 y2 n is ++ drag_steps api ch x1 y1 x2 y2 n js
  unfolding drag_steps write_mouse_packet
  drag_steps-append n [] js = refl
  drag_steps-append n (i ∷ is) js =
      ap (λ es. drag_step api ch x1 y1 x2 y2 n i ++ es) (drag_steps-append n is js)

  drag_steps-last :
      (n : ℕ)
      → 0 < n
      → StaysInInt x1 x2 n
      → StaysInInt y1 y2 n
      → drag_steps api ch x1 y1 x2 y2 n (range_from 1 n)
        ≡ drag_steps api ch x1 y1 x2 y2 n (range_from 1 (n - 1))
          ++ Effect.sleep (pos 15) ∷ Effect.mouse (mouse_packet ch x2 y2 api.left_button false) ∷ []
  unfolding drag_steps write_mouse_packet
  drag_steps-last zero h tx ty = absurd (omega arith)
  drag_steps-last (suc m) h tx ty =
      let one : 1 + m ≡ suc m = (omega arith) in
      let less : suc m - 1 ≡ m = (omega arith) in
      rw less (
        ap (drag_steps api ch x1 y1 x2 y2 (suc m))
          (range_from-last 1 m ∙ ap (λ k. range_from 1 m ++ k ∷ []) one)
        ∙ drag_steps-append (suc m) (range_from 1 m) (suc m ∷ [])
        ∙ ap₂
            (λ x y.
              drag_steps api ch x1 y1 x2 y2 (suc m) (range_from 1 m)
              ++ Effect.sleep (pos 15)
                ∷ Effect.mouse (mouse_packet ch x y api.left_button false)
                ∷ [])
            (along-end x1 x2 (suc m) h tx) (along-end y1 y2 (suc m) h ty))

  -- A drag puts the pointer at its start, presses the left button there, takes the steps before the
  -- last, and, where no `int` on the way wraps round, makes the last step to the very end of the drag
  -- with the button still down and lets go there. A step count below two is ten.
  pub mouse_drag-arrives :
      (steps : ℤ)
      → StaysInInt x1 x2 (step_count steps)
      → StaysInInt y1 y2 (step_count steps)
      → mouse_drag api ch x1 y1 x2 y2 steps
        ≡ Effect.mouse (mouse_packet ch x1 y1 0 false)
            ∷ Effect.sleep (pos 20)
            ∷ Effect.mouse (mouse_packet ch x1 y1 api.left_button false)
            ∷ drag_steps api ch x1 y1 x2 y2 (step_count steps) (range_from 1 (step_count steps - 1))
          ++ Effect.sleep (pos 15)
            ∷ Effect.mouse (mouse_packet ch x2 y2 api.left_button false)
            ∷ Effect.sleep (pos 20)
            ∷ Effect.mouse (mouse_packet ch x2 y2 0 false)
            ∷ []
  unfolding mouse_drag drag_steps write_mouse_packet
  mouse_drag-arrives steps tx ty =
      rw (drag_steps-last (step_count steps) (step_count-positive steps) tx ty, append_assoc) refl
