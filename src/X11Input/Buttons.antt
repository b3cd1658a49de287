-- ===== src/X11Input/Buttons.antt =====
-- `s_buttons` of src/WindowServerX11/X11InputMap.cpp.
use serena_de.Prelude.{
  ne→==_false, ltb→lt, ℕ, ◌^◌, ◌<◌, ◌≡◌, ◌≢◌, refl, ◌∙◌, ◌⊎◌, inl, inr, Bool, true, false, not,
  ◌&&◌, ◌||◌, List, [], ◌∷◌, ltb, ◌==◌, if◌then◌else◌, arith, all_below, all_below_sound,
}
use native.Mathlib.Decide.{ℕ_discrete}
use serena_de.X11Input.{
  RawX11Type, motion, button_down, button_up, key_down, key_up, RawX11Event, KeyApi, Mapper,
  has_bits, button_bit, set_button, on_button, dispatch, on_raw, on_raws,
}

-- The five tracked buttons, their X numbers and their bits in a mouse packet.
pub data MouseButton : Type 0 where
  primary secondary middle backward forward : MouseButton

abbrev pub number : MouseButton → ℕ
number primary = 1
number secondary = 3
number middle = 2
number backward = 8
number forward = 9

abbrev pub place : MouseButton → ℕ
place primary = 0
place secondary = 1
place middle = 2
place backward = 3
place forward = 4

abbrev pub mask : MouseButton → ℕ
mask m = 2 ^ place m

-- Whether the button is down after one more event.
abbrev pub held_after : ℕ → RawX11Type → ℕ → Bool → Bool
held_after n button_down b was = if b == n then true else was
held_after n button_up b was = if b == n then false else was
held_after n _ b was = was

-- Whether the last press or release of X button `n` was a press.
abbrev pub held : ℕ → List RawX11Event → Bool → Bool
held n [] was = was
held n (re ∷ res) was = held n res (held_after n re.type re.button was)

same : Bool → Bool → Bool
same true b = b
same false b = not b

same_eq : (a b : Bool) → same a b ≡ true → a ≡ b
unfolding same
same_eq a b h = ground arith

-- Writing bit `i` of a set of buttons leaves a set of buttons, in which bit `j` is as it should be.
writes : Bool → ℕ → ℕ → ℕ → Bool
writes press s i j =
    ltb (set_button press (2 ^ i) s) 32
    && same (has_bits (set_button press (2 ^ i) s) (2 ^ j))
        (if i == j then press else has_bits s (2 ^ j))

writes_table :
    (press : Bool)
    → all_below 32 (λ s. all_below 5 (λ i. all_below 5 (λ j. writes press s i j))) ≡ true
unfolding writes set_button all_below same
writes_table true = refl
writes_table false = refl

writes_sound : (press : Bool) (s i j : ℕ) → s < 32 → i < 5 → j < 5 → writes press s i j ≡ true
writes_sound press s i j hs hi hj =
    all_below_sound 5 (writes press s i) j
      (all_below_sound 5 (λ k. all_below 5 (writes press s k)) i
        (all_below_sound 32 (λ t. all_below 5 (λ k. all_below 5 (writes press t k))) s
          (writes_table press) hs)
        hi)
      hj

both_true : (a b : Bool) → (a && b) ≡ true → (a ≡ true) × (b ≡ true)
both_true a b h = ground arith

set_button-lt : (press : Bool) (s i : ℕ) → s < 32 → i < 5 → set_button press (2 ^ i) s < 32
unfolding writes
set_button-lt press s i hs hi =
    ltb→lt _ _ (both_true _ _ (writes_sound press s i 0 hs hi (omega arith))).0

set_button-has_bits :
    (press : Bool) (s i j : ℕ)
    → s < 32
    → i < 5
    → j < 5
    → has_bits (set_button press (2 ^ i) s) (2 ^ j) ≡ (if i == j then press else has_bits s (2 ^ j))
unfolding writes
set_button-has_bits press s i j hs hi hj =
    same_eq _ _ (both_true _ _ (writes_sound press s i j hs hi hj)).1

place-lt : (m : MouseButton) → place m < 5
place-lt primary = omega arith
place-lt secondary = omega arith
place-lt middle = omega arith
place-lt backward = omega arith
place-lt forward = omega arith

-- The buttons that the mapper tracks, and no other, have a bit.
abbrev Tracked : ℕ → Type 0
Tracked b =
    ((button_bit b ≡ 0) × ((m : MouseButton) → b ≢ number m))
    ⊎ ((m : MouseButton) × (b ≡ number m) × (button_bit b ≡ mask m) × ((b == 4 || b == 5) ≡ false))

button_bit-Tracked : (b : ℕ) → Tracked b
button_bit-Tracked b = elim (ℕ_discrete b 1) [
  | yes e ↦ inr (primary, e, unfold button_bit in rw e, rw e)
  | no n1 ↦ elim (ℕ_discrete b 3) [
    | yes e ↦ inr (secondary, e, unfold button_bit in rw e, rw e)
    | no n3 ↦ elim (ℕ_discrete b 2) [
      | yes e ↦ inr (middle, e, unfold button_bit in rw e, rw e)
      | no n2 ↦ elim (ℕ_discrete b 8) [
        | yes e ↦ inr (backward, e, unfold button_bit in rw e, rw e)
        | no n8 ↦ elim (ℕ_discrete b 9) [
          | yes e ↦ inr (forward, e, unfold button_bit in rw e, rw e)
          | no n9 ↦ inl (unfold button_bit in ground arith, others n1 n3 n2 n8 n9)
        ]
      ]
    ]
  ]
]
  where
    others : b ≢ 1 → b ≢ 3 → b ≢ 2 → b ≢ 8 → b ≢ 9 → (m : MouseButton) → b ≢ number m
    others n1 n3 n2 n8 n9 primary = n1
    others n1 n3 n2 n8 n9 secondary = n3
    others n1 n3 n2 n8 n9 middle = n2
    others n1 n3 n2 n8 n9 backward = n8
    others n1 n3 n2 n8 n9 forward = n9

place-number : (k m : MouseButton) → (place k == place m) ≡ (number k == number m)
place-number primary m = ground arith
place-number secondary m = ground arith
place-number middle m = ground arith
place-number backward m = ground arith
place-number forward m = ground arith

mask-ne-zero : (m : MouseButton) → (mask m == 0) ≡ false
mask-ne-zero primary = refl
mask-ne-zero secondary = refl
mask-ne-zero middle = refl
mask-ne-zero backward = refl
mask-ne-zero forward = refl

module _ (K : Type 0) (press : Bool) (re : RawX11Event) (s : Mapper) where
  abbrev buttons_after : ℕ
  buttons_after = (on_button {K = K} press re s).0.buttons

  untracked : button_bit re.button ≡ 0 → buttons_after ≡ s.buttons
  unfolding on_button
  untracked z = ground arith

  tracked :
      (m : MouseButton)
      → button_bit re.button ≡ mask m
      → (re.button == 4 || re.button == 5) ≡ false
      → buttons_after ≡ set_button press (mask m) s.buttons
  unfolding on_button
  tracked m e wheel = ground (arith, mask-ne-zero m)

  -- A press or release of a button moves its own bit, and no other.
  on_button-buttons :
      (m : MouseButton)
      → s.buttons < 32
      → (buttons_after < 32)
        × (has_bits buttons_after (mask m)
            ≡ (if re.button == number m then press else has_bits s.buttons (mask m)))
  on_button-buttons m h = elim (button_bit-Tracked re.button) [
    | inl (z, other) ↦ rw (untracked z, ne→==_false re.button (number m) (other m)) (h, refl)
    | inr (k, e, bit, wheel) ↦
        rw (tracked k bit wheel, e)
          (
            set_button-lt press s.buttons (place k) h (place-lt k),
            set_button-has_bits press s.buttons (place k) (place m) h (place-lt k) (place-lt m)
                ∙ rw (place-number k m),
          )
  ]

-- What one event does to the set of buttons.
module _ (api : KeyApi) (re : RawX11Event) (s : Mapper) (m : MouseButton) (h : s.buttons < 32) where
  dispatch-buttons :
      (t : RawX11Type)
      → let b = (dispatch api t re s).0.buttons in
        (b < 32)
        × (has_bits b (mask m) ≡ held_after (number m) t re.button (has_bits s.buttons (mask m)))
  unfolding dispatch
  dispatch-buttons motion = (h, refl)
  dispatch-buttons button_down = on_button-buttons api.KeyCode true re s m h
  dispatch-buttons button_up = on_button-buttons api.KeyCode false re s m h
  dispatch-buttons key_down = (h, refl)
  dispatch-buttons key_up = (h, refl)

  on_raw-buttons :
      let b = (on_raw api re s).0.buttons in
      (b < 32)
      × (has_bits b (mask m)
          ≡ held_after (number m) re.type re.button (has_bits s.buttons (mask m)))
  unfolding on_raw
  on_raw-buttons = dispatch-buttons re.type

-- From a set of buttons that has no other bits than theirs, after any events, a bit of `s_buttons` is set exactly when the last press or release of its
-- button was a press (or, with none, when it was set before), and all bits fit the byte `buttons`
-- of a packet.
pub on_raws-buttons :
    (api : KeyApi) (res : List RawX11Event) (s : Mapper) (m : MouseButton)
    → s.buttons < 32
    → let b = (on_raws api res s).0.buttons in
      (b < 32) × (has_bits b (mask m) ≡ held (number m) res (has_bits s.buttons (mask m)))
unfolding on_raws
on_raws-buttons api [] s m h = (h, refl)
on_raws-buttons api (re ∷ res) s m h =
    let (bound, bit) = on_raw-buttons api re s m h in
    rw (← bit) (on_raws-buttons api res (on_raw api re s).0 m bound)
