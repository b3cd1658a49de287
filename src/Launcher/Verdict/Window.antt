-- ===== src/Launcher/Verdict/Window.antt =====
-- The check for a window at the end of main, src/Launcher/main.cpp.
use mathlib.Core.Bool.{false≢true}
use serena_de.Launcher.Verdict.{
  Shot, missing, unreadable, image, Doubles, Polled, fraction_of, poll, take_screenshots, Golden,
  window_status, exit_status,
}
use serena_de.PngCompare.Background.{Fraction, non_background_fraction}
use serena_de.PngCompare.{Bitmap}
use serena_de.Prelude.{
  ℕ, zero, suc, ◌+◌, ◌*◌, ◌<◌, ◌≤◌, ◌≡◌, refl, ap, Option, none, some, ◌⊎◌, ◌↔◌, inl, inr, Bool,
  true, false, not, if◌then◌else◌, arith, Bool-cases,
}

-- How the two comparisons stand to each other on numbers: a quotient with a positive denominator is
-- one, and the smallest fraction that is expected is one.
pub record IsOrdered (D : Doubles) (expect_window_min : D.Double) : Type 0 where
  pub total :
      (f : Fraction)
      → 0 < f.denominator
      → D.below (D.quotient f) expect_window_min ≡ not (D.at_least (D.quotient f) expect_window_min)
  pub nonneg : (f : Fraction) → 0 < f.denominator → D.below (D.quotient f) D.zero_point ≡ false
  pub unset : D.below D.minus_one D.zero_point ≡ true

flipped : (b : Bool) → ◌≡◌ {A = ℕ} (if not b then 1 else 0) (if b then 0 else 1)
flipped true = refl
flipped false = refl

not_enough : ¬ (some false ≡ some true)
not_enough e = false≢true (ap (λ o. elim o [ none ↦ false | some b ↦ b ]) e)

Shot-cases : (s : Shot) → (s ≡ missing) ⊎ (s ≡ unreadable) ⊎ ((bmp : Bitmap) × (s ≡ image bmp))
Shot-cases missing = inl refl
Shot-cases unreadable = inr (inl refl)
Shot-cases (image bmp) = inr (inr (bmp, refl))

module _ (D : Doubles) (expect_window_min : D.Double) (shot : ℕ → Shot) where
  -- Whether the image that a request leaves shows enough; none if it leaves no image.
  abbrev pub answer : Shot → Option Bool
  answer missing = none
  answer unreadable = none
  answer (image bmp) = some (D.at_least (fraction_of D bmp) expect_window_min)

  -- One of the requests from `i` on, among the first `left + 1`, shows enough, and each before it
  -- leaves an image that does not.
  abbrev pub Succeeds : ℕ → ℕ → Type 0
  Succeeds zero i = answer (shot i) ≡ some true
  Succeeds (suc left) i =
      (answer (shot i) ≡ some true) ⊎ ((answer (shot i) ≡ some false) × Succeeds left (i + 1))

  poll-requests :
      (left i : ℕ) (f : D.Double) → (poll D expect_window_min shot left i f).requests ≤ left + 1 + i
  unfolding poll
  poll-requests zero i f = elim (Shot-cases (shot i)) [
    | inl e ↦ rw (e, poll) (omega arith)
    | inr (inl e) ↦ rw (e, poll) (omega arith)
    | inr (inr (bmp, e)) ↦ rw (e, poll) (omega arith)
  ]
  poll-requests (suc left) i f = elim (Shot-cases (shot i)) [
    | inl e ↦ rw (e, poll) (omega arith)
    | inr (inl e) ↦ rw (e, poll) (omega arith)
    | inr (inr (bmp, e)) ↦
        let later = poll-requests left (i + 1) (fraction_of D bmp) in
        elim (Bool-cases (D.at_least (fraction_of D bmp) expect_window_min)) [
          | inl enough ↦ rw (e, poll) (rw enough (omega arith))
          | inr few ↦ rw (e, poll) (rw few (omega arith))
        ]
  ]

  module _ (ordered : IsOrdered D expect_window_min)
      (has_pixels : (i : ℕ) (bmp : Bitmap) → shot i ≡ image bmp → 0 < bmp.width * bmp.height) where
    abbrev status : Polled D → ℕ
    status p =
        if not p.got_screenshot then 1 else window_status D expect_window_min p.window_fraction

    image_status :
        (i : ℕ) (bmp : Bitmap)
        → shot i ≡ image bmp
        → window_status D expect_window_min (fraction_of D bmp)
          ≡ (if D.at_least (fraction_of D bmp) expect_window_min then 0 else 1)
    image_status i bmp e =
        let f = non_background_fraction bmp 24 in
        let area : f.denominator ≡ bmp.width * bmp.height =
          unfold non_background_fraction in refl in
        let positive : 0 < f.denominator = rw area (has_pixels i bmp e) in
        rw (ordered.nonneg f positive, ordered.total f positive)
          (flipped (D.at_least (fraction_of D bmp) expect_window_min))

    poll-status :
        (left i : ℕ) (f : D.Double)
        → window_status D expect_window_min f ≡ 1
        → (status (poll D expect_window_min shot left i f) ≡ 0) ↔ Succeeds left i
    unfolding poll
    poll-status zero i f low = elim (Shot-cases (shot i)) [
      | inl e ↦ rw (e, poll, answer) (ground arith)
      | inr (inl e) ↦ rw (e, poll, answer) (rw low (ground arith))
      | inr (inr (bmp, e)) ↦ rw (e, poll, answer) (rw (image_status i bmp e) (ground arith))
    ]
    poll-status (suc left) i f low = elim (Shot-cases (shot i)) [
      | inl e ↦ rw (e, poll, answer) (ground arith)
      | inr (inl e) ↦ rw (e, poll, answer) (rw low (ground arith))
      | inr (inr (bmp, e)) ↦ elim (Bool-cases (D.at_least (fraction_of D bmp) expect_window_min)) [
        | inl enough ↦
            rw (e, poll, answer) (rw enough (rw (image_status i bmp e) (rw enough (ground arith))))
        | inr few ↦
            let later =
              poll-status left (i + 1) (fraction_of D bmp)
                (rw (image_status i bmp e) (rw few refl)) in
            rw (e, poll, answer)
              (rw few (
                λ h. inr (refl, later.0 h),
                λ s. elim s [ inl wrong ↦ absurd (not_enough wrong) | inr (_, t) ↦ later.1 t ],
              ))
      ]
    ]

-- Where a window is expected, the launcher leaves with status 0 exactly when one of the first ten
-- screenshots shows at least the expected fraction off the background and each one before it could be
-- read and showed less; and it makes at most ten requests. The images have a pixel, and the
-- comparisons of doubles are those of numbers.
pub exit_status-Succeeds :
    (D : Doubles) (expect_window_min : D.Double) (shot : ℕ → Shot) (g : Golden)
    → D.at_least expect_window_min D.zero_point ≡ true
    → IsOrdered D expect_window_min
    → ((i : ℕ) (bmp : Bitmap) → shot i ≡ image bmp → 0 < bmp.width * bmp.height)
    → let p = take_screenshots D expect_window_min shot in
      ((exit_status D expect_window_min g p ≡ 0) ↔ Succeeds D expect_window_min shot 9 0)
      × (p.requests ≤ 10)
unfolding exit_status take_screenshots
exit_status-Succeeds D expect_window_min shot g expects ordered has_pixels =
    let unset : window_status D expect_window_min D.minus_one ≡ 1 = rw ordered.unset refl in
    rw expects (
      poll-status D expect_window_min shot ordered has_pixels 9 0 D.minus_one unset,
      poll-requests D expect_window_min shot 9 0 D.minus_one,
    )
