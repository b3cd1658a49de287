-- ===== src/TestApps/Clicks.antt =====
-- The label of src/TestApps/resize_test_window.cpp.
use serena_de.CString.{CString, text, print_decimal}
use serena_de.Prelude.{
  ℕ, zero, suc, ◌+◌, ◌≡◌, refl, ap, ◌∙◌, true, [], ◌∷◌, ◌++◌, ◌==◌, if◌then◌else◌, arith,
}
use serena_de.TestApps.{running, on_click, click_times, resize_test_window}

-- The text for a number of clicks.
abbrev pub clicked : ℕ → CString
clicked n =
    text "Clicked " ++ (print_decimal n ++ (text " time" ++ (if n == 1 then [] else text "s")))

click_times-clicked :
    (n k : ℕ) (label : CString) → click_times (suc n) (k, label) ≡ (k + suc n, clicked (k + suc n))
unfolding click_times on_click
click_times-clicked zero k label = refl
click_times-clicked (suc n) k label =
    click_times-clicked n (k + 1) (clicked (k + 1)) ∙ ap (λ m. (m, clicked m)) (omega arith)

-- The window behind `n + 1` clicks: the label counts them, in the singular for one, and the button
-- keeps its first text.
pub resize_test_window-clicked :
    (n : ℕ)
    → resize_test_window true (suc n)
      ≡ running (record {
        window = record {
          text_of = text "Serenade Input Test";
          x = 100;
          y = 80;
          width = 300;
          height = 200;
        };
        widgets =
            record { text_of = clicked (suc n); x = 0; y = 40; width = 300; height = 20 }
            ∷ record { text_of = text "Clicked 0 times"; x = 105; y = 90; width = 90; height = 28 }
            ∷ [];
        is_visible = true;
      })
unfolding resize_test_window
resize_test_window-clicked n =
    let none_before : 0 + suc n ≡ suc n = omega arith in
    rw (resize_test_window, click_times-clicked n 0 [], none_before) refl
