-- ===== src/TestApps/Config.antt =====
-- The verdict of src/TestApps/config_client_test.cpp.
use mathlib.Core.Bool.{false≢true}
use serena_de.CString.{text, equal}
use serena_de.CString.Equality.{equal_iff}
use serena_de.Prelude.{ℕ, ◌≡◌, ap, ◌↔◌, Bool, true, not, if◌then◌else◌, arith}
use serena_de.Prelude.Int.{ℤ, pos, negsuc, pos_part, neg_part}
use serena_de.TestApps.{ConfigApi, equal_ℤ, read_key, write_key, read_number, config_client_test}

equal_ℤ_iff : (a b : ℤ) → (equal_ℤ a b ≡ true) ↔ (a ≡ b)
equal_ℤ_iff (pos a) (pos b) = (λ h. ap pos (ground arith), λ e. ground (arith, ap pos_part e))
equal_ℤ_iff (pos a) (negsuc b) =
    (λ h. absurd (false≢true h), λ e. absurd (omega (arith, ap neg_part e)))
equal_ℤ_iff (negsuc a) (pos b) =
    (λ h. absurd (false≢true h), λ e. absurd (omega (arith, ap neg_part e)))
equal_ℤ_iff (negsuc a) (negsuc b) =
    (λ h. ap negsuc (ground arith), λ e. ground (arith, ap neg_part e))

-- The three checks, one after the other.
checks :
    (a b c : Bool)
    → (◌≡◌ {A = ℕ} (if not a then 1 else if not b then 1 else if not c then 1 else 0) 0)
      ↔ ((a ≡ true) × (b ≡ true) × (c ≡ true))
checks a b c = ground arith

-- config_client_test exits with 0 exactly when the key reads as the fallback, before and after it is
-- written, and the number reads as its fallback too, each read and the write being made on what the
-- calls before it have left of the server.
pub config_client_test_iff :
    (api : ConfigApi) (s : api.State)
    → let (value, s₁) = read_key api s in
      let (value_after_write, s₂) = read_key api (write_key api s₁) in
      (config_client_test api s ≡ 0) ↔ (
        (value ≡ text "fallback")
        × (value_after_write ≡ text "fallback")
        × ((read_number api s₂).0 ≡ negsuc 41))
unfolding config_client_test
config_client_test_iff api s =
    let (value, s₁) = read_key api s in
    let (value_after_write, s₂) = read_key api (write_key api s₁) in
    let (number, _) = read_number api s₂ in
    let (to, from) =
      checks (equal value (text "fallback")) (equal value_after_write (text "fallback"))
        (equal_ℤ number (negsuc 41)) in
    (
      λ h.
          let (a, b, c) = to h in
          (
            (equal_iff value (text "fallback")).0 a,
            (equal_iff value_after_write (text "fallback")).0 b,
            (equal_ℤ_iff number (negsuc 41)).0 c,
          ),
      λ h.
          let (a, b, c) = h in
          from (
            (equal_iff value (text "fallback")).1 a,
            (equal_iff value_after_write (text "fallback")).1 b,
            (equal_ℤ_iff number (negsuc 41)).1 c,
          ),
    )
