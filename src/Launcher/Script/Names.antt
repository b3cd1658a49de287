-- ===== src/Launcher/Script/Names.antt =====
-- The one-byte names of key_code_for_name, src/Launcher/main.cpp.
use serena_de.CString.{CString, equal}
use serena_de.CString.Equality.{equal_iff}
use serena_de.Launcher.Script.{find_name, raise, key_name}
use serena_de.Prelude.{
  ℕ, ◌<◌, ◌≡◌, refl, Bool, true, false, ◌&&◌, ◌||◌, [], ◌∷◌, Option, none, some, leb, if◌then◌else◌,
  all_below, all_below_sound, ap,
}

abbrev pub is_alphanumeric : ℕ → Bool
is_alphanumeric c = leb b'0' c && leb c b'9' || leb b'A' c && leb c b'Z' || leb b'a' c && leb c b'z'

abbrev same : Option CString → Option CString → Bool
same none none = true
same (some a) (some b) = equal a b
same _ _ = false

same_sound : (a b : Option CString) → same a b ≡ true → a ≡ b
same_sound none none h = refl
same_sound (some a) (some b) h = ap some ((equal_iff a b).0 h)
same_sound none (some b) h = absurd (mathlib.Core.Bool.false≢true h)
same_sound (some a) none h = absurd (mathlib.Core.Bool.false≢true h)

abbrev expected : ℕ → Option CString
expected c = if is_alphanumeric c then some (raise c ∷ []) else none

abbrev is_expected : ℕ → Bool
is_expected c = same (key_name (c ∷ [])) (expected c)

key_name_table : all_below 256 is_expected ≡ true
unfolding key_name find_name equal all_below
key_name_table = refl

-- Of the names of one byte exactly the letters and the digits are keys; a small letter is the key of
-- its capital.
pub key_name_char :
    (c : ℕ)
    → c < 256
    → key_name (c ∷ []) ≡ (if is_alphanumeric c then some (raise c ∷ []) else none)
key_name_char c h = same_sound _ _ (all_below_sound 256 is_expected c key_name_table h)
