-- ===== src/CString/Search.antt =====
-- Where strchr and strrchr find a byte, and what a buffer without a NUL holds.
use serena_de.CString.{CString, c_string, split_at, split_last}
use serena_de.Prelude.{
  ℕ, ◌≡◌, ◌≢◌, refl, Bool, true, not, ◌&&◌, List, [], ◌∷◌, ◌++◌, none, some, ◌==◌, All, arith,
  ne→==_false, ==_refl,
}

abbrev pub Differs : ℕ → ℕ → Type 0
Differs c x = x ≢ c

pub split_at-none : (c : ℕ) (xs : CString) → All (Differs c) xs → split_at c xs ≡ none
unfolding split_at
split_at-none c [] h = refl
split_at-none c (x ∷ xs) h = rw (ne→==_false x c h.0, split_at-none c xs h.1) refl

split_last-none : (c : ℕ) (xs : CString) → All (Differs c) xs → split_last c xs ≡ none
unfolding split_last
split_last-none c [] h = refl
split_last-none c (x ∷ xs) h = rw (split_last-none c xs h.1, ne→==_false x c h.0) refl

pub split_last-append :
    (c : ℕ) (xs ys : CString) → All (Differs c) ys → split_last c (xs ++ c ∷ ys) ≡ some (xs, ys)
unfolding split_last
split_last-append c [] ys h = rw (split_last-none c ys h, ==_refl c) refl
split_last-append c (x ∷ xs) ys h = rw (split_last-append c xs ys h) refl

pub c_string-clean : (xs : List ℕ) → All (Differs 0) xs → c_string xs ≡ xs
unfolding c_string
c_string-clean [] h = refl
c_string-clean (x ∷ xs) h = rw (ne→==_false x 0 h.0, c_string-clean xs h.1) refl

-- The same as a test.
abbrev pub avoids : ℕ → CString → Bool
avoids c [] = true
avoids c (x ∷ xs) = not (x == c) && avoids c xs

pub avoids-All : (c : ℕ) (xs : CString) → avoids c xs ≡ true → All (Differs c) xs
avoids-All c [] h = tt
avoids-All c (x ∷ xs) h = (ground arith, avoids-All c xs (ground (arith, h)))
