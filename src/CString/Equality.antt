-- ===== src/CString/Equality.antt =====
-- strcmp and strchr, as statements about the strings.
use serena_de.Prelude.{
  ==_iff, ==_refl, ne→==_false, ℕ, ◌≡◌, ◌↔◌, ◌≢◌, refl, ap, true, [], ◌∷◌, ◌++◌, Option, none, some,
  arith, ◌==◌, All, Bool-cases, inl, inr,
}
use serena_de.CString.{CString, equal, prepend, split_at}

pub equal_iff : (a b : CString) → (equal a b ≡ true) ↔ (a ≡ b)
unfolding equal
equal_iff (x ∷ a) (y ∷ b) = ground (arith, equal_iff a b)
equal_iff _ _ = ground arith

pub equal_refl : (a : CString) → equal a a ≡ true
equal_refl a = (equal_iff a a).1 refl

-- The two parts with the byte between them are the string, and the first has no such byte.
abbrev pub Splits : ℕ → CString → CString × CString → Type 0
Splits c s p = (s ≡ p.0 ++ c ∷ p.1) × All (λ x. x ≢ c) p.0

-- What a call of split_at says of its string.
abbrev Outcome : ℕ → CString → Option (CString × CString) → Type 0
Outcome c s none = All (λ x. x ≢ c) s
Outcome c s (some p) = Splits c s p

prepend-Outcome :
    (c x : ℕ) (s : CString) (r : Option (CString × CString))
    → x ≢ c
    → Outcome c s r
    → Outcome c (x ∷ s) (prepend x r)
unfolding prepend
prepend-Outcome c x s none ne h = (ne, h)
prepend-Outcome c x s (some (before, after)) ne h = (ap (◌∷◌ x) h.0, (ne, h.1))

split_at-Outcome : (c : ℕ) (s : CString) → Outcome c s (split_at c s)
unfolding split_at
split_at-Outcome c [] = tt
split_at-Outcome c (x ∷ s) = elim (Bool-cases (x == c)) [
  | inl e ↦ rw e (ap (λ (y : ℕ). y ∷ s) ((==_iff x c).0 e), tt)
  | inr e ↦ rw e (prepend-Outcome c x s (split_at c s) (ground arith) (split_at-Outcome c s))
]

pub split_at-Splits :
    (c : ℕ) (s : CString) (p : CString × CString) → split_at c s ≡ some p → Splits c s p
split_at-Splits c s p e = rw e at (split_at-Outcome c s)

-- The other way round: a string that is put together so is taken apart again.
pub split_at-append :
    (c : ℕ) (before after : CString)
    → All (λ x. x ≢ c) before
    → split_at c (before ++ c ∷ after) ≡ some (before, after)
unfolding split_at
split_at-append c [] after h = rw (==_refl c)
split_at-append c (x ∷ before) after h =
    rw (ne→==_false x c h.0, split_at-append c before after h.1)
