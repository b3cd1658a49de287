-- ===== src/Launcher/Proc/Fields.antt =====
-- The numbers of a stat line behind the state, and the tokens that parse_proc_stat takes of them.
use serena_de.CString.Decimal.{
  Starts, IsDigit, Ends, digits_onto-append, digits-Starts, All-IsDigit,
}
use serena_de.CString.Equality.{split_at-append}
use serena_de.CString.Search.{Differs, split_at-none}
use serena_de.CString.{CString, int_onto, digits_onto, is_digit}
use serena_de.Launcher.Proc.{skip_blanks, tokens}
use serena_de.Prelude.Int.{ℤ, pos, negsuc}
use mathlib.Core.Path.{ap₂}
use serena_de.Prelude.{
  subst, All-append, ℕ, zero, suc, ◌≡◌, refl, sym, ap, ◌∙◌, List, [], ◌∷◌, ◌++◌, All, All-map,
  arith, some, none, Option, get_elem?, ◌<◌, ◌⊎◌,
}

-- Each number behind a blank, and the end of the line.
abbrev pub fields : List ℤ → CString
fields [] = 10 ∷ []
fields (z ∷ zs) = b' ' ∷ int_onto (fields zs) z

abbrev pub suffixes : ℕ → List ℤ → List CString
suffixes zero zs = []
suffixes (suc room) [] = []
suffixes (suc room) (z ∷ zs) = int_onto (fields zs) z ∷ suffixes room zs

pub int_onto-append : (tail : CString) (z : ℤ) → int_onto tail z ≡ int_onto [] z ++ tail
unfolding int_onto
int_onto-append tail (pos n) = digits_onto-append 20 [] tail n
int_onto-append tail (negsuc n) = ap (λ r. b'-' ∷ r) (digits_onto-append 20 [] tail (suc n))

digits-no_blank : (v : ℕ) → All (Differs b' ') (digits_onto 20 [] v)
digits-no_blank v =
    All-map IsDigit (Differs b' ') (λ c h. omega arith) (digits_onto 20 [] v)
      (All-IsDigit 20 [] v tt)

int_onto-no_blank : (z : ℤ) → All (Differs b' ') (int_onto [] z)
unfolding int_onto
int_onto-no_blank (pos n) = digits-no_blank n
int_onto-no_blank (negsuc n) = (omega arith, digits-no_blank (suc n))

skip_blanks-other : (c : ℕ) (cs : CString) → Differs b' ' c → skip_blanks (c ∷ cs) ≡ c ∷ cs
unfolding skip_blanks
skip_blanks-other c cs h = ground arith

skip_blanks-blank : (cs : CString) → skip_blanks (b' ' ∷ cs) ≡ skip_blanks cs
unfolding skip_blanks
skip_blanks-blank cs = refl

abbrev pub Filled : {A : Type 0} → List A → Type 0
Filled [] = ⊥
Filled (c ∷ cs) = Unit

-- A token that a blank ends, and one that ends the line.
pub tokens-blank :
    (room : ℕ) (s rest : CString)
    → Filled s
    → All (Differs b' ') s
    → tokens (suc room) (b' ' ∷ (s ++ b' ' ∷ rest)) ≡ (s ++ b' ' ∷ rest) ∷ tokens room (b' ' ∷ rest)
unfolding tokens
tokens-blank room [] rest f h = absurd f
tokens-blank room (c ∷ cs) rest f h =
    rw
      (
        tokens,
        skip_blanks-blank (c ∷ (cs ++ b' ' ∷ rest)),
        skip_blanks-other c (cs ++ b' ' ∷ rest) h.0,
        split_at-append b' ' (c ∷ cs) rest h,
      )
      refl

tokens-last :
    (room : ℕ) (s : CString)
    → Filled s
    → All (Differs b' ') s
    → tokens (suc room) (b' ' ∷ s) ≡ s ∷ []
unfolding tokens
tokens-last room [] f h = absurd f
tokens-last room (c ∷ cs) f h =
    rw
      (
        tokens,
        skip_blanks-blank (c ∷ cs),
        skip_blanks-other c cs h.0,
        split_at-none b' ' (c ∷ cs) h,
      )
      refl

Filled-Starts : (s : CString) → Starts s → Filled s
Filled-Starts [] (c, cs, e, d) = absurd (subst Filled (sym e) tt)
Filled-Starts (x ∷ xs) h = tt

int_onto-Filled : (z : ℤ) → Filled (int_onto [] z)
unfolding int_onto
int_onto-Filled (pos n) = Filled-Starts (digits_onto 20 [] n) (digits-Starts [] n)
int_onto-Filled (negsuc n) = tt

int_onto-Filled_onto : (tail : CString) (z : ℤ) → Filled (int_onto tail z)
unfolding int_onto
int_onto-Filled_onto tail (pos n) = Filled-Starts (digits_onto 20 tail n) (digits-Starts tail n)
int_onto-Filled_onto tail (negsuc n) = tt

suffixes-nil : (room : ℕ) → suffixes room [] ≡ []
suffixes-nil zero = refl
suffixes-nil (suc room) = refl

tokens-zero : (s : CString) → tokens 0 s ≡ []
unfolding tokens
tokens-zero s = refl

-- At most `room` tokens, the i-th from the start of the i-th number on.
pub tokens-fields :
    (room : ℕ) (zs : List ℤ) → Filled zs → tokens room (fields zs) ≡ suffixes room zs
tokens-fields zero zs f = tokens-zero (fields zs)
tokens-fields (suc room) [] f = absurd f
tokens-fields (suc room) (z ∷ []) f =
    tokens-last room (int_onto (10 ∷ []) z) (int_onto-Filled_onto (10 ∷ []) z) (
      subst (All (Differs b' ')) (sym (int_onto-append (10 ∷ []) z))
        (All-append _ _ (10 ∷ []) (int_onto-no_blank z) (omega arith, tt)))
    ∙ ap (λ r. int_onto (10 ∷ []) z ∷ r) (sym (suffixes-nil room))
tokens-fields (suc room) (z ∷ w ∷ zs) f =
    ap (λ s. tokens (suc room) (b' ' ∷ s)) (int_onto-append (fields (w ∷ zs)) z)
    ∙ tokens-blank room (int_onto [] z) (int_onto (fields zs) w) (int_onto-Filled z)
        (int_onto-no_blank z)
    ∙ ap₂ (λ a b. a ∷ b) (sym (int_onto-append (fields (w ∷ zs)) z))
        (tokens-fields room (w ∷ zs) tt)

-- No number is a closing parenthesis or a NUL.

-- The bytes that no number, blank or line end is.
abbrev pub Outside : ℕ → Type 0
Outside d = (d < 10) ⊎ ((32 < d) × (d < b'-'))

digits-below : (d : ℕ) → d < b'-' → (v : ℕ) → All (Differs d) (digits_onto 20 [] v)
digits-below d o v =
    All-map IsDigit (Differs d) (λ c h. omega arith) (digits_onto 20 [] v) (All-IsDigit 20 [] v tt)

-- A printed number has no byte in front of the minus sign.
pub int_onto-below : (d : ℕ) → d < b'-' → (z : ℤ) → All (Differs d) (int_onto [] z)
unfolding int_onto
int_onto-below d o (pos n) = digits-below d o n
int_onto-below d o (negsuc n) = (omega arith, digits-below d o (suc n))

pub fields-Outside : (d : ℕ) → Outside d → (zs : List ℤ) → All (Differs d) (fields zs)
fields-Outside d o [] = (ground arith, tt)
fields-Outside d o (z ∷ zs) = (
  ground arith,
  subst (All (Differs d)) (sym (int_onto-append (fields zs) z))
      (All-append _ _ (fields zs) (int_onto-below d (ground arith) z) (fields-Outside d o zs)),
)

pub fields-Ends : (zs : List ℤ) → Ends (fields zs)
unfolding is_digit
fields-Ends [] = refl
fields-Ends (z ∷ zs) = refl

pub get_elem?-suffixes :
    (room : ℕ) (zs : List ℤ) (i : ℕ) (z : ℤ)
    → i < room
    → get_elem? zs i ≡ some z
    → (rest : List ℤ) × (get_elem? (suffixes room zs) i ≡ some (int_onto (fields rest) z))
get_elem?-suffixes zero zs i z h e = absurd (omega arith)
get_elem?-suffixes (suc room) [] i z h e = ground arith
get_elem?-suffixes (suc room) (y ∷ zs) zero z h e =
    (zs, ap (λ (o : Option ℤ). elim o [ none ↦ none | some w ↦ some (int_onto (fields zs) w) ]) e)
get_elem?-suffixes (suc room) (y ∷ zs) (suc i) z h e =
    get_elem?-suffixes room zs i z (omega arith) e
