-- ===== src/CString/Decimal.antt =====
-- What is read of a number that was printed.
use serena_de.CString.{
  CString, is_digit, is_space, skip_spaces, read_digits, digits_onto, int_onto, atoi, signed,
  strtoull, unsigned_of, clamped, as_int,
}
use serena_de.Prelude.{
  ℕ, zero, suc, ◌+◌, ◌*◌, ◌/◌, ◌%◌, ◌^◌, sym, ◌<◌, ◌≤◌, ◌≡◌, refl, ap, ◌∙◌, false, [], ◌∷◌, ◌++◌,
  leb, All, arith, Bool-cases, inl, inr,
}
use serena_de.Prelude.Int.{
  ℤ, pos, negsuc, pos_part, neg_part, sub_ℕ, int32, int32-pos, int32-negsuc,
}

-- The numbers of at most so many digits.
abbrev pub digit_bound : ℕ → ℕ
digit_bound zero = 1
digit_bound (suc f) = 10 * digit_bound f

read_digits-digit :
    (acc d : ℕ) (cs : CString)
    → d < 10
    → read_digits acc ((b'0' + d) ∷ cs) ≡ read_digits (acc * 10 + d) cs
unfolding read_digits is_digit
read_digits-digit acc d cs h = ground arith

-- Printed digits are read back, whatever follows.
pub read_digits-digits_onto :
    (fuel : ℕ) (tail : CString) (v : ℕ)
    → v < digit_bound fuel
    → read_digits 0 (digits_onto fuel tail v) ≡ read_digits v tail
unfolding digits_onto
read_digits-digits_onto zero tail v h = ground arith
read_digits-digits_onto (suc fuel) tail v h = elim (Bool-cases (leb 10 v)) [
  | inl many ↦ rw many (
      read_digits-digits_onto fuel ((b'0' + v % 10) ∷ tail) (v / 10) (omega arith)
      ∙ read_digits-digit (v / 10) (v % 10) tail (omega arith)
      ∙ ap (λ (k : ℕ). read_digits k tail) (omega arith))
  | inr few ↦ rw few (
      read_digits-digit 0 (v % 10) tail (omega arith)
      ∙ ap (λ (k : ℕ). read_digits k tail) (ground arith))
]

-- The first byte, and all of the printed ones, are digits.
abbrev pub IsDigit : ℕ → Type 0
IsDigit c = (b'0' ≤ c) × (c ≤ b'9')

pub digits_onto-append :
    (fuel : ℕ) (tail more : CString) (v : ℕ)
    → digits_onto fuel (tail ++ more) v ≡ digits_onto fuel tail v ++ more
unfolding digits_onto
digits_onto-append zero tail more v = refl
digits_onto-append (suc fuel) tail more v = elim (Bool-cases (leb 10 v)) [
  | inl many ↦ rw many (digits_onto-append fuel ((b'0' + v % 10) ∷ tail) more (v / 10))
  | inr few ↦ rw few refl
]

pub All-IsDigit :
    (fuel : ℕ) (tail : CString) (v : ℕ) → All IsDigit tail → All IsDigit (digits_onto fuel tail v)
unfolding digits_onto
All-IsDigit zero tail v h = h
All-IsDigit (suc fuel) tail v h = elim (Bool-cases (leb 10 v)) [
  | inl many ↦
      rw many (All-IsDigit fuel ((b'0' + v % 10) ∷ tail) (v / 10) ((omega arith, omega arith), h))
  | inr few ↦ rw few ((omega arith, omega arith), h)
]

-- A number starts with a digit or a minus sign.
abbrev pub Starts : CString → Type 0
Starts s = (c : ℕ) × (cs : CString) × (s ≡ c ∷ cs) × IsDigit c

digits_onto-Starts :
    (fuel d : ℕ) (tail : CString) (v : ℕ) → IsDigit d → Starts (digits_onto fuel (d ∷ tail) v)
unfolding digits_onto
digits_onto-Starts zero d tail v h = (d, tail, refl, h)
digits_onto-Starts (suc fuel) d tail v h = elim (Bool-cases (leb 10 v)) [
  | inl many ↦
      rw many
        (digits_onto-Starts fuel (b'0' + v % 10) (d ∷ tail) (v / 10) (omega arith, omega arith))
  | inr few ↦ rw few (b'0' + v % 10, d ∷ tail, refl, (omega arith, omega arith))
]

pub digits-Starts : (tail : CString) (v : ℕ) → Starts (digits_onto 20 tail v)
unfolding digits_onto
digits-Starts tail v = elim (Bool-cases (leb 10 v)) [
  | inl many ↦
      rw many (digits_onto-Starts 19 (b'0' + v % 10) tail (v / 10) (omega arith, omega arith))
  | inr few ↦ rw few (b'0' + v % 10, tail, refl, (omega arith, omega arith))
]

-- The number fits a 32-bit `int`.
abbrev pub Fits : ℤ → Type 0
Fits z = (pos_part z < 2 ^ 31) × (neg_part z ≤ 2 ^ 31)

pub as_int-Fits : (z : ℤ) → Fits z → as_int z ≡ z
unfolding as_int
as_int-Fits (pos n) h = ap int32 (ap pos (ground arith)) ∙ int32-pos n (omega arith)
as_int-Fits (negsuc n) h = ap int32 (ap negsuc (ground arith)) ∙ int32-negsuc n (omega arith)

-- What follows a number does not go on with a digit.
abbrev pub Ends : CString → Type 0
Ends [] = Unit
Ends (c ∷ cs) = is_digit c ≡ false

read_digits-Ends : (v : ℕ) (tail : CString) → Ends tail → read_digits v tail ≡ (v, tail)
unfolding read_digits
read_digits-Ends v [] h = refl
read_digits-Ends v (c ∷ cs) h = rw h refl

pub read_printed :
    (tail : CString) (v : ℕ)
    → v < digit_bound 20
    → Ends tail
    → read_digits 0 (digits_onto 20 tail v) ≡ (v, tail)
read_printed tail v h e = read_digits-digits_onto 20 tail v h ∙ read_digits-Ends v tail e

signed-digit :
    (c : ℕ) (cs : CString) → IsDigit c → atoi (c ∷ cs) ≡ as_int (pos (read_digits 0 (c ∷ cs)).0)
unfolding atoi skip_spaces signed is_space
signed-digit c cs h =
    let value : signed (skip_spaces (c ∷ cs)) ≡ pos (read_digits 0 (c ∷ cs)).0 = ground arith in
    ap as_int value

unsigned-digit :
    (c : ℕ) (cs : CString) → IsDigit c → strtoull (c ∷ cs) ≡ clamped (read_digits 0 (c ∷ cs)).0
unfolding strtoull skip_spaces unsigned_of is_space
unsigned-digit c cs h = ground arith

-- atoi reads what `%d` printed, whatever text follows that is not a digit.
pub atoi-int_onto : (tail : CString) (z : ℤ) → Fits z → Ends tail → atoi (int_onto tail z) ≡ z
unfolding int_onto atoi skip_spaces signed is_space
atoi-int_onto tail (pos v) h e =
    let (c, cs, s, d) = digits-Starts tail v in
    ap atoi s
    ∙ signed-digit c cs d
    ∙ ap (λ t. as_int (pos (read_digits 0 t).0)) (sym s)
    ∙ ap (λ r. as_int (pos r.0)) (read_printed tail v (omega arith) e)
    ∙ as_int-Fits (pos v) h
atoi-int_onto tail (negsuc n) h e =
    let minus : sub_ℕ 0 (suc n) ≡ negsuc n = ground arith in
    ap (λ r. as_int (sub_ℕ 0 r.0)) (read_printed tail (suc n) (omega arith) e)
    ∙ ap as_int minus
    ∙ as_int-Fits (negsuc n) h

pub strtoull-int_onto :
    (tail : CString) (v : ℕ) → v < 2 ^ 64 → Ends tail → strtoull (int_onto tail (pos v)) ≡ v
unfolding int_onto
strtoull-int_onto tail v h e =
    let (c, cs, s, d) = digits-Starts tail v in
    ap strtoull s
    ∙ unsigned-digit c cs d
    ∙ ap (λ t. clamped (read_digits 0 t).0) (sym s)
    ∙ ap (λ r. clamped r.0) (read_printed tail v (omega arith) e)
    ∙ ground arith
