-- ===== src/CString.antt =====
-- C strings as lists of bytes without the closing NUL, and what the program uses of the C library
-- on them: strcmp, strchr, strrchr, strstr, strlen,
-- atoi, strtoull, and `%d` and `%llu` of printf.
pub mod Equality
pub mod Decimal
pub mod Search
use Prim.Native.Char.{code}
use Prim.Native.String.{String}
use serena_de.Prelude.{
  ℕ, zero, suc, ◌+◌, ◌-◌, ◌*◌, ◌/◌, ◌%◌, ◌^◌, Bool, true, false, ◌&&◌, ◌||◌, List, [], ◌∷◌, ◌++◌,
  Option, none, some, leb, ltb, ◌==◌, if◌then◌else◌,
}
use serena_de.Prelude.Int.{ℤ, pos, negsuc, sub_ℕ, int32}

abbrev pub CString : Type 0
CString = List ℕ

-- The bytes of an ASCII literal.
abbrev pub text : String → CString
text String.[] = []
text (String.◌∷◌ c s) = code c ∷ text s

-- The string in a buffer: the bytes before the first NUL.
unfoldable pub c_string : List ℕ → CString
c_string [] = []
c_string (c ∷ cs) = let rest = c_string cs in if c == 0 then [] else c ∷ rest

-- `!strcmp(a, b)`
unfoldable pub equal : CString → CString → Bool
equal [] [] = true
equal (x ∷ xs) (y ∷ ys) = x == y && equal xs ys
equal _ _ = false

prepend : ℕ → Option (CString × CString) → Option (CString × CString)
prepend x none = none
prepend x (some (before, after)) = some (x ∷ before, after)

-- The text before and after the first place where strchr finds the byte.
unfoldable pub split_at : ℕ → CString → Option (CString × CString)
unfolding prepend
split_at c [] = none
split_at c (x ∷ xs) = if x == c then some ([], xs) else prepend x (split_at c xs)

append_to : ℕ → CString × CString → CString × CString
append_to x (before, after) = (x ∷ before, after)

-- The text before and after the last place, which strrchr finds.
unfoldable pub split_last : ℕ → CString → Option (CString × CString)
unfolding append_to
split_last c [] = none
split_last c (x ∷ xs) = elim (split_last c xs) [
  | some p ↦ some (append_to x p)
  | none ↦ if x == c then some ([], xs) else none
]

unfoldable pub starts_with : CString → CString → Bool
starts_with [] s = true
starts_with (c ∷ cs) [] = false
starts_with (c ∷ cs) (x ∷ xs) = x == c && starts_with cs xs

-- strstr, for a pattern that is not empty: the text from its first place on.
unfoldable pub find_text : CString → CString → Option CString
find_text pattern [] = none
find_text pattern (x ∷ xs) =
    let later = find_text pattern xs in
    if starts_with pattern (x ∷ xs) then some (x ∷ xs) else later

-- isspace in the C locale.
unfoldable pub is_space : ℕ → Bool
is_space c = c == 32 || leb 9 c && leb c 13

unfoldable pub is_digit : ℕ → Bool
is_digit c = leb b'0' c && leb c b'9'

unfoldable pub skip_spaces : CString → CString
skip_spaces [] = []
skip_spaces (c ∷ cs) = let rest = skip_spaces cs in if is_space c then rest else c ∷ cs

-- The value of the digits at the front, and what follows them.
unfoldable pub read_digits : ℕ → CString → ℕ × CString
read_digits acc [] = (acc, [])
read_digits acc (c ∷ cs) =
    let rest = read_digits (acc * 10 + (c - b'0')) cs in if is_digit c then rest else (acc, c ∷ cs)

-- What an `int` holds of a number in a text. C leaves a number that does not fit undefined; glibc
-- takes the nearest `long` and cuts that to 32 bits.
abbrev pub to_long : ℤ → ℤ
to_long (pos n) = pos (if ltb n (2 ^ 63) then n else 2 ^ 63 - 1)
to_long (negsuc n) = negsuc (if ltb n (2 ^ 63) then n else 2 ^ 63 - 1)

unfoldable pub as_int : ℤ → ℤ
unfolding int32
as_int z = int32 (to_long z)

-- The number at the front of a text, 0 where no digit stands.
unfoldable pub signed : CString → ℤ
unfolding read_digits
signed [] = pos 0
signed (c ∷ cs) =
    if c == b'-'
    then sub_ℕ 0 (read_digits 0 cs).0
    else if c == b'+'
    then pos (read_digits 0 cs).0
    else pos (read_digits 0 (c ∷ cs)).0

unfoldable pub atoi : CString → ℤ
unfolding skip_spaces signed is_space is_digit as_int
atoi s = as_int (signed (skip_spaces s))

-- strtoull in base ten: the largest value where the number does not fit, and a minus sign negates in
-- 64 bits.
abbrev pub clamped : ℕ → ℕ
clamped n = if ltb n (2 ^ 64) then n else 2 ^ 64 - 1

unfoldable pub unsigned_of : CString → ℕ
unfolding read_digits
unsigned_of [] = 0
unsigned_of (c ∷ cs) =
    if c == b'-'
    then (2 ^ 64 - clamped (read_digits 0 cs).0) % 2 ^ 64
    else if c == b'+'
    then clamped (read_digits 0 cs).0
    else clamped (read_digits 0 (c ∷ cs)).0

unfoldable pub strtoull : CString → ℕ
unfolding skip_spaces unsigned_of is_space is_digit
strtoull s = unsigned_of (skip_spaces s)

-- The digits in front of `tail`, on fuel; a number below 10 ^ fuel is written whole.
unfoldable pub digits_onto : ℕ → CString → ℕ → CString
digits_onto zero tail value = tail
digits_onto (suc fuel) tail value =
    let longer = (b'0' + value % 10) ∷ tail in
    let whole = digits_onto fuel longer (value / 10) in if leb 10 value then whole else longer

-- `%d` of a number that is not negative, up to twenty digits.
unfoldable pub print_decimal : ℕ → CString
print_decimal = digits_onto 20 []

-- `%d` of any number, in front of a text.
unfoldable pub int_onto : CString → ℤ → CString
int_onto tail (pos n) = digits_onto 20 tail n
int_onto tail (negsuc n) = b'-' ∷ digits_onto 20 tail (suc n)
