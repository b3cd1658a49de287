-- ===== src/Launcher/Json.antt =====
-- json_escape of src/Launcher/main.cpp; what it writes is a list of bytes.
pub mod Value
mod Tests
use mathlib.Core.List.{append_assoc}
use serena_de.CString.{CString}
use serena_de.Prelude.{
  ℕ, ◌≡◌, ◌<◌, refl, ap, ◌∙◌, List, [], ◌∷◌, ◌++◌, map, Option, none, some, ltb, ◌==◌,
  if◌then◌else◌, Bool, true, false, arith, Bool-cases, inl, inr, ==_iff,
}

-- What is written for a byte.
abbrev pub escaped : ℕ → List ℕ
escaped c =
    if c == b'"'
    then b'\\' ∷ b'"' ∷ []
    else if c == b'\\'
    then b'\\' ∷ b'\\' ∷ []
    else if ltb c 32
    then b' ' ∷ []
    else c ∷ []

unfoldable pub escape_all : CString → List ℕ
escape_all [] = []
escape_all (c ∷ cs) = escaped c ++ escape_all cs

unfoldable pub json_escape : CString → List ℕ
json_escape s = b'"' ∷ escape_all s ++ b'"' ∷ []

-- A reader of JSON strings, for the escapes of a quote and of a backslash: the text and what follows
-- the closing quote. A control character inside a string is an error, as in JSON.
abbrev pub keep : ℕ → Option (List ℕ × List ℕ) → Option (List ℕ × List ℕ)
keep c none = none
keep c (some (s, rest)) = some (c ∷ s, rest)

unfoldable pub read_chars : List ℕ → Option (List ℕ × List ℕ)
read_chars [] = none
read_chars (c ∷ []) = if c == b'"' then some ([], []) else none
read_chars (c ∷ d ∷ cs) =
    let plain = read_chars (d ∷ cs) in
    let behind = read_chars cs in
    if c == b'"'
    then some ([], d ∷ cs)
    else if c == b'\\'
    then (if d == b'"' then keep d behind else if d == b'\\' then keep d behind else none)
    else if ltb c 32
    then none
    else keep c plain

unfoldable pub read_string : List ℕ → Option (List ℕ × List ℕ)
read_string [] = none
read_string (c ∷ cs) = if c == b'"' then read_chars cs else none

-- Control characters become blanks.
abbrev pub blanked : ℕ → ℕ
blanked c = if ltb c 32 then b' ' else c

read_chars-escaped :
    (c d : ℕ) (cs : List ℕ)
    → read_chars (escaped c ++ d ∷ cs) ≡ keep (blanked c) (read_chars (d ∷ cs))
unfolding read_chars
read_chars-escaped c d cs = ground arith

read_chars-more :
    (c : ℕ) (cs : List ℕ) (r : List ℕ × List ℕ)
    → read_chars cs ≡ some r
    → read_chars (escaped c ++ cs) ≡ some (blanked c ∷ r.0, r.1)
unfolding read_chars
read_chars-more c [] r e = ground arith
read_chars-more c (d ∷ ds) r e = read_chars-escaped c d ds ∙ ap (keep (blanked c)) e

read_chars-escape_all :
    (s rest : List ℕ) → read_chars (escape_all s ++ b'"' ∷ rest) ≡ some (map blanked s, rest)
unfolding read_chars escape_all
read_chars-escape_all [] [] = refl
read_chars-escape_all [] (c ∷ rest) = refl
read_chars-escape_all (c ∷ cs) rest =
    ap read_chars (append_assoc (escaped c) (escape_all cs) (b'"' ∷ rest))
    ∙ read_chars-more c _ _ (read_chars-escape_all cs rest)

-- A JSON reader gets back what was escaped, with each control character as a blank, and stops behind
-- the closing quote: no byte of the text ends the string early or spoils it.
pub read_string-json_escape :
    (s : CString) (rest : List ℕ) → read_string (json_escape s ++ rest) ≡ some (map blanked s, rest)
unfolding read_string json_escape
read_string-json_escape s rest =
    ap read_chars (append_assoc (escape_all s) (b'"' ∷ []) rest) ∙ read_chars-escape_all s rest
