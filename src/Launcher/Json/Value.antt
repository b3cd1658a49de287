-- ===== src/Launcher/Json/Value.antt =====
-- JSON values and their rendering without blanks, as the readers of the launcher's files take them;
-- and the sequences of fputs, fprintf and json_escape by which src/Launcher/main.cpp writes.
use serena_de.CString.{CString, text, int_onto}
use serena_de.Launcher.Json.{json_escape}
use serena_de.Prelude.Int.{ℤ}
use serena_de.Prelude.{◌≡◌, refl, ap, Bool, true, false, List, [], ◌∷◌, ◌++◌, if◌then◌else◌}

-- `Items` and `Fields` are what stands in an array and in an object.
mutual
  pub data Json : Type 0 where
    boolean : Bool → Json
    number : ℤ → Json
    string : CString → Json
    array : Items → Json
    object : Fields → Json

  pub data Items : Type 0 where
    no_items : Items
    item : Json → Items → Items

  pub data Fields : Type 0 where
    no_fields : Fields
    field : CString → Json → Fields → Fields

-- A comma, unless the entry is the first.
abbrev pub comma : Bool → CString → CString
comma first s = if first then s else b',' ∷ s

-- The text of a value in front of another text; `first` is whether no entry stands in front.
unfoldable mutual
  pub render_onto : CString → Json → CString
  render_onto tail (boolean true) = b't' ∷ b'r' ∷ b'u' ∷ b'e' ∷ tail
  render_onto tail (boolean false) = b'f' ∷ b'a' ∷ b'l' ∷ b's' ∷ b'e' ∷ tail
  render_onto tail (number z) = int_onto tail z
  render_onto tail (string s) = json_escape s ++ tail
  render_onto tail (array items) = b'[' ∷ items_onto (b']' ∷ tail) true items
  render_onto tail (object fields) = b'{' ∷ fields_onto (b'}' ∷ tail) true fields

  pub items_onto : CString → Bool → Items → CString
  items_onto tail first no_items = tail
  items_onto tail first (item v vs) = comma first (render_onto (items_onto tail false vs) v)

  pub fields_onto : CString → Bool → Fields → CString
  fields_onto tail first no_fields = tail
  fields_onto tail first (field key v fs) =
      comma first (json_escape key ++ b':' ∷ render_onto (fields_onto tail false fs) v)

-- One conversion or literal of fprintf, or a call of json_escape.
pub data Piece : Type 0 where
  literal : CString → Piece
  decimal : ℤ → Piece
  escaped_string : CString → Piece

-- What is written, in front of what is written later.
unfoldable pub emit : CString → List Piece → CString
emit tail [] = tail
emit tail (literal s ∷ ps) = s ++ emit tail ps
emit tail (decimal z ∷ ps) = int_onto (emit tail ps) z
emit tail (escaped_string s ∷ ps) = json_escape s ++ emit tail ps

pub emit-append :
    (tail : CString) (ps qs : List Piece) → emit tail (ps ++ qs) ≡ emit (emit tail qs) ps
unfolding emit
emit-append tail [] qs = refl
emit-append tail (literal s ∷ ps) qs = ap (λ r. s ++ r) (emit-append tail ps qs)
emit-append tail (decimal z ∷ ps) qs = ap (λ r. int_onto r z) (emit-append tail ps qs)
emit-append tail (escaped_string s ∷ ps) qs = ap (λ r. json_escape s ++ r) (emit-append tail ps qs)

-- What is written in front of an entry: a comma behind the first.
abbrev pub comma_piece : Bool → List Piece → List Piece
comma_piece first ps = if first then ps else literal (text ",") ∷ ps

pub emit-comma_piece :
    (tail : CString) (first : Bool) (ps : List Piece)
    → emit tail (comma_piece first ps) ≡ comma first (emit tail ps)
unfolding emit
emit-comma_piece tail true ps = refl
emit-comma_piece tail false ps = refl
