-- ===== src/Prelude/Json/Objects.antt =====
-- A JSON reader of objects that hold only strings, and what it makes of a marshalled struct.
use Prim.Native.Nat.{ℕ, zero, suc, ◌/◌, ◌%◌}
use Prim.Native.String.{String}
use mathlib.Core.Path.{◌≡◌, refl, sym, ap, ◌∙◌}
use mathlib.Core.Bool.{◌||◌}
use mathlib.Core.Option.{Option, none, some}
use mathlib.Core.List.{List, [], ◌∷◌, ◌++◌, append_assoc, append-nil}
use native.Mathlib.Omega.{arith}
use mailcow_watchdog.Prelude.Tests.{◌==◌, by_test, if◌then◌else◌}
use mailcow_watchdog.Prelude.Lists.{length}
use mailcow_watchdog.Prelude.Text.{Text, codes}
use mailcow_watchdog.Prelude.Json.{
  hex, marshal_char, marshal_all, closed_literal, marshal_fields, marshal,
}
use mailcow_watchdog.Prelude.Json.Reading.{
  plain, hex_value-hex, with_char, read_literal, read_literal_unicode, Reads,
  read_literal-escape_char, prefixed, prefixed-with_char, prefixed-nil,
}

read_literal-marshal_char : (c : ℕ) (rest : Text) → Reads c rest (marshal_char c)
unfolding marshal_char
read_literal-marshal_char c rest =
    by_test (Reads c rest) (c == b'<' || c == b'>' || c == b'&')
      (λ e.
        read_literal_unicode b'0' b'0' (hex (c / 16)) (hex (c % 16)) 0 0 (c / 16) (c % 16) rest refl
          refl (hex_value-hex (c / 16) (ground arith)) (hex_value-hex (c % 16) (omega arith))
        ∙ ap (λ x. with_char (some x) (read_literal plain rest)) (omega arith))
      (λ _. read_literal-escape_char c rest)

read_literal-marshal_all :
    (value rest : Text)
    → read_literal plain (marshal_all value ++ rest) ≡ prefixed value (read_literal plain rest)
unfolding marshal_all
read_literal-marshal_all [] rest = sym (prefixed-nil (read_literal plain rest))
read_literal-marshal_all (c ∷ s) rest =
    ap (read_literal plain) (append_assoc (marshal_char c) (marshal_all s) rest)
    ∙ read_literal-marshal_char c (marshal_all s ++ rest)
    ∙ ap (with_char (some c)) (read_literal-marshal_all s rest)
    ∙ prefixed-with_char c s (read_literal plain rest)

-- The text behind the given character.
abbrev pub expect : ℕ → Text → Option Text
expect c [] = none
expect c (d ∷ s) = if d == c then some s else none

abbrev pub bind {ℓ κ} : {A : Type ℓ} {B : Type κ} → Option A → (A → Option B) → Option B
bind none f = none
bind (some a) f = f a

-- A string, and a name with its value.
unfoldable pub read_string : Text → Option (Text × Text)
read_string s = bind (expect b'"' s) (read_literal plain)

unfoldable pub read_field : Text → Option ((Text × Text) × Text)
read_field s = bind (read_string s) (λ (name, t).
    bind (expect b':' t) (λ u. bind (read_string u) (λ (value, rest). some ((name, value), rest))))

abbrev pub with_field : Text × Text → Option (List (Text × Text)) → Option (List (Text × Text))
with_field f none = none
with_field f (some fields) = some (f ∷ fields)

-- What follows a field: the end of the object and of the text, or further fields.
abbrev pub only : Text × Text → Text → Option (List (Text × Text))
only f [] = some (f ∷ [])
only f (_ ∷ _) = none

-- The rest of the object behind a field.
abbrev pub behind :
    (Text → Option (List (Text × Text)))
    → Option ((Text × Text) × Text)
    → Option (List (Text × Text))
behind more none = none
behind more (some (f, [])) = none
behind more (some (f, c ∷ t)) =
    if c == b',' then with_field f (more t) else if c == b'}' then only f t else none

-- Reads at most so many fields.
unfoldable pub read_fields : ℕ → Text → Option (List (Text × Text))
read_fields zero s = none
read_fields (suc n) s = behind (λ t. read_fields n t) (read_field s)

unfoldable pub read_object : ℕ → Text → Option (List (Text × Text))
read_object n s = bind (expect b'{' s) (read_fields n)

abbrev pub texts : List (String × String) → List (Text × Text)
texts [] = []
texts ((name, value) ∷ fields) = (codes name, codes value) ∷ texts fields

read_string-closed_literal :
    (s : String) (rest : Text) → read_string (closed_literal s rest) ≡ some (codes s, rest)
unfolding read_string read_literal prefixed
read_string-closed_literal s rest =
    read_literal-marshal_all (codes s) (b'"' ∷ rest)
    ∙ ap (λ t. some (t, rest)) (append-nil (codes s))

read_field-closed_literal :
    (name value : String) (rest : Text)
    → read_field (closed_literal name (b':' ∷ closed_literal value rest))
      ≡ some ((codes name, codes value), rest)
unfolding read_field
read_field-closed_literal name value rest =
    rw (read_string-closed_literal name (b':' ∷ closed_literal value rest))
      (rw (read_string-closed_literal value rest) refl)

read_fields-marshal_fields :
    (name value : String) (fields : List (String × String))
    → read_fields (suc (length fields)) (marshal_fields ((name, value) ∷ fields) (b'}' ∷ []))
      ≡ some (texts ((name, value) ∷ fields))
unfolding read_fields marshal_fields
read_fields-marshal_fields name value [] =
    ap (behind (λ t. read_fields 0 t)) (read_field-closed_literal name value (b'}' ∷ []))
read_fields-marshal_fields name value ((n, v) ∷ fields) =
    ap (behind (λ t. read_fields (suc (length fields)) t))
      (read_field-closed_literal name value (b',' ∷ marshal_fields ((n, v) ∷ fields) (b'}' ∷ [])))
    ∙ ap (with_field (codes name, codes value)) (read_fields-marshal_fields n v fields)

-- A marshalled struct is read back field by field, whatever its names and values hold.
pub read_object-marshal :
    (name value : String) (fields : List (String × String))
    → read_object (suc (length fields)) (marshal ((name, value) ∷ fields))
      ≡ some (texts ((name, value) ∷ fields))
unfolding read_object marshal
read_object-marshal name value fields = read_fields-marshal_fields name value fields
