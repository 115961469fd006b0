-- ===== src/Prelude/Json.antt =====
-- What the program uses of `encoding/json` to write a text: a text is the list of its code points, so
-- that the replacement of invalid UTF-8 does not arise.
pub mod Reading
pub mod Objects
use Prim.Native.Nat.{ℕ, ◌+◌, ◌-◌, ◌/◌, ◌%◌}
use Prim.Native.String.{String}
use mathlib.Core.Bool.{Bool, true, false, ◌||◌}
use mathlib.Core.List.{List, [], ◌∷◌, ◌++◌}
use mailcow_watchdog.Prelude.Tests.{ltb, ◌==◌, if◌then◌else◌}
use mailcow_watchdog.Prelude.Text.{Text, codes}

-- A lower-case hexadecimal digit.
abbrev pub hex : ℕ → ℕ
hex d = if ltb d 10 then b'0' + d else b'a' + (d - 10)

-- How `encoding/json` writes one code point of a string when it does not escape HTML.
unfoldable pub escape_char : ℕ → Text
escape_char c =
    if c == b'"' || c == b'\\'
    then b'\\' ∷ c ∷ []
    else if c == 8
    then b'\\' ∷ b'b' ∷ []
    else if c == 9
    then b'\\' ∷ b't' ∷ []
    else if c == 10
    then b'\\' ∷ b'n' ∷ []
    else if c == 12
    then b'\\' ∷ b'f' ∷ []
    else if c == 13
    then b'\\' ∷ b'r' ∷ []
    else if ltb c 0x20
    then b'\\' ∷ b'u' ∷ b'0' ∷ b'0' ∷ hex (c / 16) ∷ hex (c % 16) ∷ []
    else if c == 0x2028 || c == 0x2029
    then b'\\' ∷ b'u' ∷ b'2' ∷ b'0' ∷ b'2' ∷ hex (c % 16) ∷ []
    else c ∷ []

unfoldable pub escape_all : Text → Text
escape_all [] = []
escape_all (c ∷ s) = escape_char c ++ escape_all s

-- `Marshal` also escapes the three characters that HTML gives a meaning.
unfoldable pub marshal_char : ℕ → Text
marshal_char c =
    if c == b'<' || c == b'>' || c == b'&'
    then b'\\' ∷ b'u' ∷ b'0' ∷ b'0' ∷ hex (c / 16) ∷ hex (c % 16) ∷ []
    else escape_char c

unfoldable pub marshal_all : Text → Text
marshal_all [] = []
marshal_all (c ∷ s) = marshal_char c ++ marshal_all s

-- `Marshal` of a struct whose fields are all strings: the names and the values, in order.
abbrev pub closed_literal : String → Text → Text
closed_literal s rest = b'"' ∷ (marshal_all (codes s) ++ b'"' ∷ rest)

unfoldable pub marshal_fields : List (String × String) → Text → Text
marshal_fields [] rest = rest
marshal_fields ((name, value) ∷ []) rest = closed_literal name (b':' ∷ closed_literal value rest)
marshal_fields ((name, value) ∷ f ∷ fields) rest =
    closed_literal name (b':' ∷ closed_literal value (b',' ∷ marshal_fields (f ∷ fields) rest))

unfoldable pub marshal : List (String × String) → Text
marshal fields = b'{' ∷ marshal_fields fields (b'}' ∷ [])
