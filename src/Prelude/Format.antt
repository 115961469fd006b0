-- ===== src/Prelude/Format.antt =====
-- `fmt.Sprintf` for the verbs that the program uses: %s and %v of a text, %d of a count, %q.
use Prim.Native.Nat.{ℕ, zero, suc, ◌+◌, ◌/◌, ◌%◌}
use Prim.Native.Char.{Char, code}
use Prim.Native.String
use Prim.Native.String.{String, [], ◌∷◌}
use mathlib.Core.Bool.{Bool, true, false, ◌||◌}
use mathlib.Core.List.{List}
use mailcow_watchdog.Prelude.Tests.{ltb, ◌==◌, if◌then◌else◌}

pub data Arg : Type 0 where
  str : String → Arg
  int : ℕ → Arg

abbrev pub concat : List String → String
concat List.[] = ""
concat (List.◌∷◌ s r) = String.◌++◌ s (concat r)

abbrev digit : ℕ → String
digit n =
    if n == 0
    then "0"
    else if n == 1
    then "1"
    else if n == 2
    then "2"
    else if n == 3
    then "3"
    else if n == 4
    then "4"
    else if n == 5
    then "5"
    else if n == 6
    then "6"
    else if n == 7
    then "7"
    else if n == 8
    then "8"
    else "9"

-- The last digit first; a number has at most as many digits as its value plus one.
digits : ℕ → ℕ → String → String
digits zero n out = out
digits (suc fuel) n out =
    let more = digits fuel (n / 10) (String.◌++◌ (digit (n % 10)) out) in
    if ltb n 10 then String.◌++◌ (digit n) out else more

-- `strconv.Itoa` of a count.
unfoldable pub itoa : ℕ → String
unfolding digits
itoa n = digits (n + 1) n ""

escape : String → String
escape [] = []
escape (c ∷ s) =
    String.◌++◌
      (if code c == b'"' || code c == b'\\'
        then String.◌++◌ "\\" (c ∷ [])
        else if code c == 10
        then "\\n"
        else if code c == 13
        then "\\r"
        else if code c == 9
        then "\\t"
        else c ∷ [])
      (escape s)

-- %q: every rune but the quote, the backslash, tab and the line breaks is taken as printable.
unfoldable pub quote : String → String
unfolding escape
quote s = concat (List.◌∷◌ "\"" (List.◌∷◌ (escape s) (List.◌∷◌ "\"" List.[])))

-- What one verb prints, and the arguments that are left.
show : Char → List Arg → String × List Arg
show verb List.[] = ("", List.[])
show verb (List.◌∷◌ (str s) args) = (if code verb == b'q' then quote s else s, args)
show verb (List.◌∷◌ (int n) args) = (itoa n, args)

-- The flag says that a `%` has just been read.
scan : String → List Arg → Bool → String
scan [] args pending = []
scan (c ∷ s) args true = let (text, rest) = show c args in String.◌++◌ text (scan s rest false)
scan (c ∷ s) args false =
    let verb = scan s args true in
    let plain = c ∷ scan s args false in if code c == b'%' then verb else plain

unfoldable pub sprintf : String → List Arg → String
unfolding scan show quote itoa
sprintf format args = scan format args false
