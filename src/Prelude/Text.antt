-- ===== src/Prelude/Text.antt =====
-- Go's `strings` functions that the program calls, over the code points of a text.
use Prim.Native.Nat.{ℕ, ◌+◌, ◌-◌, ◌*◌, ◌^◌}
use Prim.Native.Char.{Char, code}
use Prim.Native.String.{String}
use mathlib.Core.Path.{◌≡◌, refl}
use mathlib.Core.Bool.{Bool, true, false, ◌&&◌, ◌||◌}
use mathlib.Core.List.{List, [], ◌∷◌, map, reverse}
use mathlib.Core.Option.{Option, none, some}
use native.Mathlib.Omega.{arith}
use mailcow_watchdog.Prelude.Tests.{ltb, leb, ◌==◌, if◌then◌else◌}
use mailcow_watchdog.Prelude.Int.{ℤ, pos, negsuc}
use mailcow_watchdog.Prelude.Lists.{length, drop}

abbrev pub Text : Type 0
Text = List ℕ

-- The code points of a literal.
abbrev pub codes : String → Text
codes String.[] = []
codes (String.◌∷◌ c s) = code c ∷ codes s

abbrev pub text_eq : Text → Text → Bool
text_eq [] [] = true
text_eq [] (_ ∷ _) = false
text_eq (_ ∷ _) [] = false
text_eq (a ∷ s) (b ∷ t) = a == b && text_eq s t

-- `strings.HasPrefix`.
abbrev pub has_prefix : Text → Text → Bool
has_prefix s [] = true
has_prefix [] (_ ∷ _) = false
has_prefix (a ∷ s) (b ∷ t) = a == b && has_prefix s t

-- `strings.HasSuffix`: the last bytes of the text are the suffix.
abbrev pub has_suffix : Text → Text → Bool
has_suffix s t = leb (length t) (length s) && text_eq (drop (length s - length t) s) t

-- `strings.Contains`.
abbrev pub contains : Text → Text → Bool
contains [] t = has_prefix [] t
contains (a ∷ s) t = has_prefix (a ∷ s) t || contains s t

-- The White_Space code points, which `strings.TrimSpace` cuts.
abbrev pub is_space : ℕ → Bool
is_space c =
    (leb 9 c && leb c 13)
    || c == 0x20
    || c == 0x85
    || c == 0xa0
    || c == 0x1680
    || (leb 0x2000 c && leb c 0x200a)
    || c == 0x2028
    || c == 0x2029
    || c == 0x202f
    || c == 0x205f
    || c == 0x3000

-- `strings.TrimLeft` and `strings.Trim` for a class of code points.
abbrev pub trim_left : (ℕ → Bool) → Text → Text
trim_left p [] = []
trim_left p (c ∷ s) = if p c then trim_left p s else c ∷ s

abbrev pub trim_both : (ℕ → Bool) → Text → Text
trim_both p s = reverse (trim_left p (reverse (trim_left p s)))

abbrev pub trim_space : Text → Text
trim_space = trim_both is_space

-- `unicode.ToLower` on the code points whose lower case is ASCII; every other one stays.
abbrev pub lower : ℕ → ℕ
lower c =
    if leb b'A' c && leb c b'Z'
    then c + 32
    else if c == 0x130
    then b'i'
    else if c == 0x212a
    then b'k'
    else c

abbrev pub to_lower : Text → Text
to_lower = map lower

pub text_eq_refl : (s : Text) → text_eq s s ≡ true
text_eq_refl [] = refl
text_eq_refl (c ∷ s) = ground (arith, text_eq_refl s)

pub eq_of_text_eq : (s t : Text) → text_eq s t ≡ true → s ≡ t
eq_of_text_eq [] [] h = refl
eq_of_text_eq (a ∷ s) (b ∷ t) h = ground (arith, eq_of_text_eq s t)
eq_of_text_eq _ _ h = ground arith

trim_start : String → String
trim_start String.[] = String.[]
trim_start (String.◌∷◌ c s) = if is_space (code c) then trim_start s else String.◌∷◌ c s

flip_onto : String → String → String
flip_onto String.[] t = t
flip_onto (String.◌∷◌ c s) t = flip_onto s (String.◌∷◌ c t)

-- `strings.TrimSpace` on a string.
unfoldable pub trim_string : String → String
unfolding trim_start flip_onto
trim_string s = flip_onto (trim_start (flip_onto (trim_start s) "")) ""

-- By bytes, which in UTF-8 is by code points.
abbrev pub precedes : Text → Text → Bool
precedes [] t = true
precedes (_ ∷ _) [] = false
precedes (a ∷ s) (b ∷ t) = if a == b then precedes s t else leb a b

-- `sort.Strings`.
abbrev pub insert : String → List String → List String
insert x [] = x ∷ []
insert x (y ∷ ys) = if precedes (codes x) (codes y) then x ∷ y ∷ ys else y ∷ insert x ys

abbrev pub sort : List String → List String
sort [] = []
sort (x ∷ xs) = insert x (sort xs)

-- The character at a place of a text, or the given one if the text is too short.
abbrev pub char_at : String → ℕ → Char → Char
char_at String.[] n d = d
char_at (String.◌∷◌ c s) n d = if n == 0 then c else char_at s (n - 1) d

-- `strings.ToLower` on a string.
unfoldable pub lower_string : String → String
lower_string String.[] = String.[]
lower_string (String.◌∷◌ c s) =
    String.◌∷◌
      (if leb b'A' (code c) && leb (code c) b'Z'
        then char_at "abcdefghijklmnopqrstuvwxyz" (code c - b'A') c
        else if code c == 0x130
        then char_at "i" 0 c
        else if code c == 0x212a
        then char_at "k" 0 c
        else c)
      (lower_string s)

-- `strings.Trim` for a class of code points.
trim_start_of : (ℕ → Bool) → String → String
trim_start_of p String.[] = String.[]
trim_start_of p (String.◌∷◌ c s) = if p (code c) then trim_start_of p s else String.◌∷◌ c s

unfoldable pub trim_of : (ℕ → Bool) → String → String
unfolding trim_start_of flip_onto
trim_of p s = flip_onto (trim_start_of p (flip_onto (trim_start_of p s) "")) ""

-- `strings.Split` at one code point: the pieces between the separators, never none.
abbrev extend : Char → List String → List String
extend c [] = String.◌∷◌ c String.[] ∷ []
extend c (s ∷ r) = String.◌∷◌ c s ∷ r

unfoldable pub split_at_char : ℕ → String → List String
split_at_char sep String.[] = "" ∷ []
split_at_char sep (String.◌∷◌ c s) =
    let rest = split_at_char sep s in if code c == sep then "" ∷ rest else extend c rest

-- `strconv.Atoi`: a sign at most, then digits, within 64 bits.
abbrev digits_value : String → ℕ → Option ℕ
digits_value String.[] n = some n
digits_value (String.◌∷◌ c s) n =
    let rest = digits_value s (n * 10 + (code c - b'0')) in
    if leb b'0' (code c) && leb (code c) b'9' then rest else none

abbrev unsigned : String → Option ℕ
unsigned String.[] = none
unsigned (String.◌∷◌ c s) = digits_value (String.◌∷◌ c s) 0

abbrev positive : Option ℕ → Option ℤ
positive none = none
positive (some n) = if ltb n (2 ^ 63) then some (pos n) else none

abbrev negative : Option ℕ → Option ℤ
negative none = none
negative (some n) =
    if n == 0 then some (pos 0) else if leb n (2 ^ 63) then some (negsuc (n - 1)) else none

unfoldable pub atoi : String → Option ℤ
atoi String.[] = none
atoi (String.◌∷◌ c s) =
    if code c == b'-'
    then negative (unsigned s)
    else if code c == b'+'
    then positive (unsigned s)
    else positive (unsigned (String.◌∷◌ c s))

-- `s[n:]`, of a text whose first n characters are single bytes.
abbrev pub cut_front : ℕ → String → String
cut_front n String.[] = String.[]
cut_front n (String.◌∷◌ c s) = if n == 0 then String.◌∷◌ c s else cut_front (n - 1) s
