-- ===== src/Prelude/Json/Reading.antt =====
-- A JSON reader of string literals, and what it makes of an escaped value.
use Prim.Native.Nat.{ℕ, ◌+◌, ◌-◌, ◌*◌, ◌/◌, ◌%◌, ◌<◌}
use mathlib.Core.Path.{◌≡◌, refl, sym, ap, ◌∙◌}
use mathlib.Core.Bool.{◌&&◌, ◌||◌}
use mathlib.Core.Option.{Option, none, some}
use mathlib.Core.List.{[], ◌∷◌, ◌++◌, append_assoc}
use native.Mathlib.Omega.{arith}
use mailcow_watchdog.Prelude.Tests.{ltb, leb, ◌==◌, ltb→lt, by_test, if◌then◌else◌}
use mailcow_watchdog.Prelude.Text.{Text}
use mailcow_watchdog.Prelude.Json.{hex, escape_char, escape_all}

-- Where in a literal the reader is: after a backslash, or in a `\u` with so many digits to come and
-- the value so far. Surrogate pairs are not joined.
pub data Mode : Type 0 where
  plain : Mode
  escaped : Mode
  digits : ℕ → ℕ → Mode

abbrev pub named_escape : ℕ → Option ℕ
named_escape c =
    if c == b'"' || c == b'\\' || c == b'/'
    then some c
    else if c == b'b'
    then some 8
    else if c == b't'
    then some 9
    else if c == b'n'
    then some 10
    else if c == b'f'
    then some 12
    else if c == b'r'
    then some 13
    else none

abbrev pub hex_value : ℕ → Option ℕ
hex_value c =
    if leb b'0' c && leb c b'9'
    then some (c - b'0')
    else if leb b'a' c && leb c b'f'
    then some (c - b'a' + 10)
    else if leb b'A' c && leb c b'F'
    then some (c - b'A' + 10)
    else none

abbrev pub with_char : Option ℕ → Option (Text × Text) → Option (Text × Text)
with_char none rest = none
with_char (some c) none = none
with_char (some c) (some (s, rest)) = some (c ∷ s, rest)

-- Reads a string literal up to its closing quote: its value and what follows.
unfoldable pub read_literal : Mode → Text → Option (Text × Text)
read_literal mode [] = none
read_literal plain (c ∷ s) =
    let next = read_literal plain s in
    let after = read_literal escaped s in
    if c == b'"'
    then some ([], s)
    else if c == b'\\'
    then after
    else if ltb c 0x20
    then none
    else with_char (some c) next
read_literal escaped (c ∷ s) =
    let next = read_literal plain s in
    let code = read_literal (digits 4 0) s in
    if c == b'u' then code else with_char (named_escape c) next
read_literal (digits n value) (c ∷ s) =
    let d = hex_value c in
    elim d [
      | none ↦ none
      | some d ↦
          let next = read_literal plain s in
          let more = read_literal (digits (n - 1) (value * 16 + d)) s in
          if leb n 1 then with_char (some (value * 16 + d)) next else more
    ]

pub hex_value-hex : (d : ℕ) → d < 16 → hex_value (hex d) ≡ some d
hex_value-hex d h = ground arith

pub read_literal_unicode :
    (a b c d va vb vc vd : ℕ) (rest : Text)
    → hex_value a ≡ some va
    → hex_value b ≡ some vb
    → hex_value c ≡ some vc
    → hex_value d ≡ some vd
    → read_literal plain (b'\\' ∷ b'u' ∷ a ∷ b ∷ c ∷ d ∷ rest)
      ≡ with_char (some (((va * 16 + vb) * 16 + vc) * 16 + vd)) (read_literal plain rest)
unfolding read_literal
read_literal_unicode a b c d va vb vc vd rest ha hb hc hd =
    rw ha (rw hb (rw hc (rw hd (ground arith))))

-- A text is read as the one code point in front.
abbrev pub Reads : ℕ → Text → Text → Type 0
Reads c rest t = read_literal plain (t ++ rest) ≡ with_char (some c) (read_literal plain rest)

pub read_literal-escape_char : (c : ℕ) (rest : Text) → Reads c rest (escape_char c)
unfolding escape_char read_literal
read_literal-escape_char c rest =
    by_test (Reads c rest) (c == b'"' || c == b'\\') (λ e. ground arith)
      (λ q.
        by_test (Reads c rest) (c == 8) (λ e. ground arith)
          (λ _.
            by_test (Reads c rest) (c == 9) (λ e. ground arith)
              (λ _.
                by_test (Reads c rest) (c == 10) (λ e. ground arith)
                  (λ _.
                    by_test (Reads c rest) (c == 12) (λ e. ground arith)
                      (λ _.
                        by_test (Reads c rest) (c == 13) (λ e. ground arith)
                          (λ _.
                            by_test (Reads c rest) (ltb c 0x20)
                              (λ e.
                                let n = ltb→lt c 0x20 e in
                                read_literal_unicode b'0' b'0' (hex (c / 16)) (hex (c % 16)) 0 0
                                  (c / 16) (c % 16) rest refl refl
                                  (hex_value-hex (c / 16) (omega arith))
                                  (hex_value-hex (c % 16) (omega arith))
                                ∙ ap (λ x. with_char (some x) (read_literal plain rest))
                                    (omega arith))
                              (λ k.
                                by_test (Reads c rest) (c == 0x2028 || c == 0x2029)
                                  (λ e.
                                    read_literal_unicode b'2' b'0' b'2' (hex (c % 16)) 2 0 2
                                      (c % 16) rest refl refl refl
                                      (hex_value-hex (c % 16) (omega arith))
                                    ∙ ap (λ x. with_char (some x) (read_literal plain rest))
                                        (ground arith))
                                  (λ _. ground arith))))))))

-- An escaped value, and the rest of the literal behind it.
unfoldable pub prefixed : Text → Option (Text × Text) → Option (Text × Text)
prefixed value none = none
prefixed value (some (s, rest)) = some (value ++ s, rest)

pub prefixed-with_char :
    (c : ℕ) (s : Text) (r : Option (Text × Text))
    → with_char (some c) (prefixed s r) ≡ prefixed (c ∷ s) r
unfolding prefixed
prefixed-with_char c s none = refl
prefixed-with_char c s (some (t, rest)) = refl

pub prefixed-nil : (r : Option (Text × Text)) → prefixed [] r ≡ r
unfolding prefixed
prefixed-nil none = refl
prefixed-nil (some (t, rest)) = refl

-- A reader that comes to an escaped value in a literal reads the value itself, and goes on behind it.
pub read_literal-escape_all :
    (value rest : Text)
    → read_literal plain (escape_all value ++ rest) ≡ prefixed value (read_literal plain rest)
unfolding escape_all
read_literal-escape_all [] rest = sym (prefixed-nil (read_literal plain rest))
read_literal-escape_all (c ∷ s) rest =
    ap (read_literal plain) (append_assoc (escape_char c) (escape_all s) rest)
    ∙ read_literal-escape_char c (escape_all s ++ rest)
    ∙ ap (with_char (some c)) (read_literal-escape_all s rest)
    ∙ prefixed-with_char c s (read_literal plain rest)
