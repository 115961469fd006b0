-- ===== src/Config/Listen.antt =====
-- internal/config/config.go: `validateListen`, with the error of `net.SplitHostPort`.
use mailcow_watchdog.Prelude.{
  ℕ, suc, ◌+◌, ◌-◌, Bool, String, [], ◌∷◌, Option, none, some, str_eq, ◌==◌, length, drop, any,
  if◌then◌else◌,
}
use mailcow_watchdog.Prelude.Text.{Text, codes, contains}
use mailcow_watchdog.Prelude.Format.{str, concat, sprintf}

-- The first and the last place of a code point in a text.
abbrev pub index_of : ℕ → Text → Option ℕ
index_of x [] = none
index_of x (c ∷ s) =
    let later : Option ℕ = elim (index_of x s) [ none ↦ none | some i ↦ some (suc i) ] in
    if c == x then some 0 else later

abbrev pub last_index_of : ℕ → Text → Option ℕ
last_index_of x [] = none
last_index_of x (c ∷ s) = elim (last_index_of x s) [
  | none ↦ if c == x then some 0 else none
  | some i ↦ some (suc i)
]

abbrev before : ℕ → Text → Text
before n [] = []
before n (c ∷ s) = if n == 0 then [] else c ∷ before (n - 1) s

abbrev pub holds : ℕ → Text → Bool
holds x s = any (λ c. c == x) s

-- The tests of `SplitHostPort` once the place of the host is known.
abbrev stray : Text → Text → Option String
stray rest tail =
    if holds b'[' rest
    then some "unexpected '[' in address"
    else if holds b']' tail
    then some "unexpected ']' in address"
    else none

abbrev bracketed : Text → ℕ → Option String
bracketed s i = elim (index_of b']' s) [
  | none ↦ some "missing ']' in address"
  | some end ↦
      if end + 1 == length s
      then some "missing port in address"
      else if end + 1 == i
      then stray (drop 1 s) (drop (end + 1) s)
      else if holds b':' (before 1 (drop (end + 1) s))
      then some "too many colons in address"
      else some "missing port in address"
]

-- `net.SplitHostPort`: what is wrong with an address.
unfoldable pub split_host_port_error : Text → Option String
split_host_port_error s = elim (last_index_of b':' s) [
  | none ↦ some "missing port in address"
  | some i ↦
      if holds b'[' (before 1 s)
      then bracketed s i
      else if holds b':' (before i s)
      then some "too many colons in address"
      else stray s s
]

-- `validateListen`.
unfoldable pub validate_listen : String → String → Option String
validate_listen name addr =
    if str_eq addr ""
    then none
    else if contains (codes addr) (codes "/")
    then some (
        sprintf "%s must be a listen address such as \":9393\", not a URL (got %q)"
          (str name ∷ str addr ∷ []))
    else elim (split_host_port_error (codes addr)) [
      | none ↦ none
      | some e ↦ some (
          sprintf "%s must be a host:port address such as \":9393\" (got %q): %w"
            (str name ∷ str addr ∷ str (concat ("address " ∷ addr ∷ ": " ∷ e ∷ [])) ∷ []))
    ]
