-- ===== src/Config/Env.antt =====
-- internal/config/load.go: reading one variable of the environment. The errors of malformed variables
-- are gathered while the variables are read.
use mailcow_watchdog.Prelude.{
  ℕ, ◌+◌, Bool, ◌||◌, String, List, [], ◌∷◌, ◌++◌, Option, none, some, ◌==◌, str_eq, if◌then◌else◌,
}
use mailcow_watchdog.Prelude.Int.{ℤ, pos, negsuc}
use mailcow_watchdog.Prelude.Text.{trim_string, trim_of, lower_string, split_at_char, atoi}
use mailcow_watchdog.Prelude.Format.{str, concat, itoa, sprintf}
use mailcow_watchdog.Check.{join}
use mailcow_watchdog.Config.{Library}
use mailcow_watchdog.Config.Validation.{one_of}

-- `Lookup`: the value of a variable that is set.
abbrev pub Lookup : Type 0
Lookup = String → Option String

-- A reading that may add to the errors so far.
abbrev pub Loader {ℓ} : Type ℓ → Type ℓ
Loader A = List String → A × List String

infixl 5 ◌>>=◌
abbrev pub ◌>>=◌ {ℓ κ} : {A : Type ℓ} {B : Type κ} → Loader A → (A → Loader B) → Loader B
(m >>= f) errs = let (a, errs') = m errs in f a errs'

abbrev pub pure {ℓ} : {A : Type ℓ} → A → Loader A
pure a errs = (a, errs)

-- The raw value of a variable that is set and not blank.
abbrev pub present : Lookup → String → Option String
present look key = elim (look key) [
  | none ↦ none
  | some v ↦ if str_eq (trim_string v) "" then none else some v
]

-- `env.str`.
unfoldable pub env_str : Lookup → String → String → String
env_str look key default = elim (present look key) [ none ↦ default | some v ↦ trim_string v ]

-- `env.int`.
unfoldable pub env_int : Lookup → String → ℕ → Loader ℕ
env_int look key default errs = elim (present look key) [
  | none ↦ (default, errs)
  | some raw ↦ elim (atoi (trim_string raw)) [
    | none ↦
        (default, errs ++ sprintf "%s must be an integer (got %q)" (str key ∷ str raw ∷ []) ∷ [])
    | some (pos n) ↦ (n, errs)
    | some (negsuc n) ↦ (
      default,
      errs
          ++ sprintf "%s must not be negative (got %d)"
              (str key ∷ str (concat ("-" ∷ itoa (n + 1) ∷ [])) ∷ [])
            ∷ [],
    )
  ]
]

-- `env.duration`.
unfoldable pub env_duration : Library → Lookup → String → ℤ → Loader ℤ
env_duration lib look key default errs = elim (present look key) [
  | none ↦ (default, errs)
  | some raw ↦ elim (lib.parse_duration (trim_string raw)) [
    | none ↦ (
      default,
      errs ++ sprintf "%s must be a duration such as 30s (got %q)" (str key ∷ str raw ∷ []) ∷ [],
    )
    | some d ↦ (d, errs)
  ]
]

-- `env.err`.
unfoldable pub env_err : List String → Option String
env_err [] = none
env_err (e ∷ errs) = some (sprintf "invalid configuration: %s" (str (join "; " (e ∷ errs)) ∷ []))

-- `isYes` and `isNo`.
unfoldable pub is_yes : String → Bool
is_yes v = one_of (lower_string (trim_string v)) ("y" ∷ "yes" ∷ [])

unfoldable pub is_no : String → Bool
is_no v = one_of (lower_string (trim_string v)) ("n" ∷ "no" ∷ [])

abbrev is_quote : ℕ → Bool
is_quote c = c == b'"' || c == b'\''

-- The loop of `splitAddresses` over the parts.
unfoldable pub keep_addresses : List String → List String
keep_addresses [] = []
keep_addresses (part ∷ parts) =
    let p = trim_of is_quote (trim_string part) in
    if str_eq p "" then keep_addresses parts else p ∷ keep_addresses parts

-- `splitAddresses`.
unfoldable pub split_addresses : String → List String
split_addresses raw =
    let r = trim_of is_quote (trim_string raw) in
    if str_eq r "" then [] else keep_addresses (split_at_char b',' r)
