-- ===== src/DockerApi/Dialects.antt =====
-- internal/dockerapi/dialect.go: which flavour of API is spoken.
use mailcow_watchdog.Prelude.{
  Bool, true, false, ◌||◌, String, [], ◌∷◌, Result, ok, err, str_eq, if◌then◌else◌,
}
use mailcow_watchdog.Prelude.Text.{trim_string, lower_string}
use mailcow_watchdog.Prelude.Format.{str, sprintf}

pub data Dialect : Type 0 where
  auto mailcow engine : Dialect

abbrev pub is_engine : Dialect → Bool
is_engine engine = true
is_engine _ = false

-- `Dialect.String`.
abbrev pub dialect_name : Dialect → String
dialect_name auto = "auto"
dialect_name mailcow = "mailcow"
dialect_name engine = "engine"

-- `ParseDialect`.
unfoldable pub parse_dialect : String → Result String Dialect
parse_dialect value =
    let v = lower_string (trim_string value) in
    if str_eq v "" || str_eq v "auto"
    then ok auto
    else if str_eq v "mailcow"
    then ok mailcow
    else if str_eq v "engine" || str_eq v "docker"
    then ok engine
    else err (sprintf "unknown dialect %q, want auto, mailcow or engine" (str value ∷ []))

-- The choice at the end of `New`: an explicit dialect wins over what the scheme implies.
unfoldable pub effective_dialect : Dialect → Dialect → Dialect
effective_dialect auto implied = implied
effective_dialect chosen implied = chosen
