-- ===== src/Config/Validation.antt =====
-- internal/config/config.go: `validate`, the first problem of a configuration.
use mailcow_watchdog.Prelude.{
  ℕ, Bool, false, not, ◌&&◌, ◌||◌, String, List, [], ◌∷◌, Option, none, some, ltb, str_eq, any,
  if◌then◌else◌,
}
use mailcow_watchdog.Prelude.Int.{pos, ltb_ℤ}
use mailcow_watchdog.Prelude.Text.{codes, contains, split_at_char}
use mailcow_watchdog.Prelude.Format.{str, int, sprintf}
use mailcow_watchdog.Config.Listen.{validate_listen}
use mailcow_watchdog.Config.{Library, CheckSpec, Checks, Notify, Config, all, spec_of, sorted_names}

-- A guard of `validate` with the rest of it: an early return of an error.
unfoldable pub refuse : Bool → String → Option String → Option String
refuse bad message rest = if bad then some message else rest

abbrev pub one_of : String → List String → Bool
one_of s options = any (str_eq s) options

-- `strings.Cut(url, ":")`: the scheme, if there is a colon.
abbrev pub scheme_of : String → Option String
scheme_of url = elim (split_at_char b':' url) [
  | [] ↦ none
  | scheme ∷ [] ↦ none
  | scheme ∷ _ ∷ _ ↦ some scheme
]

abbrev pub has_odd_scheme : String → Bool
has_odd_scheme url = elim (scheme_of url) [
  | none ↦ false
  | some scheme ↦ not (one_of scheme ("https" ∷ "http" ∷ "unix" ∷ []))
]

-- The loop of `validate` over the recipients.
unfoldable pub check_emails : List String → Option String → Option String
check_emails [] rest = rest
check_emails (addr ∷ addrs) rest =
    refuse (not (contains (codes addr) (codes "@")))
      (sprintf "WATCHDOG_NOTIFY_EMAIL contains %q, which is not an address" (str addr ∷ []))
      (check_emails addrs rest)

abbrev pub is_unsafe : Option CheckSpec → Bool
is_unsafe none = false
is_unsafe (some spec) = spec.enabled && ltb spec.threshold 1

abbrev pub threshold_of : Option CheckSpec → ℕ
threshold_of none = 0
threshold_of (some spec) = spec.threshold

-- The loop of `validate` over the sorted names.
unfoldable pub check_thresholds : Checks → List String → Option String → Option String
check_thresholds c [] rest = rest
check_thresholds c (name ∷ names) rest =
    refuse (is_unsafe (spec_of name (all c)))
      (sprintf "threshold for check %q must be at least 1 (got %d)"
        (str name ∷ int (threshold_of (spec_of name (all c))) ∷ []))
      (check_thresholds c names rest)

-- The block of `validate` about the webhook.
unfoldable pub check_webhook : Library → Notify → Option String → Option String
check_webhook lib n rest =
    if not (str_eq n.webhook "")
    then elim (lib.parse_url n.webhook) [
      | some e ↦ some (sprintf "WATCHDOG_NOTIFY_WEBHOOK is not a valid URL: %w" (str e ∷ []))
      | none ↦
          refuse (str_eq n.webhook_body "")
            "WATCHDOG_NOTIFY_WEBHOOK is set but WATCHDOG_NOTIFY_WEBHOOK_BODY is empty" rest
    ]
    else rest

-- `validate`: the first problem, if there is one.
unfoldable pub validate : Library → Config → Option String
validate lib c = refuse (str_eq c.mailcow.hostname "") "MAILCOW_HOSTNAME is not set" (
    refuse (str_eq c.mailcow.compose_project "") "COMPOSE_PROJECT_NAME is not set" (
      refuse (str_eq c.db.user "" || str_eq c.db.password "" || str_eq c.db.name "")
        "DBUSER, DBPASS and DBNAME must all be set"
        (refuse (c.checks.mysql_repl.enabled && str_eq c.db.root "")
          "DBROOT must be set when WATCHDOG_MYSQL_REPLICATION_CHECKS is enabled"
          (refuse (not (ltb_ℤ (pos 0) c.check_interval))
            (sprintf "WATCHDOG_CHECK_INTERVAL must be positive (got %s)"
              (str (lib.show_duration c.check_interval) ∷ []))
            (refuse
              (not (one_of c.docker.dialect ("" ∷ "auto" ∷ "mailcow" ∷ "engine" ∷ "docker" ∷ [])))
              (sprintf "DOCKER_API_DIALECT must be auto, mailcow or engine (got %q)"
                (str c.docker.dialect ∷ []))
              (refuse (has_odd_scheme c.docker.base_url)
                (sprintf "DOCKER_API_URL must use https:// or unix:// (got %q)"
                  (str c.docker.base_url ∷ []))
                (check_webhook lib c.notify (
                  check_emails c.notify.emails (
                    check_thresholds c.checks (sorted_names (all c.checks)) (
                      refuse (not (one_of c.log.level ("debug" ∷ "info" ∷ "warn" ∷ "error" ∷ [])))
                        (sprintf "LOG_LEVEL must be one of debug, info, warn, error (got %q)"
                          (str c.log.level ∷ []))
                        (refuse (not (one_of c.log.format ("json" ∷ "text" ∷ [])))
                          (sprintf "LOG_FORMAT must be json or text (got %q)"
                            (str c.log.format ∷ []))
                          (validate_listen "WATCHDOG_METRICS_LISTEN" c.listen))))))))))))
