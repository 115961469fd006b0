-- ===== src/Config.antt =====
-- internal/config/config.go: the configuration. Thresholds are natural numbers,
-- since the loader refuses negative ones; a duration can be negative. What the standard library
-- makes of a duration and of a URL is a record of parameters.
pub mod Listen
pub mod Validated
pub mod Env
pub mod Load
pub mod Validation
use mailcow_watchdog.Prelude.{
  ℕ, Bool, true, false, not, ◌&&◌, ◌||◌, String, List, [], ◌∷◌, map, Option, none, some, ltb,
  str_eq, any, if◌then◌else◌,
}
use mailcow_watchdog.Prelude.Int.{ℤ, pos, ltb_ℤ}
use mailcow_watchdog.Prelude.Text.{codes, contains, sort, split_at_char}
use mailcow_watchdog.Prelude.Format.{str, int, sprintf}

-- `time.ParseDuration`, `Duration.String` and the error of `url.Parse`.
pub record Library : Type 0 where
  pub parse_duration : String → Option ℤ
  pub show_duration : ℤ → String
  pub parse_url : String → Option String

pub record CheckSpec : Type 0 where
  pub enabled : Bool
  pub threshold : ℕ

pub record Checks : Type 0 where
  pub external : CheckSpec
  pub nginx : CheckSpec
  pub unbound : CheckSpec
  pub redis : CheckSpec
  pub mysql : CheckSpec
  pub mysql_repl : CheckSpec
  pub sogo : CheckSpec
  pub postfix : CheckSpec
  pub postfix_tlspol : CheckSpec
  pub clamd : CheckSpec
  pub dovecot : CheckSpec
  pub dovecot_repl : CheckSpec
  pub cert : CheckSpec
  pub php_fpm : CheckSpec
  pub ratelimit : CheckSpec
  pub mailq : CheckSpec
  pub fail2ban : CheckSpec
  pub acme : CheckSpec
  pub rspamd : CheckSpec
  pub olefy : CheckSpec
  pub mailq_critical : ℕ

pub record Mailcow : Type 0 where
  pub hostname : String
  pub compose_project : String
  pub ipv4_network : String
  pub ipv6_network : String

pub record Db : Type 0 where
  pub socket : String
  pub user : String
  pub password : String
  pub name : String
  pub root : String

pub record Redis : Type 0 where
  pub addr : String
  pub password : String
  pub local_addr : String

pub record Docker : Type 0 where
  pub base_url : String
  pub dialect : String
  pub use_api : Bool

pub record Log : Type 0 where
  pub level : String
  pub format : String

pub record Notify : Type 0 where
  pub emails : List String
  pub webhook : String
  pub webhook_body : String
  pub subject : String
  pub on_start : Bool
  pub on_ban : Bool
  pub from : String
  pub helo : String

pub record Config : Type 0 where
  pub enabled : Bool
  pub verbose : Bool
  pub settle_delay : ℤ
  pub check_interval : ℤ
  pub mailcow : Mailcow
  pub db : Db
  pub redis : Redis
  pub docker : Docker
  pub notify : Notify
  pub checks : Checks
  pub log : Log
  pub listen : String
  pub mailq_dir : String

-- `DSN`, `AppDSN` and `RootDSN`.
unfoldable pub dsn : Db → String → String → String → String
dsn d user password database =
    sprintf "%s:%s@unix(%s)/%s?tls=false&parseTime=true&timeout=5s&readTimeout=10s"
      (str user ∷ str password ∷ str d.socket ∷ str database ∷ [])

unfoldable pub app_dsn : Db → String
app_dsn d = dsn d d.user d.password d.name

unfoldable pub root_dsn : Db → String
root_dsn d = dsn d "root" d.root ""

-- `Notify.Enabled`.
unfoldable pub notify_enabled : Notify → Bool
notify_enabled n = elim n.emails [ [] ↦ not (str_eq n.webhook "") | _ ∷ _ ↦ true ]

-- `All`: a map as an association list.
abbrev pub all : Checks → List (String × CheckSpec)
all c =
    ("external", c.external)
    ∷ ("nginx", c.nginx)
    ∷ ("unbound", c.unbound)
    ∷ ("redis", c.redis)
    ∷ ("mysql", c.mysql)
    ∷ ("mysql-repl", c.mysql_repl)
    ∷ ("sogo", c.sogo)
    ∷ ("postfix", c.postfix)
    ∷ ("postfix-tlspol", c.postfix_tlspol)
    ∷ ("clamd", c.clamd)
    ∷ ("dovecot", c.dovecot)
    ∷ ("dovecot-repl", c.dovecot_repl)
    ∷ ("cert", c.cert)
    ∷ ("php-fpm", c.php_fpm)
    ∷ ("ratelimit", c.ratelimit)
    ∷ ("mailq", c.mailq)
    ∷ ("fail2ban", c.fail2ban)
    ∷ ("acme", c.acme)
    ∷ ("rspamd", c.rspamd)
    ∷ ("olefy", c.olefy)
    ∷ []

-- `m[name]` and whether the name is a key.
abbrev pub spec_of : String → List (String × CheckSpec) → Option CheckSpec
spec_of name [] = none
spec_of name ((key, spec) ∷ more) = if str_eq key name then some spec else spec_of name more

-- `sortedNames`.
abbrev pub sorted_names : List (String × CheckSpec) → List String
sorted_names m = sort (map (λ e. e.0) m)
