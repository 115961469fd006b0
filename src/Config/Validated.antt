-- ===== src/Config/Validated.antt =====
-- What a configuration that was loaded can be relied on for.
use mailcow_watchdog.Prelude.{
  ◌≤◌, ◌≡◌, ◌≢◌, refl, Bool, true, false, not, String, List, [], ◌∷◌, Option, none, some, Result,
  ok, err, str_eq, eq_refl, eq_iff, any, sym, All, Option-cases, Bool-cases, ◌⊎◌, inl, inr, arith,
  subst,
}
use mailcow_watchdog.Prelude.Int.{pos, ltb_ℤ}
use mailcow_watchdog.Prelude.Text.{codes, contains}
use mailcow_watchdog.Config.{Library, CheckSpec, Checks, Config, all, spec_of, sorted_names}
use mailcow_watchdog.Config.Validation.{
  refuse, one_of, is_unsafe, check_emails, check_thresholds, check_webhook, validate,
}
use mailcow_watchdog.Config.Env.{Lookup, env_err}
use mailcow_watchdog.Config.Load.{read_config, load}

-- The promises about one check and about one recipient.
abbrev pub IsSafeSpec : CheckSpec → Type 0
IsSafeSpec spec = (spec.enabled ≡ false) ⊎ (1 ≤ spec.threshold)

abbrev IsSafe : Option CheckSpec → Type 0
IsSafe none = Unit
IsSafe (some spec) = IsSafeSpec spec

-- The twenty checks that a configuration has, one for each field.
abbrev pub specs : Checks → List CheckSpec
specs c =
    c.external ∷ c.nginx ∷ c.unbound ∷ c.redis ∷ c.mysql ∷ c.mysql_repl ∷ c.sogo ∷ c.postfix
    ∷ c.postfix_tlspol ∷ c.clamd ∷ c.dovecot ∷ c.dovecot_repl ∷ c.cert ∷ c.php_fpm ∷ c.ratelimit
    ∷ c.mailq ∷ c.fail2ban ∷ c.acme ∷ c.rspamd ∷ c.olefy ∷ []

abbrev pub HasAt : String → Type 0
HasAt addr = contains (codes addr) (codes "@") ≡ true

pub record IsConfig (c : Config) : Type 0 where
  pub hostname : c.mailcow.hostname ≢ ""
  pub project : c.mailcow.compose_project ≢ ""
  pub interval : ltb_ℤ (pos 0) c.check_interval ≡ true
  pub dialect : one_of c.docker.dialect ("" ∷ "auto" ∷ "mailcow" ∷ "engine" ∷ "docker" ∷ []) ≡ true
  pub emails : All HasAt c.notify.emails
  pub checks : All IsSafeSpec (specs c.checks)
  pub level : one_of c.log.level ("debug" ∷ "info" ∷ "warn" ∷ "error" ∷ []) ≡ true

refuse-none :
    (bad : Bool) (m : String) (rest : Option String)
    → refuse bad m rest ≡ none
    → (bad ≡ false) × (rest ≡ none)
unfolding refuse
refuse-none bad m rest h = ground (arith, h)

not-false : (b : Bool) → not b ≡ false → b ≡ true
not-false b h = ground (arith, h)

check_emails-none :
    (addrs : List String) (rest : Option String)
    → check_emails addrs rest ≡ none
    → All HasAt addrs × (rest ≡ none)
unfolding check_emails
check_emails-none [] rest h = (tt, h)
check_emails-none (addr ∷ addrs) rest h =
    let (b, h') = refuse-none _ _ _ h in
    let (v, r) = check_emails-none addrs rest h' in ((not-false _ b, v), r)

is_unsafe-IsSafe : (spec : Option CheckSpec) → is_unsafe spec ≡ false → IsSafe spec
is_unsafe-IsSafe none h = tt
is_unsafe-IsSafe (some spec) h = elim (Bool-cases spec.enabled) [
  | inl e ↦ inr (ground (arith, h, e))
  | inr e ↦ inl e
]

check_thresholds-none :
    (c : Checks) (names : List String) (rest : Option String)
    → check_thresholds c names rest ≡ none
    → All (λ name. IsSafe (spec_of name (all c))) names × (rest ≡ none)
unfolding check_thresholds
check_thresholds-none c [] rest h = (tt, h)
check_thresholds-none c (name ∷ names) rest h =
    let (b, h') = refuse-none _ _ _ h in
    let (v, r) = check_thresholds-none c names rest h' in
    ((is_unsafe-IsSafe (spec_of name (all c)) b, v), r)

check_webhook-none :
    (lib : Library) (c : Config) (rest : Option String)
    → check_webhook lib c.notify rest ≡ none
    → rest ≡ none
unfolding check_webhook refuse
check_webhook-none lib c rest h = ground (arith, h)

is_set : (s : String) → str_eq s "" ≡ false → s ≢ ""
is_set s h = λ e. ground (arith, h, eq_refl "", subst (λ t. str_eq t "" ≡ false) e h)

-- What holds of all the names holds of each.
pick :
    (P : String → Type 0) (name : String) (names : List String)
    → All P names
    → any (str_eq name) names ≡ true
    → P name
pick P name [] h e = absurd (ground (arith, e))
pick P name (n ∷ ns) h e = elim (Bool-cases (str_eq name n)) [
  | inl same ↦ subst P (sym ((eq_iff name n).0 same)) h.0
  | inr other ↦ pick P name ns h.1 (rw other at e)
]

-- A promise about one more check.
infixr 4 ◌also◌
abbrev pub ◌also◌ : {A B : Type 0} → A → B → A × B
a also b = (a, b)

-- Each field of the record is under one of the names.
checks_by_field :
    (c : Checks)
    → All (λ name. IsSafe (spec_of name (all c))) (sorted_names (all c))
    → All IsSafeSpec (specs c)
checks_by_field c h =
    let at = pick (λ name. IsSafe (spec_of name (all c))) in
    let names = sorted_names (all c) in
    at "external" names h refl
    also at "nginx" names h refl
    also at "unbound" names h refl
    also at "redis" names h refl
    also at "mysql" names h refl
    also at "mysql-repl" names h refl
    also at "sogo" names h refl
    also at "postfix" names h refl
    also at "postfix-tlspol" names h refl
    also at "clamd" names h refl
    also at "dovecot" names h refl
    also at "dovecot-repl" names h refl
    also at "cert" names h refl
    also at "php-fpm" names h refl
    also at "ratelimit" names h refl
    also at "mailq" names h refl
    also at "fail2ban" names h refl
    also at "acme" names h refl
    also at "rspamd" names h refl
    also at "olefy" names h refl
    also tt

validate-IsConfig : (lib : Library) (c : Config) → validate lib c ≡ none → IsConfig c
unfolding validate
validate-IsConfig lib c h =
    let (hostname, h₁) = refuse-none _ _ _ h in
    let (project, h₂) = refuse-none _ _ _ h₁ in
    let (_, h₃) = refuse-none _ _ _ h₂ in
    let (_, h₄) = refuse-none _ _ _ h₃ in
    let (interval, h₅) = refuse-none _ _ _ h₄ in
    let (dialect, h₆) = refuse-none _ _ _ h₅ in
    let (_, h₇) = refuse-none _ _ _ h₆ in
    let (emails, h₈) = check_emails-none c.notify.emails _ (check_webhook-none lib c _ h₇) in
    let (checks, h₉) = check_thresholds-none c.checks (sorted_names (all c.checks)) _ h₈ in
    let (level, _) = refuse-none _ _ _ h₉ in
    record {
      hostname = is_set _ hostname;
      project = is_set _ project;
      interval = not-false _ interval;
      dialect = not-false _ dialect;
      emails = emails;
      checks = checks_by_field c.checks checks;
      level = not-false _ level;
    }

accepted : (lib : Library) (cfg : Config) → Result String Config
accepted lib cfg = elim (validate lib cfg) [ some e ↦ err e | none ↦ ok cfg ]

accepted-ok :
    (lib : Library) (cfg c : Config)
    → accepted lib cfg ≡ ok c
    → (cfg ≡ c) × (validate lib cfg ≡ none)
unfolding accepted
accepted-ok lib cfg c h = elim (Option-cases (validate lib cfg)) [
  | inl e ↦ (let h' : Result.ok cfg ≡ Result.ok c = rw (e, accepted) at h in ground (arith, h'), e)
  | inr (m, e) ↦ absurd (ground (arith, rw (e, accepted) at h))
]

gathered :
    (lib : Library) (cfg c : Config) (errs : List String)
    → elim (env_err errs) [ some e ↦ err e | none ↦ accepted lib cfg ] ≡ ok c
    → IsConfig c × (cfg ≡ c) × (errs ≡ [])
unfolding env_err
gathered lib cfg c [] h =
    let (same, v) = accepted-ok lib cfg c h in
    (subst IsConfig same (validate-IsConfig lib cfg v), same, refl)
gathered lib cfg c (e ∷ errs) h = absurd (ground (arith, h))

-- A configuration that loads comes from variables of which none was malformed, and is safe to run:
-- the stack is named, the interval is positive, the dialect and the log level are known ones, every
-- recipient contains an @, and each of the twenty checks that is enabled has a threshold of at least
-- one.
pub load-IsConfig :
    (lib : Library) (look : Lookup) (c : Config)
    → load lib look ≡ ok c
    → IsConfig c × ((read_config lib look []).0 ≡ c) × ((read_config lib look []).1 ≡ [])
unfolding load accepted
load-IsConfig lib look c h =
    gathered lib (read_config lib look []).0 c (read_config lib look []).1 h
