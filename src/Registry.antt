-- ===== src/Registry.antt =====
-- internal/check/registry.go: the table of the checks and how `Build` makes the enabled ones of it. A
-- probe is the description with which its constructor is called; what `Build` only passes on is left
-- out: the resolver, the stores, the database handles, and the constants for the DNS port, the relay
-- endpoint and the default timeout.
pub mod Built
use mailcow_watchdog.Probe.Mysql.{guid}
use mailcow_watchdog.Prelude.{
  ℕ, ◌*◌, Bool, true, false, String, List, [], ◌∷◌, Option, none, some, Result, ok, err, ◌>>=◌,
  str_eq, if◌then◌else◌,
}
use mailcow_watchdog.Prelude.Format.{str, concat, sprintf}
use mailcow_watchdog.Check.{second, minute, Interval}
use mailcow_watchdog.Check.Cadence.{Windows, intervals}
use mailcow_watchdog.Probe.Smtp.{Command, SmtpOptions}
use mailcow_watchdog.Config.{Config, CheckSpec, all, spec_of}

-- The constructors of package probe with their arguments.
pub data ProbePlan : Type 0 where
  http : String → String → ℕ → String → ProbePlan
  tcp : String → String → ℕ → String → String → ProbePlan
  dns : String → String → String → ProbePlan
  dnssec : String → String → String → ProbePlan
  smtp : String → String → ℕ → SmtpOptions → ProbePlan
  imap : String → String → ℕ → Bool → String → ℕ → ProbePlan
  mysql_ping : String → ProbePlan
  mysql_query : String → String → ProbePlan
  mysql_replication : String → ProbePlan
  redis_ping : String → ProbePlan
  redis_flag : String → String → String → ProbePlan
  redis_change : String → String → ProbePlan
  ratelimit_log : String → ProbePlan
  active_bans : String → ProbePlan
  relay : String → String → ProbePlan
  mailq : String → String → ℕ → ProbePlan
  rspamd : String → String → ProbePlan
  milter : String → String → ℕ → ProbePlan
  cost : ℕ → ProbePlan → ProbePlan

pub record Plan : Type 0 where
  pub name : String
  pub service : String
  pub event : String
  pub threshold : ℕ
  pub interval : Interval
  pub dead_delay : ℕ
  pub probes : List ProbePlan

abbrev entry : String → String → String → ℕ → Interval → ℕ → List ProbePlan → Plan
entry name service event threshold interval dead_delay probes = record {
  name = name;
  service = service;
  event = event;
  threshold = threshold;
  interval = interval;
  dead_delay = dead_delay;
  probes = probes;
}

abbrev pub cert_threshold : ℕ
cert_threshold = 7

-- The options of the mail transaction, of the STARTTLS handshakes and of the LMTP look-up.
abbrev transaction : String → SmtpOptions
transaction hostname = record {
  lmtp = false;
  helo = hostname;
  from = "watchdog@invalid";
  commands =
      record { send = "RCPT TO:watchdog@localhost"; expect = "250" }
      ∷ record { send = "DATA"; expect = "" }
      ∷ record { send = "."; expect = "" }
      ∷ [];
  start_tls = false;
  min_cert_days = 0;
}

abbrev starttls : String → ℕ → SmtpOptions
starttls hostname days = record {
  lmtp = false;
  helo = hostname;
  from = "";
  commands = [];
  start_tls = true;
  min_cert_days = days;
}

abbrev delivery : String → SmtpOptions
delivery hostname = record {
  lmtp = true;
  helo = hostname;
  from = "watchdog@invalid";
  commands = record { send = "RCPT TO:<watchdog@invalid>"; expect = "User doesn't exist" } ∷ [];
  start_tls = false;
  min_cert_days = 0;
}

abbrev window : Config → Windows
window c = intervals c.check_interval

-- The literal `all` of `Build`.
abbrev pub table : Config → List Plan
table c =
    entry "nginx" "Nginx" "nginx-mailcow" c.checks.nginx.threshold (window c).standard second
      (http "http-8081" "nginx-mailcow" 8081 "/" ∷ [])
    ∷ entry "external" "External checks" "external_checks" c.checks.external.threshold
        (window c).external minute []
    ∷ entry "mysql-repl" "MySQL/MariaDB replication" "mysql_repl_checks"
        c.checks.mysql_repl.threshold (window c).standard minute
        (mysql_replication "replica-status" ∷ [])
    ∷ entry "mysql" "MySQL/MariaDB" "mysql-mailcow" c.checks.mysql.threshold (window c).standard
        second
        (mysql_ping "connect"
          ∷ mysql_query "table-count" "SELECT COUNT(*) FROM information_schema.tables"
          ∷ [])
    ∷ entry "redis" "Redis" "redis-mailcow" c.checks.redis.threshold (window c).standard second
        (redis_ping "ping" ∷ [])
    ∷ entry "php-fpm" "PHP-FPM" "php-fpm-mailcow" c.checks.php_fpm.threshold (window c).standard
        second
        (tcp "fpm-9001" "php-fpm-mailcow" 9001 "" ""
          ∷ tcp "fpm-9002" "php-fpm-mailcow" 9002 "" ""
          ∷ [])
    ∷ entry "sogo" "SOGo" "sogo-mailcow" c.checks.sogo.threshold (window c).standard second
        (http "http-20000" "sogo-mailcow" 20000 "/SOGo.index/" ∷ [])
    ∷ entry "unbound" "Unbound" "unbound-mailcow" c.checks.unbound.threshold (window c).standard
        second
        (dns "lookup" "unbound-mailcow" "stackoverflow.com"
          ∷ cost 1 (dnssec "dnssec" "unbound-mailcow" "com")
          ∷ [])
    ∷ entry "clamd" "Clamd" "clamd-mailcow" c.checks.clamd.threshold (window c).clamd second
        (tcp "ping" "clamd-mailcow" 3310 "PING\n" "PONG" ∷ [])
    ∷ entry "postfix" "Postfix" "postfix-mailcow" c.checks.postfix.threshold (window c).standard
        second
        (smtp "transaction" "postfix-mailcow" 589 (transaction c.mailcow.hostname)
          ∷ smtp "starttls" "postfix-mailcow" 589 (starttls c.mailcow.hostname 0)
          ∷ [])
    ∷ entry "mailq" "Mail queue" "mail_queue_status" c.checks.mailq.threshold (window c).standard
        minute (cost 1 (mailq "deferred" c.mailq_dir c.checks.mailq_critical) ∷ [])
    ∷ entry "postfix-tlspol" "Postfix TLS Policy companion" "postfix-tlspol-mailcow"
        c.checks.postfix_tlspol.threshold (window c).standard second
        (tcp "tlspol-8642" "postfix-tlspol-mailcow" 8642 "" "" ∷ [])
    ∷ entry "dovecot" "Dovecot" "dovecot-mailcow" c.checks.dovecot.threshold (window c).standard
        second
        (smtp "lmtp-24" "dovecot-mailcow" 24 (delivery c.mailcow.hostname)
          ∷ imap "imaps-993" "dovecot-mailcow" 993 true "OK " 0
          ∷ imap "imap-143" "dovecot-mailcow" 143 false "OK " 0
          ∷ tcp "replication-10001" "dovecot-mailcow" 10001 "" "VERSION"
          ∷ tcp "managesieve-4190" "dovecot-mailcow" 4190 "" "Dovecot ready"
          ∷ [])
    ∷ entry "dovecot-repl" "Dovecot replication" "dovecot_repl_checks"
        c.checks.dovecot_repl.threshold (window c).standard minute
        (cost 1 (redis_flag "repl-health" "DOVECOT_REPL_HEALTH" "1") ∷ [])
    ∷ entry "rspamd" "Rspamd" "rspamd-mailcow" c.checks.rspamd.threshold (window c).standard second
        (cost 1 (rspamd "settings" "/var/lib/rspamd/rspamd.sock")
          ∷ cost 1 (milter "milter" "rspamd-mailcow" 9900)
          ∷ [])
    ∷ entry "ratelimit" "Ratelimit" "ratelimit" c.checks.ratelimit.threshold (window c).standard
        second []
    ∷ entry "fail2ban" "Fail2ban" "fail2ban" c.checks.fail2ban.threshold (window c).standard second
        []
    ∷ entry "cert" "Primary certificate expiry check" "certcheck" cert_threshold (window c).cert
        (5 * minute)
        (smtp "postfix-cert" "postfix-mailcow" 589 (starttls c.mailcow.hostname cert_threshold)
          ∷ imap "dovecot-cert" "dovecot-mailcow" 993 true "" cert_threshold
          ∷ [])
    ∷ entry "olefy" "Olefy" "olefy-mailcow" c.checks.olefy.threshold (window c).standard second
        (tcp "olefy-10055" "olefy-mailcow" 10055 "PING\n" "" ∷ [])
    ∷ entry "acme" "ACME" "acme-mailcow" c.checks.acme.threshold (window c).standard second
        (cost 1 (redis_change "fail-time" "ACME_FAIL_TIME") ∷ [])
    ∷ []

-- `attachStatefulProbes`: the three checks whose probes also supply a notification's body.
abbrev pub attach : Plan → Plan
attach p =
    if str_eq p.name "ratelimit"
    then record p { probes = cost 1 (ratelimit_log "rl-log") ∷ [] }
    else if str_eq p.name "external"
    then record p {
      probes = cost 1 (relay "relay-ipv4" "tcp4") ∷ cost 1 (relay "relay-ipv6" "tcp6") ∷ [];
    }
    else if str_eq p.name "fail2ban"
    then record p { probes = cost 1 (active_bans "active-bans") ∷ [] }
    else p

abbrev pub attach_all : List Plan → List Plan
attach_all [] = []
attach_all (p ∷ ps) = attach p ∷ attach_all ps

-- The loop of `Build` over the checks.
unfoldable pub keep_enabled : List (String × CheckSpec) → List Plan → Result String (List Plan)
keep_enabled enabled [] = ok []
keep_enabled enabled (p ∷ ps) =
    let rest = keep_enabled enabled ps in
    elim (spec_of p.name enabled) [
      | none ↦ err (sprintf "check %q has no configuration entry" (str p.name ∷ []))
      | some spec ↦
          if spec.enabled
          then elim p.probes [
            | [] ↦ err (sprintf "check %q is enabled but has no probes" (str p.name ∷ []))
            | _ ∷ _ ↦ rest >>= λ live. ok (p ∷ live)
          ]
          else rest
    ]

-- `Build` with a configuration and a resolver, which its caller always supplies: the guards against
-- their absence are left out.
unfoldable pub build : Config → Result String (List Plan)
build c = keep_enabled (all c.checks) (attach_all (table c))

-- `joinNonEmpty`, as the details of the external check use it.
unfoldable pub join_non_empty : String → List String → String
join_non_empty sep [] = ""
join_non_empty sep (part ∷ parts) =
    let rest = join_non_empty sep parts in
    if str_eq part ""
    then rest
    else if str_eq rest ""
    then part
    else concat (part ∷ sep ∷ rest ∷ [])

-- `guidFunc`: the identifier is asked for anew every round.
unfoldable pub guid_func :
    {World : Type 0}
    → Option (World → Result String String × World)
    → World
    → Result String String × World
guid_func none w = (err "no database handle configured", w)
guid_func (some query) w = let (answer, w') = query w in (guid answer, w')
