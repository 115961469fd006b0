-- ===== src/Tests/Store.antt =====
-- Redis, the notifications and the configuration at concrete values.
use mailcow_watchdog.Prelude.{
  true, ℕ, ◌+◌, ◌≡◌, refl, Bool, false, not, String, List, [], ◌∷◌, none, some, ok, All, ltb,
  str_eq, if◌then◌else◌, arith, err, map, select,
}
use mailcow_watchdog.Prelude.Int.{pos}
use mailcow_watchdog.Prelude.Format.{sprintf}
use mailcow_watchdog.Notify.{Alert, Dispatcher, dispatch}
use mailcow_watchdog.Store
use mailcow_watchdog.Whois.{Network, first_referral, referral, ask, follow, lookup}
use mailcow_watchdog.Whois.Answers.{Answers, lookup_lem}
use mailcow_watchdog.DockerApi.{
  Container, Client, InspectRecord, Transport, field_of, addresses, normalise_inspect, is_mine,
  list, fill_in, find,
}
use mailcow_watchdog.DockerApi.Dialects.{mailcow}
use mailcow_watchdog.DockerApi.Finding.{undated, runs_service, find_lem}
use mailcow_watchdog.Store.{reserve, is_sanitized, sanitize}
use mailcow_watchdog.Store.Throttle.{HonoursNx, dispatch-once}
use mailcow_watchdog.Prelude.Text.{trim_string, trim_of, lower_string, split_at_char, atoi}
use mailcow_watchdog.Config.{Library, Config}
use mailcow_watchdog.Config.Validation.{
  refuse, check_emails, check_thresholds, check_webhook, validate,
}
use mailcow_watchdog.Config.Env.{
  Lookup, env_str, env_int, env_duration, env_err, is_yes, is_no, split_addresses, keep_addresses,
}
use mailcow_watchdog.Config.Load.{
  load_redis, load_docker, load_notify, load_checks, load_log, read_config, load,
}
use mailcow_watchdog.Config.Listen.{split_host_port_error, validate_listen}
use mailcow_watchdog.Config.Validated.{IsConfig, load-IsConfig}
use mailcow_watchdog.Registry.{build}
use mailcow_watchdog.Registry.Built.{wanted, build-wanted}
use mailcow_watchdog.Supervisor.Handler.Known.{IsKnown}
use mailcow_watchdog.Prelude.Text.{codes}
use mailcow_watchdog.Prelude.Format.{itoa}
use mailcow_watchdog.Prelude.Json.{marshal}
use mailcow_watchdog.Prelude.Json.Objects.{read_object}
use mailcow_watchdog.Health.{current}
use mailcow_watchdog.Store.{message_entry}
use mailcow_watchdog.Store.Sanitized.{replaced}
use mailcow_watchdog.Store.Entries.{read_object-entries}
use mailcow_watchdog.Tests.Accounting.{nginx}
use mailcow_watchdog.Tests.Setup.{mail, env}

-- A Redis with one throttle slot, which is taken once the world has counted a step.
abbrev pub redis_client : Store.Client ℕ
redis_client = record {
  get = λ key w. (ok none, w);
  hkeys = λ key w. (ok [], w);
  lrange = λ key a b w. (ok [], w);
  lpush = λ key fields w. (none, w);
  ping = λ w. (none, w);
  set_value = λ key value w. (none, w);
  set_nx = λ key value ttl w. (ok (not (ltb 0 w)), w + 1);
  ttl = λ key w. (ok (pos 5), w);
}

abbrev taken : String → ℕ → Bool
taken key w = ltb 0 w

redis_client-HonoursNx : HonoursNx redis_client taken
redis_client-HonoursNx = record {
  answers = λ key value ttl w b e. ground (arith, e);
  takes = λ key value ttl w b e. ground arith;
  keeps = λ key w h. h;
}

abbrev throttled : Dispatcher ℕ
throttled = record {
  notifier = some mail;
  reserver = some (reserve redis_client);
  subject_prefix = "Watchdog";
  now = λ w. "now";
}

abbrev renew : Alert
renew = record { service = "certcheck"; message = "renew"; details = ""; throttle = 60 }

dispatch-once_example :
    dispatch throttled renew 3 ≡ (none, (reserve redis_client "certcheck" 60 3).1)
dispatch-once_example =
    (dispatch-once redis_client taken redis_client-HonoursNx throttled mail renew 3 false refl refl
      (omega arith) refl).0

abbrev library : Library
library = record {
  parse_duration = λ s. if str_eq s "1m" then some (pos 60000000000) else none;
  show_duration = λ d. "1m0s";
  parse_url = λ s. none;
}

-- The variables that a stack has to set, and two more.
abbrev variables : Lookup
variables key =
    if str_eq key "MAILCOW_HOSTNAME"
    then some "mail.example.org"
    else if str_eq key "COMPOSE_PROJECT_NAME"
    then some "mailcow"
    else if str_eq key "DBUSER"
    then some "mailcow"
    else if str_eq key "DBPASS"
    then some "secret"
    else if str_eq key "DBNAME"
    then some "mailcow"
    else if str_eq key "SKIP_CLAMD"
    then some "Yes"
    else if str_eq key "WATCHDOG_CHECK_INTERVAL"
    then some " 1m"
    else none

abbrev configured : Config
configured = (read_config library variables []).0

configured-loads : load library variables ≡ ok configured
unfolding load read_config load_redis load_docker load_notify load_checks load_log env_str env_int
    env_duration env_err is_yes is_no split_addresses keep_addresses trim_string trim_of
    lower_string split_at_char atoi refuse check_emails check_thresholds check_webhook validate
    split_host_port_error validate_listen sprintf
configured-loads = refl

load-IsConfig_example : IsConfig configured
load-IsConfig_example = (load-IsConfig library variables configured configured-loads).0

build-wanted_example :
    (build configured ≡ ok (wanted configured)) × All (λ p. IsKnown env p.event) (wanted configured)
build-wanted_example = build-wanted env configured

-- Two stacks on one daemon, of which ours is called mailcow.
abbrev ours : Client
ours = record { dialect = mailcow; project = "mailcow"; ipv4_network = "172.22.1" }

abbrev labelled : String → String → InspectRecord
labelled id project = record {
  id = id;
  labels =
      ("com.docker.compose.service", "nginx-mailcow")
      ∷ ("com.docker.compose.project", project)
      ∷ [];
  networks = [];
  started_at = "2026-01-01T00:00:00Z";
}

abbrev daemon : Transport ℕ
daemon = record {
  list_summaries = λ w. (ok [], w);
  list_inspects = λ w. (ok (labelled "4f2a" "mailcow" ∷ labelled "77c0" "testing" ∷ []), w + 1);
  inspect_one = λ id w. (err "not found", w + 1);
  restart_one = λ id w. (none, w + 1);
  top = λ d id w. (ok [], w + 1);
}

abbrev answer : List Container
answer = normalise_inspect (labelled "4f2a" "mailcow") ∷ []

daemon-finds : (find daemon ours "nginx-mailcow" 0).0 ≡ ok answer
unfolding find list fill_in normalise_inspect field_of addresses
daemon-finds = refl

find_lem_example :
    (ks : List Container) × ((list daemon ours 0).0 ≡ ok ks)
    × (map undated answer ≡ map undated (select (runs_service "nginx-mailcow") ks))
    × All (λ k. is_mine ours k ≡ true) ks
find_lem_example = find_lem daemon ours "nginx-mailcow" 0 answer daemon-finds

-- A network on which the first answer refers to a second server.
abbrev registries : Network ℕ
registries = record {
  dial = λ server w. (none, w + 1);
  write = λ line w. (none, w);
  read_all = λ w. ((if ltb w 2 then "refer: whois.ripe.net" else "netname: EXAMPLE", none), w);
}

lookup_lem_example :
    let (first, w) = ask registries "whois.iana.org" "192.0.2.7" 0 in
    Answers registries "whois.iana.org" "192.0.2.7" first w
      (lookup registries "whois.iana.org" "192.0.2.7" 0)
lookup_lem_example = lookup_lem registries "whois.iana.org" "192.0.2.7" 0

referred : (lookup registries "whois.iana.org" "192.0.2.7" 0).0 ≡ ok "netname: EXAMPLE"
unfolding lookup follow ask referral first_referral split_at_char lower_string trim_string
referred = refl

abbrev note : String
note = "Nginx \\ <down>; 100%"

read_object-entries_example :
    read_object 2 (marshal (message_entry note 1767225600))
    ≡ some (
        (codes "time", codes (itoa 1767225600)) ∷ (codes "message", map replaced (codes note)) ∷ [])
read_object-entries_example = (read_object-entries note (current nginx) 1767225600).0
