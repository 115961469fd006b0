-- ===== src/Tests/Launch.antt =====
-- Concrete starts of the program.
use mailcow_watchdog.Prelude.{
  ℕ, ◌+◌, ◌≡◌, refl, true, false, String, [], ◌∷◌, Option, some, none, ok, err, ltb, if◌then◌else◌,
  arith,
}
use mailcow_watchdog.Prelude.Int.{pos}
use mailcow_watchdog.Config.{CheckSpec, Checks, Config}
use mailcow_watchdog.Startup.{
  app_db, redis, opened, available, Dependencies, make_dispatcher, Host, State, start, connect,
  wait_for, await, open_sql, settle, make_docker,
}
use mailcow_watchdog.Startup.Handles.{opened_in, closed_in}
use mailcow_watchdog.Startup.Run.{run_configured}
use mailcow_watchdog.Startup.Waiting.{answered, again, wait_for_lem}
use mailcow_watchdog.Startup.Readiness.{IsHonestRun, run_configured-readyz}
use mailcow_watchdog.Startup.Answering.{IsCovered}
use mailcow_watchdog.Startup.Cleanup.{run-closes, run-leaks}
use mailcow_watchdog.DockerApi.Dialects.{engine, parse_dialect, effective_dialect}
use mailcow_watchdog.DockerApi.Endpoint.{unix_socket, endpoint_of, new_client}
use mailcow_watchdog.Notify.Webhook
use mailcow_watchdog.Prelude.Text.{trim_string, trim_of, lower_string}
use mailcow_watchdog.Prelude.Format.{sprintf}
use mailcow_watchdog.Tests.Channels.{mailer}
use mailcow_watchdog.Tests.Conversations.{reflectors}
use mailcow_watchdog.Tests.Store.{redis_client}

abbrev off : CheckSpec
off = record { enabled = false; threshold = 1 }

abbrev checks : Checks
checks = record {
  external = off;
  nginx = off;
  unbound = off;
  redis = off;
  mysql = off;
  mysql_repl = off;
  sogo = off;
  postfix = off;
  postfix_tlspol = off;
  clamd = off;
  dovecot = off;
  dovecot_repl = off;
  cert = off;
  php_fpm = off;
  ratelimit = off;
  mailq = off;
  fail2ban = off;
  acme = off;
  rspamd = off;
  olefy = off;
  mailq_critical = 30;
}

abbrev cfg : Config
cfg = record {
  enabled = true;
  verbose = false;
  settle_delay = pos 0;
  check_interval = pos 60;
  mailcow = record {
    hostname = "mail.example.org";
    compose_project = "mailcow";
    ipv4_network = "";
    ipv6_network = "";
  };
  db = record { socket = "/run/sql"; user = "u"; password = "p"; name = "n"; root = "r" };
  redis = record { addr = "redis:6379"; password = ""; local_addr = "redis:6379" };
  docker = record { base_url = "unix:///run/docker.sock"; dialect = "auto"; use_api = false };
  notify = record {
    emails = [];
    webhook = "";
    webhook_body = "";
    subject = "Watchdog";
    on_start = false;
    on_ban = false;
    from = "";
    helo = "";
  };
  checks = checks;
  log = record { level = "info"; format = "json" };
  listen = "";
  mailq_dir = "";
}

-- The database answers from the second attempt on.
abbrev pub host : Host ℕ
host = record {
  cancelled = λ w. none;
  pause = λ d w. (none, w + 1);
  await_end = λ w. w;
  open_db = λ dsn w. (none, w);
  ping = λ h w. (if ltb w 1 then some "refused" else none, w);
  close = λ h w. w;
  parse_url = λ url. ok (record {
    scheme = "unix";
    host = "";
    hostname = "";
    port = "";
    path = "/run/docker.sock";
    opaque = "";
  });
  mailer = mailer;
  http_post = λ url body w. (Webhook.answered 200 "OK", w);
  store = redis_client;
  unix_date = λ w. "now";
  networks = record {
    Prefix = Unit {0};
    parse_cidr = λ s. err "none";
    holds = λ p a. false;
    is_ipv4 = λ a. true;
  };
  local_addrs = λ w. ok [];
  reflectors = reflectors;
  supervise = λ checks w. (none, w + 1);
  obs_end = λ w. (some none, w);
}

wait_for_lem_example : wait_for host 5 (host.ping app_db) 0 ≡ some (none, 1)
wait_for_lem_example =
    (wait_for_lem host (host.ping app_db) 5 0 none 1).1
      (1, again refl refl refl (answered refl refl), omega arith)

abbrev connected_state : State ℕ
connected_state = record {
  world = 1;
  trace = available "Redis" ∷ available "SQL" ∷ opened redis ∷ opened app_db ∷ [];
  closers = redis ∷ app_db ∷ [];
}

abbrev deps : Dependencies ℕ
deps = record {
  docker = (
    record { dialect = engine; project = "mailcow"; ipv4_network = "" },
    record {
      base_url = "http://docker";
      dialed = unix_socket "/run/docker.sock";
      implied = engine;
    },
  );
  dispatcher = make_dispatcher host cfg;
}

settled : (settle host cfg.settle_delay 0).0 ≡ none
unfolding settle
settled = refl

connects :
    connect host 5 cfg (start (settle host cfg.settle_delay 0).1) ≡ some (ok deps, connected_state)
unfolding settle connect open_sql await wait_for make_docker parse_dialect trim_string trim_of
    lower_string new_client endpoint_of effective_dialect
connects = refl

host-runs :
    (outcome : Option String) × (end : State ℕ) × (run_configured host 5 cfg 0
      ≡ some (outcome, end))
host-runs =
    let (outcome, end, e, _, _) =
      run-closes host 5 cfg 0 deps connected_state refl (settled, connects) in
    (outcome, end, e)

run-closes_example :
    (outcome : Option String) × (end : State ℕ) × (run_configured host 5 cfg 0
      ≡ some (outcome, end))
    × (closed_in end.trace ≡ opened_in end.trace)
    × (opened_in end.trace ≡ redis ∷ app_db ∷ [])
run-closes_example = run-closes host 5 cfg 0 deps connected_state refl (settled, connects)

-- A daemon whose URL cannot be parsed.
abbrev misled : Host ℕ
misled = record host { parse_url = λ url. err "invalid port" }

fails_to_connect :
    connect misled 5 cfg (start (settle misled cfg.settle_delay 0).1)
    ≡ some (
      err "parsing the docker API URL \"unix:///run/docker.sock\": invalid port",
      connected_state,
    )
unfolding settle connect open_sql await wait_for make_docker parse_dialect trim_string trim_of
    lower_string new_client endpoint_of effective_dialect sprintf
fails_to_connect = refl

misled-settled : (settle misled cfg.settle_delay 0).0 ≡ none
unfolding settle
misled-settled = refl

run-leaks_example : closed_in connected_state.trace ≡ []
run-leaks_example =
    (run-leaks misled 5 cfg 0 "parsing the docker API URL \"unix:///run/docker.sock\": invalid port"
      connected_state refl (misled-settled, fails_to_connect)).1

run_configured-readyz_example :
    IsHonestRun (run_configured host 5 cfg 0) × IsCovered host 5 cfg 0 (run_configured host 5 cfg 0)
run_configured-readyz_example = run_configured-readyz host 5 cfg 0 refl
