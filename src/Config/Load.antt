-- ===== src/Config/Load.antt =====
-- internal/config/load.go: the configuration from the environment.
use mailcow_watchdog.Prelude.{
  ℕ, ◌*◌, Bool, true, not, ◌&&◌, String, [], ◌∷◌, none, some, Result, ok, err, ◌==◌, str_eq, any,
  if◌then◌else◌,
}
use mailcow_watchdog.Prelude.Int.{pos}
use mailcow_watchdog.Prelude.Text.{codes, trim_string, lower_string}
use mailcow_watchdog.Prelude.Format.{str, concat, sprintf}
use mailcow_watchdog.Check.{second}
use mailcow_watchdog.Config.{Library, CheckSpec, Checks, Redis, Docker, Log, Notify, Config}
use mailcow_watchdog.Config.Validation.{validate}
use mailcow_watchdog.Config.Env.{
  Lookup, Loader, ◌>>=◌, pure, env_str, env_int, env_duration, env_err, is_yes, is_no,
  split_addresses,
}

module _ (look : Lookup) where
  -- `net.JoinHostPort` puts a host with a colon in brackets.
  abbrev join_host_port : String → String → String
  join_host_port host port =
      if any (λ c. c == b':') (codes host)
      then concat ("[" ∷ host ∷ "]:" ∷ port ∷ [])
      else concat (host ∷ ":" ∷ port ∷ [])

  -- `loadRedis`.
  unfoldable pub load_redis : Redis
  load_redis =
      let ip = env_str look "REDIS_SLAVEOF_IP" "" in
      record {
        addr =
            if not (str_eq ip "")
            then join_host_port ip (env_str look "REDIS_SLAVEOF_PORT" "6379")
            else "redis:6379";
        password = env_str look "REDISPASS" "";
        local_addr = "redis:6379";
      }

  -- `loadDocker`.
  unfoldable pub load_docker : String → Loader Docker
  load_docker project =
      let base = env_str look "DOCKER_API_URL" "" in
      do
        api ← env_int look "IP_BY_DOCKER_API" 0
        pure (record {
          base_url =
              if str_eq base "" && not (str_eq project "")
              then sprintf "https://dockerapi.%s_mailcow-network" (str project ∷ [])
              else base;
          dialect = lower_string (env_str look "DOCKER_API_DIALECT" "auto");
          use_api = not (api == 0);
        })

  -- `loadNotify`.
  unfoldable pub load_notify : String → Notify
  load_notify hostname = record {
    emails = split_addresses (env_str look "WATCHDOG_NOTIFY_EMAIL" "");
    webhook = trim_string (env_str look "WATCHDOG_NOTIFY_WEBHOOK" "");
    webhook_body = env_str look "WATCHDOG_NOTIFY_WEBHOOK_BODY" "";
    subject = env_str look "WATCHDOG_SUBJECT" "Watchdog ALERT";
    on_start = is_yes (env_str look "WATCHDOG_NOTIFY_START" "y");
    on_ban = is_yes (env_str look "WATCHDOG_NOTIFY_BAN" "n");
    from = concat ("watchdog@" ∷ hostname ∷ []);
    helo = hostname;
  }

  -- A `CheckSpec` literal of `loadChecks`.
  abbrev spec : Bool → String → ℕ → Loader CheckSpec
  spec enabled key default = do
    threshold ← env_int look key default
    pure (record { enabled = enabled; threshold = threshold })

  -- `loadChecks`.
  unfoldable pub load_checks : Loader Checks
  load_checks = do
    external ←
        spec (is_yes (env_str look "WATCHDOG_EXTERNAL_CHECKS" "n")) "EXTERNAL_CHECKS_THRESHOLD" 1
    nginx ← spec true "NGINX_THRESHOLD" 5
    check_unbound ← env_int look "CHECK_UNBOUND" 1
    unbound ← spec (check_unbound == 1) "UNBOUND_THRESHOLD" 5
    redis ← spec true "REDIS_THRESHOLD" 5
    mysql ← spec true "MYSQL_THRESHOLD" 5
    mysql_repl ←
        spec (is_yes (env_str look "WATCHDOG_MYSQL_REPLICATION_CHECKS" "n"))
          "MYSQL_REPLICATION_THRESHOLD" 1
    sogo ← spec (is_no (env_str look "SKIP_SOGO" "n")) "SOGO_THRESHOLD" 3
    postfix ← spec true "POSTFIX_THRESHOLD" 8
    postfix_tlspol ← spec true "POSTFIX_TLSPOL_THRESHOLD" 8
    clamd ← spec (is_no (env_str look "SKIP_CLAMD" "n")) "CLAMD_THRESHOLD" 15
    dovecot ← spec true "DOVECOT_THRESHOLD" 12
    dovecot_repl ← spec true "DOVECOT_REPL_THRESHOLD" 20
    php_fpm ← spec true "PHPFPM_THRESHOLD" 5
    ratelimit ← spec true "RATELIMIT_THRESHOLD" 1
    mailq ← spec true "MAILQ_THRESHOLD" 20
    fail2ban ← spec true "FAIL2BAN_THRESHOLD" 1
    acme ← spec true "ACME_THRESHOLD" 1
    rspamd ← spec true "RSPAMD_THRESHOLD" 5
    olefy ← spec (is_no (env_str look "SKIP_OLEFY" "n")) "OLEFY_THRESHOLD" 5
    mailq_critical ← env_int look "MAILQ_CRIT" 30
    pure (record {
      external = external;
      nginx = nginx;
      unbound = unbound;
      redis = redis;
      mysql = mysql;
      mysql_repl = mysql_repl;
      sogo = sogo;
      postfix = postfix;
      postfix_tlspol = postfix_tlspol;
      clamd = clamd;
      dovecot = dovecot;
      dovecot_repl = dovecot_repl;
      cert = record { enabled = true; threshold = 7 };
      php_fpm = php_fpm;
      ratelimit = ratelimit;
      mailq = mailq;
      fail2ban = fail2ban;
      acme = acme;
      rspamd = rspamd;
      olefy = olefy;
      mailq_critical = mailq_critical;
    })

  -- `loadLog`.
  unfoldable pub load_log : Bool → Log
  load_log verbose =
      let developing = not (is_no (env_str look "DEV_MODE" "n")) in
      let level = if verbose then "debug" else if developing then "debug" else "info" in
      let format = if developing then "text" else "json" in
      record {
        level = lower_string (env_str look "LOG_LEVEL" level);
        format = lower_string (env_str look "LOG_FORMAT" format);
      }

module _ (lib : Library) (look : Lookup) where
  -- The literal and the assignments of `Load`.
  unfoldable pub read_config : Loader Config
  read_config =
      let hostname = env_str look "MAILCOW_HOSTNAME" "" in
      let project = env_str look "COMPOSE_PROJECT_NAME" "" in
      let verbose = is_yes (env_str look "WATCHDOG_VERBOSE" "n") in
      do
        settle_delay ← env_duration lib look "WATCHDOG_SETTLE_DELAY" (pos (30 * second))
        check_interval ← env_duration lib look "WATCHDOG_CHECK_INTERVAL" (pos (20 * second))
        docker ← load_docker look project
        checks ← load_checks look
        pure (record {
          enabled = not (is_no (env_str look "USE_WATCHDOG" "y"));
          verbose = verbose;
          settle_delay = settle_delay;
          check_interval = check_interval;
          mailcow = record {
            hostname = hostname;
            compose_project = project;
            ipv4_network = env_str look "IPV4_NETWORK" "";
            ipv6_network = env_str look "IPV6_NETWORK" "";
          };
          db = record {
            socket = env_str look "DBSOCKET" "/var/run/mysqld/mysqld.sock";
            user = env_str look "DBUSER" "";
            password = env_str look "DBPASS" "";
            name = env_str look "DBNAME" "";
            root = env_str look "DBROOT" "";
          };
          redis = load_redis look;
          docker = docker;
          notify = load_notify look hostname;
          checks = checks;
          log = load_log look verbose;
          listen = env_str look "WATCHDOG_METRICS_LISTEN" ":9393";
          mailq_dir = env_str look "MAILQ_SPOOL_DIR" "/var/spool/postfix/deferred";
        })

  -- `Load`: the gathered errors come before the first problem of the validation.
  unfoldable pub load : Result String Config
  load =
      let (cfg, errs) = read_config [] in
      elim (env_err errs) [
        | some e ↦ err e
        | none ↦ elim (validate lib cfg) [ some e ↦ err e | none ↦ ok cfg ]
      ]
