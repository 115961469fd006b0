-- ===== src/Tests/Setup.antt =====
-- A world that is a number of steps, and collaborators that count it.
use mailcow_watchdog.Prelude.{ℕ, ◌+◌, true, false, String, [], ◌∷◌, none, some, ok, err, ltb}
use mailcow_watchdog.Probe
use mailcow_watchdog.Probe.{Probe, returned}
use mailcow_watchdog.Check.{Check, fixed, second}
use mailcow_watchdog.DockerApi.{Container}
use mailcow_watchdog.Notify.{Notifier, Dispatcher}
use mailcow_watchdog.Supervisor.Actions
use mailcow_watchdog.Supervisor.Actions.{Docker, State}
use mailcow_watchdog.Supervisor.Runner

-- A probe that always fails, with the weight of a CRITICAL.
abbrev pub refusing : Probe ℕ
refusing = record {
  name = "http-8081";
  run = λ w. (returned (Probe.critical "connection refused" []), w + 1);
}

abbrev pub check_for : String → Check ℕ
check_for event = record {
  name = "nginx";
  service = "Nginx";
  event = event;
  threshold = 5;
  probes = refusing ∷ [];
  interval = fixed second;
  dead_delay = second;
  bans = some (λ w. "192.0.2.1" ∷ "192.0.2.7" ∷ []);
  details = none;
  transcript = [];
}

abbrev pub nginx_check : Check ℕ
nginx_check = check_for "nginx-mailcow"

abbrev pub container : Container
container = record {
  id = "4f2a";
  service = "nginx-mailcow";
  project = "mailcow";
  networks = [];
  started_at = "";
}

abbrev pub docker : Docker ℕ
docker = record {
  find = λ event w. (ok (container ∷ []), w + 1);
  restart = λ id w. (none, w + 1);
  running = λ id want w. (ok false, w + 1);
  reachable = λ w. (ltb 4 w, w + 1);
}

abbrev pub mail : Notifier ℕ
mail msg w = (none, w + 1)

abbrev pub dispatcher : Dispatcher ℕ
dispatcher = record {
  notifier = some mail;
  reserver = none;
  subject_prefix = "Watchdog";
  now = λ w. "now";
}

abbrev pub env : Actions.Env ℕ
env = record {
  docker = some docker;
  dispatcher = some dispatcher;
  whois = none;
  notify_bans = true;
  now = λ w. w;
  sleep = λ d w. (true, w + 1);
  log_message = λ m w. (none, w + 1);
  parse_time = λ s. err "no time";
}

abbrev pub start : State ℕ
start = record { world = 0; trace = [] }

-- What a runner meets if nothing disturbs it.
abbrev pub calm : Runner.Env ℕ
calm = record {
  wait = λ w. (true, w);
  cancelled = λ w. false;
  sleep = λ d w. (true, w + 1);
  draw = λ w. (w, w);
  log_progress = λ s w. (true, w);
  send = λ w. (true, w);
  repaid = λ w. [];
}
