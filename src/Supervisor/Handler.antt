-- ===== src/Supervisor/Handler.antt =====
-- internal/supervisor/supervisor.go: what the supervisor does about one event. The check is passed
-- as it is when the event is handled, since the event carries a pointer to it.
pub mod Branches
pub mod Restarts
pub mod Known
pub mod Guards
pub mod Paused
pub mod Targets
pub mod Bans
pub mod Events
use mailcow_watchdog.Prelude.{
  ℕ, ◌+◌, ◌-◌, Bool, true, false, not, String, List, [], ◌∷◌, Option, none, some, Result, ok, err,
  ltb, str_eq, if◌then◌else◌,
}
use mailcow_watchdog.Prelude.Format.{str, sprintf, concat}
use mailcow_watchdog.Check.{Check, details_of, restarts_container}
use mailcow_watchdog.DockerApi.{Container, started}
use mailcow_watchdog.Supervisor.Actions.{
  Docker, Env, State, Action, RestartOutcome, restarted, skipped, emit, pause_all, resume_all,
  sleep_for, alert, alert_details, log_to_redis, min_uptime, pause_before_restart,
  settle_after_restart, init_db_delay, replication_throttle, cert_throttle, found, asked_running,
  restart_sent, looked_up, restart_observed, event_observed,
}

-- check.PHPFPMService and check.InitDBProcess.
abbrev pub php_fpm_service : String
php_fpm_service = "php-fpm-mailcow"

abbrev pub init_db_process : String
init_db_process = "php -c /usr/local/etc/php -f /web/inc/init_db.inc.php"

-- A failed question counts as "not running".
abbrev pub answers_yes : Result String Bool → Bool
answers_yes (err e) = false
answers_yes (ok b) = b

module _ {World : Type 0} (env : Env World) where
  -- The first guard of `restartOne`: the container has been up for less than the minimum.
  unfoldable pub is_young : Container → World → Bool
  is_young target w = elim (started env.parse_time target).0 [
    | none ↦ false
    | some at ↦ ltb (env.now w - at) min_uptime
  ]

  -- The second guard: php-fpm is migrating the database.
  unfoldable pub ask_busy : Docker World → String → Container → State World → Bool × State World
  ask_busy docker container target s =
      let (answer, w) = docker.running target.id init_db_process s.world in
      if str_eq container php_fpm_service
      then (
        answers_yes answer,
        emit (asked_running target.id init_db_process) (record s { world = w }),
      )
      else (false, s)

  -- The rest of `restartOne` after a successful restart.
  unfoldable pub settle : String → Check World → State World → State World
  settle container c s =
      (sleep_for env settle_after_restart (
        alert_details env c "" 0 (
          log_to_redis env (sprintf "Sent restart command to %s" (str container ∷ [])) (
            emit (event_observed c.event "restart")
              (emit (restart_observed container restarted) s))))).1

  -- `docker.Restart` and what follows it.
  unfoldable pub restart_now :
      Docker World → String → Container → Check World → State World → State World
  restart_now docker container target c s =
      let (failure, w) = docker.restart target.id s.world in
      let s' = emit (restart_sent target.id) (record s { world = w }) in
      elim failure [
        | some e ↦ emit (restart_observed container RestartOutcome.failed) s'
        | none ↦ settle container c s'
      ]

  -- `restartOne`.
  unfoldable pub restart_one :
      Docker World → String → Container → Check World → State World → State World
  restart_one docker container target c s =
      let (busy, s') = ask_busy docker container target s in
      if is_young target s.world
      then emit (restart_observed container skipped) s
      else if busy
      then (sleep_for env init_db_delay (emit (restart_observed container skipped) s')).1
      else restart_now docker container target c s'

  -- The loop of `restart` over the matches.
  unfoldable pub restart_each :
      Docker World → String → List Container → Check World → State World → State World
  restart_each docker container [] c s = s
  restart_each docker container (target ∷ more) c s =
      restart_each docker container more c (restart_one docker container target c s)

  -- The look-up of `restart` and what it leads to.
  unfoldable pub restart_found :
      Docker World
      → String
      → Check World
      → Result String (List Container)
      → State World
      → State World
  restart_found docker container c (err e) s =
      emit (restart_observed container RestartOutcome.failed) s
  restart_found docker container c (ok []) s =
      emit (restart_observed container RestartOutcome.failed) s
  restart_found docker container c (ok (k ∷ ks)) s = restart_each docker container (k ∷ ks) c s

  -- The body of `restart` between `pauseAll` and the deferred `resumeAll`.
  unfoldable pub restart_paused : Check World → State World → State World
  restart_paused c s =
      let (awake, s') = sleep_for env pause_before_restart s in
      if not awake then s' else elim env.docker [
        | none ↦ emit (restart_observed c.event RestartOutcome.failed) s'
        | some docker ↦
            let (answer, w) = docker.find c.event s'.world in
            restart_found docker c.event c answer (emit (found c.event) (record s' { world = w }))
      ]

  -- `restart`.
  unfoldable pub restart : Check World → State World → State World
  restart c s = resume_all (restart_paused c (pause_all s))

  -- The registry record of one address, or nothing.
  unfoldable pub look_up : String → State World → String × State World
  look_up host s = elim env.whois [
    | none ↦ ("", s)
    | some whois ↦
        let (answer, w) = whois host s.world in
        (
          elim answer [ err e ↦ "" | ok registered ↦ registered ],
          emit (looked_up host) (record s { world = w }),
        )
  ]

  -- One round of the loop of `handleBans`.
  unfoldable pub handle_ban : Check World → String → State World → State World
  handle_ban c host s =
      let (details, s') = look_up host s in
      if not env.notify_bans
      then s'
      else alert env
          (record {
            service = c.event;
            message = concat ("IP ban: " ∷ host ∷ []);
            details = details;
            throttle = 0;
          })
          s'

  unfoldable pub handle_each : Check World → List String → State World → State World
  handle_each c [] s = s
  handle_each c (host ∷ hosts) s = handle_each c hosts (handle_ban c host s)

  -- `handleBans`.
  unfoldable pub handle_bans : Check World → State World → State World
  handle_bans c s =
      let hosts : List String = elim c.bans [ none ↦ [] | some bans ↦ bans s.world ] in
      handle_each c hosts (emit (event_observed c.event "notify") s)

  -- The `default` branch of `handle`.
  unfoldable pub handle_other : Check World → State World → State World
  handle_other c s =
      if restarts_container c.event
      then restart c s
      else emit (event_observed c.event "unhandled") s

  -- `handle`.
  unfoldable pub handle : Check World → State World → State World
  handle c s =
      if str_eq c.event "ratelimit"
      then alert_details env c "" 0 s
      else if str_eq c.event "mail_queue_status"
      then alert_details env c "" 0 s
      else if str_eq c.event "external_checks"
      then alert_details env c "Please stop mailcow now and check your network configuration!" 0 s
      else if str_eq c.event "mysql_repl_checks"
      then alert_details env c "Please check the SQL replication status" replication_throttle s
      else if str_eq c.event "dovecot_repl_checks"
      then alert_details env c "Please check the Dovecot replicator status" replication_throttle s
      else if str_eq c.event "certcheck"
      then alert_details env c "Please renew your certificate" cert_throttle s
      else if str_eq c.event "acme-mailcow"
      then alert_details env c "Please check acme-mailcow for further information." 0 s
      else if str_eq c.event "fail2ban"
      then handle_bans c s
      else handle_other c s

  -- `handleEvents`, for the events that it receives before the context is cancelled; each check is
  -- given as it is when its turn comes.
  unfoldable pub handle_events : List (Check World) → State World → State World
  handle_events [] s = s
  handle_events (c ∷ events) s = handle_events events (handle c s)
