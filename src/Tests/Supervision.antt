-- ===== src/Tests/Supervision.antt =====
-- The supervisor, its gate and its watcher at concrete states.
use mailcow_watchdog.Prelude.{ℕ, ◌+◌, ok, ◌≡◌, refl, true, false, List, [], ◌∷◌, ◌++◌, some}
use mailcow_watchdog.Check.{restarts_container}
use mailcow_watchdog.DockerApi.{Container, started}
use mailcow_watchdog.Supervisor.Actions.{
  Docker, Env, Action, sleep_for, alert, alert_details, log_to_redis,
}
use mailcow_watchdog.Supervisor.Actions.Adds.{Adds}
use mailcow_watchdog.Supervisor.Gate.{
  Gate, update, new_gate, pause, resume, paused, pauses, resumes, run,
}
use mailcow_watchdog.Supervisor.Gate.Wakeups.{wait-wakes}
use mailcow_watchdog.Supervisor.Handler.{
  is_young, ask_busy, restart_now, settle, restart, restart_one, handle, handle_events, handle_bans,
}
use mailcow_watchdog.Supervisor.Handler.Restarts.{ids}
use mailcow_watchdog.Supervisor.Handler.Guards.{IsGuarded, restart_one-guards}
use mailcow_watchdog.Supervisor.Handler.Paused.{restart-bracketed}
use mailcow_watchdog.Supervisor.Handler.Targets.{Restarted, restart-Restarted}
use mailcow_watchdog.Supervisor.Handler.Branches.{IsRemote, handle-spares}
use mailcow_watchdog.Supervisor.Handler.Bans.{headlines, ban_headline, handle_bans-headlines}
use mailcow_watchdog.Supervisor.Handler.Events.{gate_calls, handle_events-gate_calls}
use mailcow_watchdog.Supervisor.Watcher.Overlap.{
  Machine, restart_begins, restart_ends, api_lost, Reachable, start, next, reachable-Opens,
  overlap-opens,
}
use mailcow_watchdog.Tests.Setup
use mailcow_watchdog.Tests.Setup.{check_for, nginx_check, container, docker, dispatcher, env}

paused_gate : run new_gate (pauses ∷ []) ≡ some (pause new_gate)
unfolding run
paused_gate = refl

wait-wakes_example :
    (g : Gate) × (run new_gate (pauses ∷ pauses ∷ resumes ∷ pauses ∷ []) ≡ some g)
    × (g.closed 1 ≡ true)
unfolding new_gate pause
wait-wakes_example = wait-wakes (pauses ∷ []) (pauses ∷ []) (pauses ∷ []) paused_gate

-- A container that started this very moment, and one with a migration under way.
abbrev newcomer : Container
newcomer = record container { started_at = "2026-01-01T00:00:00Z" }

abbrev dated : Env ℕ
dated = record env { parse_time = λ s. ok (record { year = 2026; at = 0 }) }

abbrev migrating : Docker ℕ
migrating = record docker { running = λ id want w. (ok true, w + 1) }

restart_one-guards_example :
    IsGuarded env docker "nginx-mailcow" container Setup.start
      (restart_one env docker "nginx-mailcow" container nginx_check Setup.start)
    × IsGuarded dated docker "nginx-mailcow" newcomer Setup.start
        (restart_one dated docker "nginx-mailcow" newcomer nginx_check Setup.start)
    × IsGuarded env migrating "php-fpm-mailcow" container Setup.start
        (restart_one env migrating "php-fpm-mailcow" container nginx_check Setup.start)
restart_one-guards_example = (
  restart_one-guards env docker "nginx-mailcow" container nginx_check Setup.start,
  restart_one-guards dated docker "nginx-mailcow" newcomer nginx_check Setup.start,
  restart_one-guards env migrating "php-fpm-mailcow" container nginx_check Setup.start,
)

spared :
    (ids (restart_one dated docker "nginx-mailcow" newcomer nginx_check Setup.start) ≡ [])
    × (ids (restart_one env migrating "php-fpm-mailcow" container nginx_check Setup.start) ≡ [])
    × (ids (restart_one env docker "nginx-mailcow" container nginx_check Setup.start) ≡ "4f2a" ∷ [])
unfolding restart_one restart_now settle is_young started ask_busy sleep_for alert_details alert
    log_to_redis
spared = (refl, refl, refl)

restart-bracketed_example :
    (middle : List Action) × ((restart env nginx_check Setup.start).trace ≡ (
      Action.gate_paused
      ∷ Action.paused_set true
      ∷ (middle ++ Action.gate_resumed ∷ Action.paused_set false ∷ [])))
restart-bracketed_example =
    let (middle, e, _) = restart-bracketed env nginx_check Setup.start in (middle, e)

restart-Restarted_example :
    Restarted (container ∷ []) Setup.start (restart env nginx_check Setup.start)
unfolding sleep_for
restart-Restarted_example = restart-Restarted env nginx_check Setup.start

handle-spares_example :
    Adds IsRemote Setup.start (handle env (check_for "acme-mailcow") Setup.start)
unfolding restarts_container
handle-spares_example = handle-spares env (check_for "acme-mailcow") Setup.start refl

handle_bans-headlines_example :
    headlines env (handle_bans env (check_for "fail2ban") Setup.start)
    ≡ ban_headline "fail2ban" "192.0.2.1" ∷ ban_headline "fail2ban" "192.0.2.7" ∷ []
handle_bans-headlines_example =
    handle_bans-headlines env dispatcher (check_for "fail2ban")
      (λ w. "192.0.2.1" ∷ "192.0.2.7" ∷ []) Setup.start refl refl refl

-- A restart while the dockerapi is away.
abbrev overlapping : Machine
overlapping = record {
  gate = pause (pause new_gate);
  restarting = true;
  held = true;
  watching = true;
}

overlapping-Reachable : Reachable overlapping
overlapping-Reachable = next (next start (api_lost refl refl)) (restart_begins refl)

-- The gate after its one pause and a resume.
abbrev reopened : Gate
reopened = record {
  open_chan = 1;
  next = 2;
  closed = update (update (update (λ _. false) 0 true) 1 false) 1 true;
}

overlapping_resumed : resume (pause (pause new_gate)) ≡ some reopened
unfolding resume pause new_gate
overlapping_resumed = refl

overlap-opens_example : (paused reopened ≡ false) × (true ≡ true)
overlap-opens_example =
    overlap-opens overlapping-Reachable refl refl (restart_ends refl overlapping_resumed)

single_resumed : resume (pause new_gate) ≡ some reopened
unfolding resume pause new_gate
single_resumed = refl

reachable-Opens_example : paused reopened ≡ false
reachable-Opens_example =
    reachable-Opens (next (next start (restart_begins refl)) (restart_ends refl single_resumed))
      refl

handle_events-gate_calls_example :
    gate_calls
      (handle_events env (nginx_check ∷ check_for "fail2ban" ∷ nginx_check ∷ []) Setup.start).trace
    ≡ true ∷ false ∷ true ∷ false ∷ []
unfolding restarts_container
handle_events-gate_calls_example =
    handle_events-gate_calls env (nginx_check ∷ check_for "fail2ban" ∷ nginx_check ∷ []) Setup.start
