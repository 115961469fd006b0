-- ===== src/Supervisor/Actions.antt =====
-- internal/supervisor/supervisor.go: the collaborators of the supervisor, and the small steps that
-- its handlers are made of. Every call of a collaborator and every change of the gate and of the
-- metrics is kept in a trace; the logger is left out.
pub mod Adds
use mailcow_watchdog.Prelude.{
  ℕ, ◌+◌, ◌*◌, Bool, true, false, String, List, [], ◌∷◌, ◌++◌, Option, none, some, Result, ok, err,
}
use mailcow_watchdog.Check.{Check, second, minute, details_of}
use mailcow_watchdog.DockerApi.{Container, Stamp}
use mailcow_watchdog.Notify.{Alert, Dispatcher, dispatch}

abbrev pub min_uptime : ℕ
min_uptime = 360 * second

abbrev pub pause_before_restart : ℕ
pause_before_restart = 10 * second

abbrev pub settle_after_restart : ℕ
settle_after_restart = 35 * second

abbrev pub init_db_delay : ℕ
init_db_delay = 60 * second

abbrev pub heal_points : ℕ
heal_points = 2

abbrev pub docker_api_poll : ℕ
docker_api_poll = 3 * second

abbrev pub replication_throttle : ℕ
replication_throttle = 10 * minute

abbrev pub cert_throttle : ℕ
cert_throttle = 24 * (60 * minute)

pub record Docker (World : Type 0) : Type 0 where
  pub find : String → World → Result String (List Container) × World
  pub restart : String → World → Option String × World
  pub running : String → String → World → Result String Bool × World
  pub reachable : World → Bool × World

-- The fields of `Supervisor` that its handlers use. A sleep answers false if it was cancelled.
pub record Env (World : Type 0) : Type 0 where
  pub docker : Option (Docker World)
  pub dispatcher : Option (Dispatcher World)
  pub whois : Option (String → World → Result String String × World)
  pub notify_bans : Bool
  pub now : World → ℕ
  pub sleep : ℕ → World → Bool × World
  pub log_message : String → World → Option String × World
  pub parse_time : String → Result String Stamp

pub data RestartOutcome : Type 0 where
  restarted skipped failed : RestartOutcome

pub data SendOutcome : Type 0 where
  sent failed disabled : SendOutcome

pub data Action : Type 0 where
  gate_paused : Action
  gate_resumed : Action
  paused_set : Bool → Action
  slept : ℕ → Action
  found : String → Action
  asked_running : String → String → Action
  restart_sent : String → Action
  healed : ℕ → Action
  looked_up : String → Action
  dispatched : Alert → Action
  message_logged : String → Action
  restart_observed : String → RestartOutcome → Action
  event_observed : String → String → Action
  notification_observed : SendOutcome → Action

pub record State (World : Type 0) : Type 0 where
  pub world : World
  pub trace : List Action

module _ {World : Type 0} where
  abbrev pub emit : Action → State World → State World
  emit a s = record s { trace = s.trace ++ a ∷ [] }

  -- `pauseAll` and `resumeAll`.
  unfoldable pub pause_all : State World → State World
  pause_all s = emit (paused_set true) (emit gate_paused s)

  unfoldable pub resume_all : State World → State World
  resume_all s = emit (paused_set false) (emit gate_resumed s)

module _ {World : Type 0} (env : Env World) where
  -- `clock.Sleep`.
  unfoldable pub sleep_for : ℕ → State World → Bool × State World
  sleep_for d s =
      let (awake, w) = env.sleep d s.world in (awake, emit (slept d) (record s { world = w }))

  abbrev outcome : Option String → SendOutcome
  outcome none = sent
  outcome (some e) = failed

  -- `alert`.
  unfoldable pub alert : Alert → State World → State World
  alert a s = elim env.dispatcher [
    | none ↦ emit (notification_observed disabled) s
    | some d ↦
        let (answer, w) = dispatch d a s.world in
        emit (notification_observed (outcome answer)) (emit (dispatched a) (record s { world = w }))
  ]

  -- The alert for a check, with the check's details as they are now.
  unfoldable pub alert_details : Check World → String → ℕ → State World → State World
  alert_details c message throttle s =
      let (details, w) = details_of c s.world in
      alert
        (record { service = c.event; message = message; details = details; throttle = throttle })
        (record s { world = w })

  -- `logToRedis`: a failed write is only logged.
  unfoldable pub log_to_redis : String → State World → State World
  log_to_redis message s =
      emit (message_logged message) (record s { world = (env.log_message message s.world).1 })
