-- ===== src/Supervisor/Watcher.antt =====
-- internal/supervisor/supervisor.go: `watchDockerAPI`, which holds the checks while the dockerapi is
-- away. The trackers of the runners are part of its state, as it repays points to them.
pub mod Tally
pub mod Polls
pub mod Overlap
use mailcow_watchdog.Prelude.{
  ℕ, zero, suc, Bool, true, false, not, ◌&&◌, List, [], ◌∷◌, ◌++◌, map, if◌then◌else◌,
}
use mailcow_watchdog.Health.{Tracker, heal}
use mailcow_watchdog.Supervisor.Actions.{
  Docker, Env, State, Action, healed, emit, pause_all, resume_all, sleep_for, docker_api_poll,
  heal_points,
}

pub record Watch (World : Type 0) : Type 0 where
  pub trackers : List Tracker
  pub held : Bool
  pub state : State World

-- `healAll`: every runner is handed the same number of points.
unfoldable pub heal_all : List Tracker → List Tracker
heal_all = map (λ t. (heal t heal_points).0)

-- What healing adds to the trace: one action per runner.
unfoldable pub heal_each : {World : Type 0} → List Tracker → State World → State World
heal_each [] s = s
heal_each (t ∷ ts) s = heal_each ts (emit (healed heal_points) s)

-- One pass through the loop: it returns, or goes on.
pub data Poll (World : Type 0) : Type 0 where
  returned : Watch World → Poll World
  watching : Watch World → Poll World

module _ {World : Type 0} where
  -- The `switch` on the answer of the dockerapi.
  unfoldable pub react : Bool → Watch World → Watch World
  react reachable w =
      if not reachable && not w.held
      then record w { held = true; state = pause_all w.state }
      else if reachable && w.held
      then record {
        trackers = heal_all w.trackers;
        held = false;
        state = heal_each w.trackers (resume_all w.state);
      }
      else w

  -- What is done when the sleep was cancelled: the checks are let go if they are held.
  unfoldable pub let_go : Watch World → Watch World
  let_go w = if w.held then record w { state = resume_all w.state } else w

module _ {World : Type 0} (env : Env World) (docker : Docker World) where
  unfoldable pub poll : Watch World → Poll World
  poll w =
      let (awake, s) = sleep_for env docker_api_poll w.state in
      let (reachable, world) = docker.reachable s.world in
      if not awake
      then returned (let_go (record w { state = s }))
      else watching (react reachable (record w { state = record s { world = world } }))

  -- The loop, for a number of passes; the flag says that it is still running.
  unfoldable pub watch : ℕ → Watch World → Watch World × Bool
  watch zero w = (w, true)
  watch (suc n) w = elim (poll w) [ returned w' ↦ (w', false) | watching w' ↦ watch n w' ]
