-- ===== src/Supervisor/Runner.antt =====
-- internal/supervisor/runner.go: the loop of one check. All that the loop waits for or asks of
-- others is an environment over the world; the logger is left out. What the loop writes to the
-- metrics and to Redis is kept in a trace. The supervisor may repay points at any time between two
-- uses of the tracker: these repayments are part of the environment too.
pub mod Sweep
pub mod Loop
pub mod Progress
use mailcow_watchdog.Prelude.{
  ℕ, zero, suc, ◌+◌, Bool, true, false, not, String, List, [], ◌∷◌, ◌++◌, if◌then◌else◌,
}
use mailcow_watchdog.Prelude.Int.{pos}
use mailcow_watchdog.Prelude.Format.{str, sprintf}
use mailcow_watchdog.Health
use mailcow_watchdog.Health.{
  Status, label, Snapshot, dead, Tracker, record_round, heal, reset, current,
}
use mailcow_watchdog.Probe.{Probe, run_probe}
use mailcow_watchdog.Check.{Check, pick, record_lines}

-- What the loop meets: `gate.Wait`, `ctx.Err`, `clock.Sleep`, the random source, `LogProgress`, the
-- select on the event channel, and the repayments that happened meanwhile. A Boolean answer is
-- false for the error, which in all but `LogProgress` is the cancelled context.
pub record Env (World : Type 0) : Type 0 where
  pub wait : World → Bool × World
  pub cancelled : World → Bool
  pub sleep : ℕ → World → Bool × World
  pub draw : World → ℕ × World
  pub log_progress : Snapshot → World → Bool × World
  pub send : World → Bool × World
  pub repaid : World → List ℕ

pub data Action : Type 0 where
  probed : String → String → Status → Action
  published : String → Snapshot → Action
  logged : Snapshot → Action
  slept : ℕ → Action
  exhausted : String → Action

pub record Event (World : Type 0) : Type 0 where
  pub check : Check World
  pub snapshot : Snapshot

pub record Runner (World : Type 0) : Type 0 where
  pub check : Check World
  pub tracker : Tracker
  pub world : World
  pub trace : List Action

-- `NewRunner`.
unfoldable pub new_runner : {World : Type 0} → Check World → World → Runner World
new_runner c w = record {
  check = c;
  tracker = Health.new c.service (pos c.threshold);
  world = w;
  trace = [];
}

-- How one pass through the loop ends: the runner returns, goes on, or has raised its event.
pub data Pass (World : Type 0) : Type 0 where
  stopped : Runner World → Pass World
  continued : Runner World → Pass World
  raised : Runner World → Event World → Pass World

unfoldable pub repay_all : Tracker → List ℕ → Tracker
repay_all t [] = t
repay_all t (points ∷ more) = repay_all (heal t points).0 more

-- The loop of `round` over the probes: the weight of the results is summed.
unfoldable pub sweep : {World : Type 0} → List (Probe World) → Runner World → ℕ → Runner World × ℕ
sweep [] r weight = (r, weight)
sweep (p ∷ ps) r weight =
    let (res, w) = run_probe p r.world in
    let line = sprintf "%s: %s" (str (label res.status) ∷ str res.message ∷ []) in
    sweep ps
      (record r {
        check = record_lines r.check (line ∷ []);
        world = w;
        trace = r.trace ++ probed r.check.name res.probe res.status ∷ [];
      })
      (weight + res.points)

-- `Supervisor.Snapshot`: the health of each check by its name.
unfoldable pub health_of : {World : Type 0} → List (Runner World) → List (String × ℕ)
health_of [] = []
health_of (r ∷ runners) = (r.check.name, (current r.tracker).percent) ∷ health_of runners

module _ {World : Type 0} (env : Env World) where
  -- `publish`: a failed write to Redis is only logged.
  unfoldable pub publish : Runner World → Snapshot → Runner World
  publish r s = record r {
    world = (env.log_progress s r.world).1;
    trace = r.trace ++ (published r.check.name s ∷ logged s ∷ []);
  }

  -- `round`.
  unfoldable pub round : Runner World → Runner World × Snapshot
  round r =
      let (swept, weight) = sweep r.check.probes r 0 in
      let (t, s) = record_round (repay_all swept.tracker (env.repaid swept.world)) (pos weight) in
      (publish (record swept { tracker = t }) s, s)

  -- The end of a pass whose snapshot is dead: reset, count, raise the event.
  unfoldable pub give_up : Runner World → Snapshot → Pass World
  give_up r s =
      let r' = record r {
        tracker = reset (repay_all r.tracker (env.repaid r.world));
        trace = r.trace ++ exhausted r.check.name ∷ [];
      } in
      let (sent, w) = env.send r'.world in
      let r'' = record r' { world = w } in
      if sent then raised r'' (record { check = r''.check; snapshot = s }) else stopped r''

  -- The pause between the round and what follows it.
  unfoldable pub rest_after : Runner World → Snapshot → Pass World
  rest_after r s =
      let (drawn, w) = env.draw r.world in
      let delay = if dead s then r.check.dead_delay else pick r.check.interval drawn in
      let (awake, w') = env.sleep delay w in
      let r' = record r { world = w'; trace = r.trace ++ slept delay ∷ [] } in
      if not awake then stopped r' else if not (dead s) then continued r' else give_up r' s

  -- One pass through the `for` of `Run`.
  unfoldable pub pass : Runner World → Pass World
  pass r =
      let (passed, w) = env.wait r.world in
      let r' = record r { world = w } in
      let (r'', s) = round r' in
      if not passed
      then stopped r'
      else if env.cancelled r''.world
      then stopped r''
      else rest_after r'' s

  -- The loop, for a number of passes: the runner at the end, whether it is still running, and the
  -- events that it has raised, the first one first.
  unfoldable pub run_passes : ℕ → Runner World → Runner World × Bool × List (Event World)
  run_passes zero r = (r, true, [])
  run_passes (suc n) r = elim (pass r) [
    | stopped r' ↦ (r', false, [])
    | continued r' ↦ run_passes n r'
    | raised r' e ↦ let (end, running, events) = run_passes n r' in (end, running, e ∷ events)
  ]
