-- ===== src/Tests/Loops.antt =====
-- The loop of a check that is down, from its start.
use mailcow_watchdog.Prelude.{ℕ, ◌≤◌, ◌≡◌, ◌≢◌, refl, ◌⊎◌, true, false, [], ◌∷◌, All, arith}
use mailcow_watchdog.Health
use mailcow_watchdog.Health.{dead}
use mailcow_watchdog.Probe.{run_probe, result}
use mailcow_watchdog.Supervisor.Runner.{Runner, new_runner, run_passes}
use mailcow_watchdog.Supervisor.Runner.Sweep.{results, points}
use mailcow_watchdog.Supervisor.Runner.Loop.{IsAlive, run_passes-new}
use mailcow_watchdog.Supervisor.Runner.Progress.{IsUndisturbed, run_passes-raises}
use mailcow_watchdog.Tests.Setup.{nginx_check, refusing, calm}

abbrev fresh : Runner ℕ
fresh = new_runner nginx_check 0

run_passes-new_example :
    let (end, running, events) = run_passes calm 7 (new_runner nginx_check 0) in
    ((running ≡ false) ⊎ IsAlive end) × All (λ e. dead e.snapshot ≡ true) events
run_passes-new_example = run_passes-new calm 7 nginx_check 0

calm-IsUndisturbed : IsUndisturbed calm
calm-IsUndisturbed = record {
  opens = λ w. refl;
  runs = λ w. refl;
  wakes = λ d w. refl;
  delivers = λ w. refl;
  leaves = λ w. refl;
}

refusing-costs : (w : ℕ) → 1 ≤ points (results (refusing ∷ []) w).0
unfolding results run_probe result
refusing-costs w = omega arith

run_passes-raises_example : (run_passes calm 5 (new_runner nginx_check 0)).2 ≢ []
unfolding new_runner Health.new
run_passes-raises_example = run_passes-raises calm nginx_check 0 calm-IsUndisturbed refusing-costs
