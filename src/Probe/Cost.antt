-- ===== src/Probe/Cost.antt =====
-- What a run of a probe comes to, with and without a fixed cost.
use mailcow_watchdog.Prelude.{ℕ, ◌≡◌, refl, String, if◌then◌else◌, Bool-cases, inl, inr}
use mailcow_watchdog.Health.{Status}
use mailcow_watchdog.Probe.{
  Result, result, Outcome, returned, panicked, Probe, is_ok, charge, cost, settle, run_probe,
}

-- What `Run` makes of an outcome of the probe that `Cost` wraps, told apart by the outcome.
abbrev pub Charged : ℕ → String → Outcome → Result → Type 0
Charged points name (returned r) res =
    (res.status ≡ r.status)
    × (res.message ≡ r.message)
    × (res.points ≡ (if is_ok r.status then r.points else points))
Charged points name (panicked why) res = (res.status ≡ Status.unknown) × (res.points ≡ 3)

charged :
    (points : ℕ) (name : String) (o : Outcome)
    → Charged points name o (settle name (charge points o))
unfolding result
charged points name (returned r) = elim (Bool-cases (is_ok r.status)) [
  | inl e ↦ rw (e) (refl, refl, refl)
  | inr e ↦ rw (e) (refl, refl, refl)
]
charged points name (panicked why) = (refl, refl)

named : (name : String) (o : Outcome) → (settle name o).probe ≡ name
named name (returned r) = refl
named name (panicked why) = refl

-- A probe under `Cost` that returns keeps its verdict, and costs the fixed points if the verdict is
-- not OK and its own points otherwise; a probe that panics is UNKNOWN and costs three points,
-- whatever the fixed cost is. The verdict bears the probe's name, and the world is the probe's.
run_probe-cost :
    {World : Type 0} (points : ℕ) (p : Probe World) (w : World)
    → let (res, w') = run_probe (cost points p) w in
      Charged points p.name (p.run w).0 res × (res.probe ≡ p.name) × (w' ≡ (p.run w).1)
unfolding run_probe
run_probe-cost points p w = (charged points p.name (p.run w).0, named p.name _, refl)
