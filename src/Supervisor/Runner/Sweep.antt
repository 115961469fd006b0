-- ===== src/Supervisor/Runner/Sweep.antt =====
-- One round over the probes of a check, against the list of their results.
use mathlib.Core.Path.{ap₂}
use native.Mathlib.Nat.{add_assoc, zero-add}
use mailcow_watchdog.Prelude.{
  ℕ, suc, ◌+◌, ◌≡◌, refl, ap, ◌∙◌, sym, String, List, [], ◌∷◌, ◌++◌, append_assoc, append-nil,
  length, map, arith,
}
use mailcow_watchdog.Prelude.Format.{str, sprintf}
use mailcow_watchdog.Prelude.Int.{pos}
use mailcow_watchdog.Health.{label, Snapshot, record_round}
use mailcow_watchdog.Probe.{Probe, Result, run_probe}
use mailcow_watchdog.Check.{record_lines}
use mailcow_watchdog.Check.Transcript.{record_all}
use mailcow_watchdog.Supervisor.Runner.{
  Runner, Action, Env, probed, sweep, publish, round, repay_all,
}

abbrev pub points : List Result → ℕ
points [] = 0
points (r ∷ rs) = r.points + points rs

abbrev pub line : Result → List String
line r = sprintf "%s: %s" (str (label r.status) ∷ str r.message ∷ []) ∷ []

abbrev pub report : String → Result → Action
report name r = probed name r.probe r.status

module _ {World : Type 0} where
  -- The probes' results, each probe run once and in order, and the world that they leave.
  unfoldable pub results : List (Probe World) → World → List Result × World
  results [] w = ([], w)
  results (p ∷ ps) w =
      let (res, w') = run_probe p w in let (more, w'') = results ps w' in (res ∷ more, w'')

  -- The runner after a round over the probes with these results.
  abbrev pub swept : Runner World → List Result → World → Runner World
  swept r rs w = record r {
    check = record r.check { transcript = record_all r.check.transcript (map line rs) };
    world = w;
    trace = r.trace ++ map (report r.check.name) rs;
  }

  sweep-from :
      (ps : List (Probe World)) (r : Runner World) (weight : ℕ)
      → sweep ps r weight ≡ (
        swept r (results ps r.world).0 (results ps r.world).1,
        weight + points (results ps r.world).0,
      )
  unfolding sweep results record_all record_lines
  sweep-from [] r weight =
      ap₂ (λ t n. (record r { trace = t }, n)) (sym (append-nil r.trace)) (omega arith)
  sweep-from (p ∷ ps) r weight =
      let (res, w) = run_probe p r.world in
      let next = record r {
        check = record_lines r.check (line res);
        world = w;
        trace = r.trace ++ report r.check.name res ∷ [];
      } in
      let (rs, end) = results ps w in
      sweep-from ps next (weight + res.points)
      ∙ ap₂ (λ t n. (record (swept r (res ∷ rs) end) { trace = t }, n))
          (append_assoc r.trace (report r.check.name res ∷ []) (map (report r.check.name) rs))
          (add_assoc weight res.points (points rs))

  pub length-results : (ps : List (Probe World)) (w : World) → length (results ps w).0 ≡ length ps
  unfolding results
  length-results [] w = refl
  length-results (p ∷ ps) w = ap suc (length-results ps (run_probe p w).1)

module _ {World : Type 0} (env : Env World) where
  -- A round runs every probe of the check once, in order and whatever the others say, reports each
  -- result to the metrics and the transcript, and folds the sum of their points into the budget,
  -- after the repayments of the supervisor; the snapshot that it returns is the one it published.
  pub round_lem :
      (r : Runner World)
      → let (rs, w) = results r.check.probes r.world in
        let (t, s) = record_round (repay_all r.tracker (env.repaid w)) (pos (points rs)) in
        (length rs ≡ length r.check.probes)
        × (round env r ≡ (publish env (record (swept r rs w) { tracker = t }) s, s))
  unfolding round
  round_lem r = (
    length-results r.check.probes r.world,
    rw (sweep-from r.check.probes r 0) (ap (after_points r) (zero-add _)),
  )
    where
      after_points : Runner World → ℕ → Runner World × Snapshot
      after_points r weight =
          let (rs, w) = results r.check.probes r.world in
          let (t, s) = record_round (repay_all r.tracker (env.repaid w)) (pos weight) in
          (publish env (record (swept r rs w) { tracker = t }) s, s)
