-- ===== src/Supervisor/Runner/Progress.antt =====
-- How a check whose service stays down gets on.
use mailcow_watchdog.Prelude.{
  ℕ, zero, suc, ◌+◌, ◌≤◌, ◌<◌, ◌≡◌, ◌≢◌, inl, inr, refl, ◌∙◌, true, false, List, [], arith, subst,
  sym, Bool-cases,
}
use mailcow_watchdog.Prelude.Int.{pos}
use mailcow_watchdog.Health.{Tracker, Snapshot, dead, record_round}
use mailcow_watchdog.Health.Budget.{IsTracker, record_round_lem}
use mailcow_watchdog.Probe.{Probe}
use mailcow_watchdog.Check.{Check, pick}
use mailcow_watchdog.Supervisor.Runner.{
  Runner, Env, Pass, stopped, continued, raised, repay_all, publish, round, give_up, rest_after,
  pass, run_passes, new_runner,
}
use mailcow_watchdog.Supervisor.Runner.Sweep.{results, points, swept, round_lem}
use mailcow_watchdog.Supervisor.Runner.Loop.{
  IsAlive, Ends, pass-Ends, new-IsAlive, record_round-threshold,
}

new_runner-probes :
    {World : Type 0} (c : Check World) (w : World) → (new_runner c w).check.probes ≡ c.probes
unfolding new_runner
new_runner-probes c w = refl

-- Nothing comes in between: the gate is open, nothing is cancelled, and nobody repays points.
pub record IsUndisturbed {World : Type 0} (env : Env World) : Type 0 where
  pub opens : (w : World) → (env.wait w).0 ≡ true
  pub runs : (w : World) → env.cancelled w ≡ false
  pub wakes : (d : ℕ) (w : World) → (env.sleep d w).0 ≡ true
  pub delivers : (w : World) → (env.send w).0 ≡ true
  pub leaves : (w : World) → env.repaid w ≡ []

module _ {World : Type 0} (env : Env World) (calm : IsUndisturbed env) (probes : List (Probe World))
    (down : (w : World) → 1 ≤ points (results probes w).0) where
  -- One pass of a runner over these probes.
  record Costs (r r' : Runner World) : Type 0 where
    probes_eq : r'.check.probes ≡ r.check.probes
    threshold_eq : r'.tracker.threshold ≡ r.tracker.threshold
    count_lt : r.tracker.err_count < r'.tracker.err_count

  counted :
      (t : Tracker) (n : ℕ)
      → IsTracker t
      → 1 ≤ n
      → t.err_count < (record_round t (pos n)).0.err_count
  counted t n h one = ground (arith, (record_round_lem t (pos n) h).0)

  round-Costs :
      (r : Runner World) → IsTracker r.tracker → r.check.probes ≡ probes → Costs r (round env r).0
  unfolding publish repay_all
  round-Costs r h e =
      let (rs, w) = results r.check.probes r.world in
      let some_points : 1 ≤ points rs =
        subst (λ ps. 1 ≤ points (results ps r.world).0) (sym e) (down r.world) in
      let base : Costs r (
          publish env
            (record (swept r rs w) { tracker = (record_round r.tracker (pos (points rs))).0 })
            (record_round r.tracker (pos (points rs))).1) =
        record {
          probes_eq = refl;
          threshold_eq = record_round-threshold r.tracker (pos (points rs));
          count_lt = counted r.tracker (points rs) h some_points;
        } in
      subst (λ q. Costs r q.0) (sym (round_lem env r).1)
        (rw (calm.leaves (results r.check.probes r.world).1) base)

  abbrev Moves : Runner World → Pass World → Type 0
  Moves r (stopped r') = ⊥
  Moves r (continued r') = Costs r r'
  Moves r (raised r' e) = Unit

  give_up-Moves : (r r' : Runner World) (s : Snapshot) → Moves r (give_up env r' s)
  unfolding give_up
  give_up-Moves r r' s = rw (calm.delivers r'.world, give_up) tt

  rest_after-Moves :
      (r r' : Runner World) (s : Snapshot) → Costs r r' → Moves r (rest_after env r' s)
  unfolding rest_after
  rest_after-Moves r r' s k =
      let (drawn, w) = env.draw r'.world in
      elim (Bool-cases (dead s)) [
        | inl d ↦ rw (d, calm.wakes r'.check.dead_delay w, rest_after) (give_up-Moves r _ s)
        | inr alive ↦
            rw (alive, calm.wakes (pick r'.check.interval drawn) w, rest_after)
              (record {
                probes_eq = k.probes_eq;
                threshold_eq = k.threshold_eq;
                count_lt = k.count_lt;
              })
      ]

  pass-Moves : (r : Runner World) → IsAlive r → r.check.probes ≡ probes → Moves r (pass env r)
  unfolding pass
  pass-Moves r a e =
      let r' = record r { world = (env.wait r.world).1 } in
      let k = round-Costs r' (record { budget = a.budget }) e in
      rw (calm.opens r.world, calm.runs (round env r').0.world, pass)
        (rest_after-Moves r (round env r').0 (round env r').1 (record {
          probes_eq = k.probes_eq;
          threshold_eq = k.threshold_eq;
          count_lt = k.count_lt;
        }))

  abbrev Raises : ℕ → Runner World → Type 0
  Raises n r = (run_passes env n r).2 ≢ []

  Raises-step :
      (n : ℕ) (r : Runner World) (p : Pass World)
      → ((r' : Runner World) → IsAlive r' → Costs r r' → Raises n r')
      → pass env r ≡ p
      → Ends env r p
      → Moves r p
      → Raises (suc n) r
  unfolding run_passes
  Raises-step n r (stopped r') ih e h m = absurd m
  Raises-step n r (continued r') ih e h m = rw (e, run_passes) (ih r' h.0 m)
  Raises-step n r (raised r' ev) ih e h m = rw (e, run_passes) (λ f. cc)

  Raises-from :
      (n : ℕ) (r : Runner World)
      → IsAlive r
      → r.check.probes ≡ probes
      → r.tracker.threshold ≤ n + r.tracker.err_count
      → Raises n r
  Raises-from zero r a e enough = absurd (omega (arith, a.spare))
  Raises-from (suc n) r a e enough =
      Raises-step n r (pass env r)
        (λ r' a' k.
          Raises-from n r' a' (k.probes_eq ∙ e) (omega (arith, k.threshold_eq, k.count_lt)))
        refl (pass-Ends env r a) (pass-Moves r a e)

-- A check that costs at least one point in every round, left undisturbed, raises an event within
-- as many rounds as its threshold has points.
pub run_passes-raises :
    {World : Type 0} (env : Env World) (c : Check World) (w : World)
    → IsUndisturbed env
    → ((w' : World) → 1 ≤ points (results c.probes w').0)
    → (run_passes env (new_runner c w).tracker.threshold (new_runner c w)).2 ≢ []
run_passes-raises env c w calm down =
    Raises-from env calm c.probes down _ (new_runner c w) (new-IsAlive env c w)
      (new_runner-probes c w) (omega arith)
