-- ===== src/Supervisor/Runner/Loop.antt =====
-- When the loop of runner.go raises an event, and what the error budget is between two passes.
use mailcow_watchdog.Prelude.{
  ℕ, zero, suc, ◌+◌, ◌≤◌, ◌<◌, ◌≡◌, ◌↔◌, ◌⊎◌, inl, inr, refl, ◌∙◌, true, false, List, [], ◌∷◌, All,
  arith, subst, sym, Bool-cases,
}
use mailcow_watchdog.Prelude.Int.{ℤ, pos}
use mailcow_watchdog.Health
use mailcow_watchdog.Health.{Tracker, Snapshot, dead, record_round, heal, reset}
use mailcow_watchdog.Health.Budget.{IsTracker, record_round_lem, heal_lem}
use mailcow_watchdog.Check.{Check, pick}
use mailcow_watchdog.Supervisor.Runner.{
  Runner, Env, Pass, stopped, continued, raised, new_runner, repay_all, publish, round, give_up,
  rest_after, pass, run_passes,
}
use mailcow_watchdog.Supervisor.Runner.Sweep.{results, points, round_lem}

-- Between two passes the budget is not used up.
pub record IsAlive {World : Type 0} (r : Runner World) : Type 0 where
  pub budget : 1 ≤ r.tracker.threshold
  pub spare : r.tracker.err_count < r.tracker.threshold

-- Repaying only lowers the count.
repay_all-le :
    (t : Tracker) (ps : List ℕ)
    → IsTracker t
    → ((repay_all t ps).err_count ≤ t.err_count) × ((repay_all t ps).threshold ≡ t.threshold)
unfolding repay_all heal
repay_all-le t [] h = ground arith
repay_all-le t (p ∷ ps) h =
    let step = heal_lem t p h in
    let ih = repay_all-le (heal t p).0 ps step.1 in ground (arith, step.0, ih)

pub record_round-threshold : (t : Tracker) (w : ℤ) → (record_round t w).0.threshold ≡ t.threshold
unfolding record_round
record_round-threshold t w = refl

-- What one round does to the tracker: its threshold stays, the count grows by no more than the
-- points of the round, and the snapshot is dead exactly if the count has reached the threshold.
record IsCounted (threshold limit : ℕ) (t : Tracker) (s : Snapshot) : Type 0 where
  threshold_eq : t.threshold ≡ threshold
  count_le : t.err_count ≤ limit
  dead_iff : (dead s ≡ true) ↔ (t.threshold ≤ t.err_count)

record_round-IsCounted :
    (t : Tracker) (n threshold m : ℕ)
    → 1 ≤ threshold
    → t.threshold ≡ threshold
    → t.err_count ≤ m
    → let (t', s) = record_round t (pos n) in IsCounted threshold (m + n) t' s
record_round-IsCounted t n threshold m h e le =
    let k : IsTracker t = omega arith in
    let (count, _, faithful, _, _) = record_round_lem t (pos n) k in
    let kept = record_round-threshold t (pos n) in
    record {
      threshold_eq = kept ∙ e;
      count_le = ground (arith, count);
      dead_iff = rw kept (ground (arith, faithful.dead_iff, kept));
    }

module _ {World : Type 0} (env : Env World) where
  round-IsCounted :
      (r : Runner World)
      → IsTracker r.tracker
      → IsCounted r.tracker.threshold
          (r.tracker.err_count + points (results r.check.probes r.world).0)
          (round env r).0.tracker
          (round env r).1
  unfolding publish
  round-IsCounted r h =
      let (rs, w) = results r.check.probes r.world in
      let t = repay_all r.tracker (env.repaid w) in
      let less = repay_all-le r.tracker (env.repaid w) h in
      let fits =
        record_round-IsCounted t (points rs) r.tracker.threshold r.tracker.err_count h.budget less.1
          less.0 in
      subst (λ q. IsCounted r.tracker.threshold (r.tracker.err_count + points rs) q.0.tracker q.1)
        (sym (round_lem env r).1) fits

  -- How a pass may end, for a runner that starts it with budget left.
  abbrev pub Ends : Runner World → Pass World → Type 0
  Ends r (stopped r') = r'.tracker.threshold ≡ r.tracker.threshold
  Ends r (continued r') = IsAlive r' × (r'.tracker.threshold ≡ r.tracker.threshold)
  Ends r (raised r' e) =
      IsAlive r'
      × (r'.tracker.err_count ≡ 0)
      × (r'.tracker.threshold ≡ r.tracker.threshold)
      × (dead e.snapshot ≡ true)

  give_up-Ends :
      (r r' : Runner World) (s : Snapshot)
      → IsTracker r'.tracker
      → r'.tracker.threshold ≡ r.tracker.threshold
      → dead s ≡ true
      → Ends r (give_up env r' s)
  unfolding give_up reset
  give_up-Ends r r' s h same d =
      let less = repay_all-le r'.tracker (env.repaid r'.world) h in
      elim (Bool-cases (env.send r'.world).0) [
        | inl sent ↦
            rw (sent, give_up)
              (
                record { budget = omega (arith, less); spare = omega (arith, less) },
                refl,
                less.1 ∙ same,
                d,
              )
        | inr refused ↦ rw (refused, give_up) (less.1 ∙ same)
      ]

  rest_after-Ends :
      (r r' : Runner World) (s : Snapshot) (limit : ℕ)
      → IsTracker r.tracker
      → IsCounted r.tracker.threshold limit r'.tracker s
      → Ends r (rest_after env r' s)
  unfolding rest_after
  rest_after-Ends r r' s limit h k =
      let (drawn, w) = env.draw r'.world in
      let same = k.threshold_eq in
      elim (Bool-cases (dead s)) [
        | inl d ↦
            let (awake, w') = env.sleep r'.check.dead_delay w in
            elim (Bool-cases awake) [
              | inl up ↦ rw (d, up, rest_after) (give_up-Ends r _ s (omega arith) same d)
              | inr cut ↦ rw (d, cut, rest_after) same
            ]
        | inr alive ↦
            let (awake, w') = env.sleep (pick r'.check.interval drawn) w in
            elim (Bool-cases awake) [
              | inl up ↦
                  rw (alive, up, rest_after)
                    (record { budget = omega arith; spare = ground (arith, k.dead_iff) }, same)
              | inr cut ↦ rw (alive, cut, rest_after) same
            ]
      ]

  -- One pass that starts with budget left ends in one of three ways: the loop goes on with budget
  -- left, or it has raised an event whose snapshot is dead and starts over with a full budget, or
  -- the context was cancelled; the threshold is the same in each.
  pub pass-Ends : (r : Runner World) → IsAlive r → Ends r (pass env r)
  unfolding pass
  pass-Ends r a =
      let (passed, w) = env.wait r.world in
      let r' = record r { world = w } in
      let k = round-IsCounted r' (record { budget = a.budget }) in
      elim (Bool-cases passed) [
        | inr shut ↦ rw (shut, pass) refl
        | inl through ↦ elim (Bool-cases (env.cancelled (round env r').0.world)) [
          | inl over ↦ rw (through, over, pass) k.threshold_eq
          | inr running ↦
              rw (through, running, pass)
                (rest_after-Ends r (round env r').0 (round env r').1 _
                  (record { budget = a.budget }) k)
        ]
      ]

  abbrev Sound : ℕ → Runner World → Type 0
  Sound n r =
      let (end, running, events) = run_passes env n r in
      (running ≡ true → IsAlive end) × All (λ e. dead e.snapshot ≡ true) events

  run_passes-step :
      (n : ℕ) (r : Runner World) (p : Pass World)
      → ((r' : Runner World) → IsAlive r' → Sound n r')
      → pass env r ≡ p
      → Ends r p
      → Sound (suc n) r
  unfolding run_passes
  run_passes-step n r (stopped r') ih e h = rw (e, run_passes) (λ f. cc, tt)
  run_passes-step n r (continued r') ih e h = rw (e, run_passes) (ih r' h.0)
  run_passes-step n r (raised r' ev) ih e h =
      let (alive, all_dead) = ih r' h.0 in rw (e, run_passes) (alive, (h.3, all_dead))

  run_passes-Sound : (n : ℕ) (r : Runner World) → IsAlive r → Sound n r
  unfolding run_passes
  run_passes-Sound zero r a = (λ _. a, tt)
  run_passes-Sound (suc n) r a =
      run_passes-step n r (pass env r) (run_passes-Sound n) refl (pass-Ends r a)

  pub new-IsAlive : (c : Check World) (w : World) → IsAlive (new_runner c w)
  unfolding new_runner Health.new
  new-IsAlive c w = ground arith

  -- However long a freshly started check runs, and whatever its probes, the supervisor and the
  -- store do meanwhile: every event that it raises carries a snapshot that is dead, and it has
  -- stopped or its budget is not used up between two rounds.
  pub run_passes-new :
      (n : ℕ) (c : Check World) (w : World)
      → let (end, running, events) = run_passes env n (new_runner c w) in
        ((running ≡ false) ⊎ IsAlive end) × All (λ e. dead e.snapshot ≡ true) events
  run_passes-new n c w =
      let (running, dead_all) = run_passes-Sound n (new_runner c w) (new-IsAlive c w) in
      (
        elim (Bool-cases (run_passes env n (new_runner c w)).1) [
          | inl e ↦ inr (running e)
          | inr e ↦ inl e
        ],
        dead_all,
      )
