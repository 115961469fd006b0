-- ===== src/Startup/Launching.antt =====
-- The part of the start behind the connections: it opens and closes nothing.
use mailcow_watchdog.Prelude.{
  ◌≡◌, refl, ◌∙◌, Bool, true, false, String, List, [], ◌∷◌, Option, none, some, Option-cases,
  Bool-cases, inl, inr, Result, ok, err, str_eq, if◌then◌else◌,
}
use mailcow_watchdog.Config.{Config}
use mailcow_watchdog.Notify.{Dispatcher}
use mailcow_watchdog.Probe.Ipv6.{address, ipv6_configured}
use mailcow_watchdog.Registry
use mailcow_watchdog.Registry.{Plan}
use mailcow_watchdog.Startup.{ready_set, supervised, Host, State, emit, Dependencies, named}
use mailcow_watchdog.Startup.Handles.{
  opened_in, closed_in, Reached, IsGuarded, Keeps, Keeps-refl, Keeps-trans, HasBoth,
}
use mailcow_watchdog.Startup.Run.{
  initialise, new_supervisor, supervisor_of, build, complain, look_for_address, check_link, stopped,
  check_ipv6, announce_start, wait_for_obs, supervise, launched, launch,
}

module _ {World : Type 0} where
  initialise-Keeps : (ps : List Plan) (s : State World) → Keeps s (initialise ps s)
  initialise-Keeps [] s = Keeps-refl s s refl
  initialise-Keeps (p ∷ ps) s =
      Keeps-trans s _ _
        (record { opens = refl; closes = refl; reached = λ what r. inr r; guarded = λ g. g })
        (initialise-Keeps ps _)

  supervisor_of-Keeps :
      (r : Result String (List Plan)) (s : State World) → Keeps s (supervisor_of r s).1
  unfolding new_supervisor
  supervisor_of-Keeps (err e) s = Keeps-refl s s refl
  supervisor_of-Keeps (ok []) s = Keeps-refl s s refl
  supervisor_of-Keeps (ok (p ∷ ps)) s = initialise-Keeps (p ∷ ps) s

module _ {World : Type 0} (host : Host World) where
  complain-Keeps : (d : Option (Dispatcher World)) (s : State World) → Keeps s (complain host d s)
  complain-Keeps none s = Keeps-refl s s refl
  complain-Keeps (some d) s = record {
    opens = refl;
    closes = refl;
    reached = λ what r. inr r;
    guarded = λ g. g;
  }

  look_for_address-Keeps :
      (d : Option (Dispatcher World)) (s : State World) → Keeps s (look_for_address host d s)
  look_for_address-Keeps d s =
      let (found, w) = address host.reflectors s.world in
      let s' = record s { world = w } in
      elim (Bool-cases (str_eq found "")) [
        | inr e ↦ rw e (Keeps-refl s s' refl)
        | inl e ↦ elim (Option-cases (host.cancelled w)) [
          | inr (why, c) ↦ rw (e, c) (Keeps-refl s s' refl)
          | inl c ↦ rw (e, c) (Keeps-trans s s' _ (Keeps-refl s s' refl) (complain-Keeps d s'))
        ]
      ]

  check_link-Keeps :
      (d : Option (Dispatcher World)) (r : Result String Bool) (s : State World)
      → Keeps s (check_link host d r s)
  check_link-Keeps d (err e) s = Keeps-refl s s refl
  check_link-Keeps d (ok false) s = Keeps-refl s s refl
  check_link-Keeps d (ok true) s = look_for_address-Keeps d s

  check_ipv6-Keeps :
      (cfg : Config) (d : Option (Dispatcher World)) (s : State World)
      → Keeps s (check_ipv6 host cfg d s)
  unfolding check_ipv6
  check_ipv6-Keeps cfg d s =
      check_link-Keeps d
        (ipv6_configured host.networks cfg.mailcow.ipv6_network (host.local_addrs s.world)) s

  announce_start-Keeps :
      (b : Bool) (d : Option (Dispatcher World)) (s : State World)
      → Keeps s (if b then announce_start host d s else s)
  unfolding announce_start
  announce_start-Keeps false d s = Keeps-refl s s refl
  announce_start-Keeps true none s = record {
    opens = refl;
    closes = refl;
    reached = λ what r. inr r;
    guarded = λ g. g;
  }
  announce_start-Keeps true (some d) s = record {
    opens = refl;
    closes = refl;
    reached = λ what r. inr (inr r);
    guarded = λ g. g;
  }

  -- The state behind `launch`: nothing was opened or closed, and the trace is as it should be.
  pub record IsLaunched (s s' : State World) : Type 0 where
    pub opens : opened_in s'.trace ≡ opened_in s.trace
    pub closes : closed_in s'.trace ≡ closed_in s.trace
    pub guarded : IsGuarded s'.trace

  pub stopped-Keeps : (o : Option String) (s : State World) → Keeps s (stopped host o s).1
  unfolding wait_for_obs
  stopped-Keeps none s = Keeps-refl s _ refl
  stopped-Keeps (some e) s = Keeps-refl s s refl

  -- A readiness report and the start of the supervisor, once both dependencies have answered.
  supervise-IsLaunched :
      (checks : List Plan) (s : State World)
      → IsGuarded s.trace
      → Reached "SQL" s.trace
      → Reached "Redis" s.trace
      → IsLaunched s (supervise host checks (emit ready_set s)).1
  supervise-IsLaunched checks s g sql redis =
      let (failed, w) = host.supervise checks s.world in
      let k =
        stopped-Keeps failed (emit (supervised checks) (record (emit ready_set s) { world = w })) in
      record {
        opens = k.opens;
        closes = k.closes;
        guarded = k.guarded (inr sql, inr redis, (sql, redis, g));
      }

  launched-IsLaunched :
      (cfg : Config) (d : Option (Dispatcher World)) (r : Result String (List Plan))
      (s : State World)
      → IsGuarded s.trace
      → Reached "SQL" s.trace
      → Reached "Redis" s.trace
      → IsLaunched s (launched host cfg d r s).1
  launched-IsLaunched cfg d (err e) s g sql redis = record {
    opens = refl;
    closes = refl;
    guarded = g;
  }
  launched-IsLaunched cfg d (ok checks) s g sql redis =
      let k =
        Keeps-trans s (check_ipv6 host cfg d s) _ (check_ipv6-Keeps cfg d s)
          (announce_start-Keeps cfg.notify.on_start d (check_ipv6 host cfg d s)) in
      let l =
        supervise-IsLaunched checks _ (k.guarded g) (k.reached "SQL" sql)
          (k.reached "Redis" redis) in
      record { opens = l.opens ∙ k.opens; closes = l.closes ∙ k.closes; guarded = l.guarded }

  pub launch-IsLaunched :
      (cfg : Config) (deps : Dependencies World) (s : State World)
      → HasBoth host s
      → IsLaunched s (launch host cfg deps s).1
  unfolding launch build
  launch-IsLaunched cfg deps s (t, sql, redis) =
      let r = named "building the checks: %w" (Registry.build cfg) in
      let k = supervisor_of-Keeps r s in
      let l =
        launched-IsLaunched cfg deps.dispatcher (supervisor_of r s).0 (supervisor_of r s).1
          (k.guarded t.guarded) (k.reached "SQL" sql) (k.reached "Redis" redis) in
      record { opens = l.opens ∙ k.opens; closes = l.closes ∙ k.closes; guarded = l.guarded }
