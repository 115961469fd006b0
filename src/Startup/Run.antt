-- ===== src/Startup/Run.antt =====
-- cmd/watchdog/main.go: `run`, from the configuration to the end of the supervisor.

use mailcow_watchdog.Prelude.{
  ℕ, Bool, true, false, not, String, List, [], ◌∷◌, Option, none, some, Result, ok, err, str_eq,
  if◌then◌else◌,
}
use mailcow_watchdog.Config.{Library, Config}
use mailcow_watchdog.Config.Env.{Lookup}
use mailcow_watchdog.Config.Load.{load}
use mailcow_watchdog.Notify.{Alert, Dispatcher, dispatch}
use mailcow_watchdog.Probe.Ipv6.{address, ipv6_configured}
use mailcow_watchdog.Registry
use mailcow_watchdog.Registry.{Plan}
use mailcow_watchdog.Startup.{
  Handle, closed, ready_set, initialised, alerted, notification_observed, supervised, Host, State,
  emit, start, named, Dependencies, settle, connect,
}
use mailcow_watchdog.Supervisor.Actions.{SendOutcome, sent, disabled}

abbrev pub ipv6_alert : Alert
ipv6_alert = record {
  service = "ipv6-config";
  message =
      "enable_ipv6 is true in docker-compose.yml, but an IPv6 link could not be established. Please verify your IPv6 connection.";
  details = "";
  throttle = 0;
}

abbrev pub start_alert : Alert
start_alert = record {
  service = "watchdog-mailcow";
  message = "Watchdog started monitoring mailcow.";
  details = "";
  throttle = 0;
}

-- `supervisor.New`, which `build` always gives metrics and a store: at least one check, and the first
-- numbers of each.
abbrev pub initialise : {World : Type 0} → List Plan → State World → State World
initialise [] s = s
initialise (p ∷ ps) s = initialise ps (emit (initialised p.name p.threshold) s)

unfoldable pub new_supervisor :
    {World : Type 0} → List Plan → State World → Result String (List Plan) × State World
new_supervisor [] s = (err "no checks are enabled", s)
new_supervisor (p ∷ ps) s = (ok (p ∷ ps), initialise (p ∷ ps) s)

-- `build`; the resolver that it chooses is not part of the description of a probe.
abbrev pub supervisor_of :
    {World : Type 0}
    → Result String (List Plan)
    → State World
    → Result String (List Plan) × State World
supervisor_of (err e) s = (err e, s)
supervisor_of (ok checks) s = new_supervisor checks s

unfoldable pub build :
    {World : Type 0} → Config → State World → Result String (List Plan) × State World
build cfg = supervisor_of (named "building the checks: %w" (Registry.build cfg))

abbrev pub send_outcome : Option String → SendOutcome
send_outcome none = sent
send_outcome (some e) = SendOutcome.failed

module _ {World : Type 0} (host : Host World) where
  -- The end of `checkIPv6`, when no address was found.
  abbrev pub complain : Option (Dispatcher World) → State World → State World
  complain none s = s
  complain (some d) s =
      emit (alerted ipv6_alert) (record s { world = (dispatch d ipv6_alert s.world).1 })

  abbrev pub look_for_address : Option (Dispatcher World) → State World → State World
  look_for_address dispatcher s =
      let (found, w) = address host.reflectors s.world in
      let s' = record s { world = w } in
      let late = complain dispatcher s' in
      if not (str_eq found "") then s' else elim (host.cancelled w) [ some e ↦ s' | none ↦ late ]

  abbrev pub check_link : Option (Dispatcher World) → Result String Bool → State World → State World
  check_link dispatcher (err e) s = s
  check_link dispatcher (ok false) s = s
  check_link dispatcher (ok true) s = look_for_address dispatcher s

  -- `checkIPv6`.
  unfoldable pub check_ipv6 : Config → Option (Dispatcher World) → State World → State World
  check_ipv6 cfg dispatcher s =
      check_link dispatcher
        (ipv6_configured host.networks cfg.mailcow.ipv6_network (host.local_addrs s.world)) s

  -- `announceStart`.
  unfoldable pub announce_start : Option (Dispatcher World) → State World → State World
  announce_start none s = emit (notification_observed disabled) s
  announce_start (some d) s =
      let (failed, w) = dispatch d start_alert s.world in
      emit (notification_observed (send_outcome failed))
        (emit (alerted start_alert) (record s { world = w }))

  -- `waitForObs`.
  unfoldable pub wait_for_obs : State World → Option String × State World
  wait_for_obs s =
      let (answer, w) = host.obs_end s.world in
      (
        elim answer [ some end ↦ end | none ↦ some "the observability server did not shut down" ],
        record s { world = w },
      )

  -- The end of `run`, from the readiness on.
  abbrev pub stopped : Option String → State World → Option String × State World
  stopped (some e) s = (some e, s)
  stopped none s = wait_for_obs s

  abbrev pub supervise : List Plan → State World → Option String × State World
  supervise checks s =
      let (failed, w) = host.supervise checks s.world in
      stopped failed (emit (supervised checks) (record s { world = w }))

  -- `run` on the connections, from `build` on.
  abbrev pub launched :
      Config
      → Option (Dispatcher World)
      → Result String (List Plan)
      → State World
      → Option String × State World
  launched cfg dispatcher (err e) s = (some e, s)
  launched cfg dispatcher (ok checks) s =
      let s₁ = check_ipv6 cfg dispatcher s in
      let s₂ = if cfg.notify.on_start then announce_start dispatcher s₁ else s₁ in
      supervise checks (emit ready_set s₂)

  unfoldable pub launch : Config → Dependencies World → State World → Option String × State World
  launch cfg deps s = let (checks, s') = build cfg s in launched cfg deps.dispatcher checks s'

  -- The cleanup of `connect`: the last connection first.
  unfoldable pub cleanup : List Handle → State World → State World
  cleanup [] s = s
  cleanup (h ∷ hs) s = cleanup hs (emit (closed h) (record s { world = host.close h s.world }))

  -- `run` on the outcome of `connect`; the cleanup is deferred only after a success.
  unfoldable pub connected :
      Config
      → Option (Result String (Dependencies World) × State World)
      → Option (Option String × State World)
  connected cfg none = none
  connected cfg (some (err e, s)) = some (some e, s)
  connected cfg (some (ok deps, s)) =
      let (failed, s') = launch cfg deps s in some (failed, cleanup s.closers s')

  -- `run` with USE_WATCHDOG=n.
  unfoldable pub idle : World → Option String × State World
  idle w =
      let s = emit ready_set (start w) in wait_for_obs (record s { world = host.await_end s.world })

  -- `run` on a configuration.
  unfoldable pub run_configured : ℕ → Config → World → Option (Option String × State World)
  run_configured attempts cfg w =
      let (interrupted, w₁) = settle host cfg.settle_delay w in
      let rest = connected cfg (connect host attempts cfg (start w₁)) in
      if not cfg.enabled
      then some (idle w)
      else elim interrupted [ some e ↦ some (wait_for_obs (start w₁)) | none ↦ rest ]

  -- `run`.
  unfoldable pub run : ℕ → Library → Lookup → World → Option (Option String × State World)
  run attempts lib variables w = elim (load lib variables) [
    | err e ↦ some (some e, start w)
    | ok cfg ↦ run_configured attempts cfg w
  ]
