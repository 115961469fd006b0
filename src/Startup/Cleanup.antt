-- ===== src/Startup/Cleanup.antt =====
-- What the start closes, and when it reports ready.
use mailcow_watchdog.Prelude.{
  ℕ, ◌≡◌, refl, sym, ap, ◌∙◌, subst, true, String, List, [], ◌∷◌, ◌++◌, append_assoc, append-nil,
  Option, none, some, Option-cases, inl, inr, Result, ok, err, arith,
}
use mailcow_watchdog.Config.{Config}
use mailcow_watchdog.Startup.{Handle, Host, State, start, Dependencies, settle, connect}
use mailcow_watchdog.Startup.Handles.{
  opened_in, closed_in, IsGuarded, IsTidy, HasBoth, Meets, connect-Meets,
}
use mailcow_watchdog.Startup.Launching.{stopped-Keeps, launch-IsLaunched}
use mailcow_watchdog.Startup.Run.{wait_for_obs, launch, cleanup, connected, run_configured}

module _ {World : Type 0} (host : Host World) where
  cleanup-IsLaunched :
      (hs : List Handle) (s : State World)
      → let s' = cleanup host hs s in
        (opened_in s'.trace ≡ opened_in s.trace)
        × (closed_in s'.trace ≡ closed_in s.trace ++ hs)
        × (IsGuarded s.trace → IsGuarded s'.trace)
  unfolding cleanup
  cleanup-IsLaunched [] s = (refl, sym (append-nil _), (λ g. g))
  cleanup-IsLaunched (h ∷ hs) s =
      let (o, c, g) = cleanup-IsLaunched hs _ in
      (o, c ∙ append_assoc (closed_in s.trace) (h ∷ []) hs, g)

  connected-closes :
      (cfg : Config) (deps : Dependencies World) (s : State World)
      → HasBoth host s
      → let (outcome, s') = launch host cfg deps s in
        let end = cleanup host s.closers s' in
        (closed_in end.trace ≡ opened_in end.trace)
        × (opened_in end.trace ≡ s.closers)
        × IsGuarded end.trace
  connected-closes cfg deps s h =
      let s' = (launch host cfg deps s).1 in
      let l = launch-IsLaunched host cfg deps s h in
      let (o, c, g) = cleanup-IsLaunched s.closers s' in
      let opens = o ∙ l.opens ∙ h.0.opens in
      (c ∙ ap (λ hs. hs ++ s.closers) (l.closes ∙ h.0.closes) ∙ sym opens, opens, g l.guarded)

  module _ (attempts : ℕ) (cfg : Config) (w : World) where
    pub run_configured-connected :
        cfg.enabled ≡ true
        → (settle host cfg.settle_delay w).0 ≡ none
        → let w' = (settle host cfg.settle_delay w).1 in
          run_configured host attempts cfg w
          ≡ connected host cfg (connect host attempts cfg (start w'))
    unfolding run_configured
    run_configured-connected on calm = ground (arith, on, calm)

    -- Once the settling pause is over undisturbed and the connections are made, a start that is not
    -- disabled comes to an end, whatever the supervisor returns, and has by then closed every
    -- connection that it has opened, the last one first.
    pub run-closes :
        (deps : Dependencies World) (s : State World)
        → cfg.enabled ≡ true
        → (let (interrupted, w') = settle host cfg.settle_delay w in
            (interrupted ≡ none) × (connect host attempts cfg (start w') ≡ some (ok deps, s)))
        → (outcome : Option String) × (end : State World) × (run_configured host attempts cfg w
            ≡ some (outcome, end))
          × (closed_in end.trace ≡ opened_in end.trace)
          × (opened_in end.trace ≡ s.closers)
    unfolding connected
    run-closes deps s on (calm, made) =
        let w' = (settle host cfg.settle_delay w).1 in
        let both : HasBoth host s =
          subst (Meets (λ _. HasBoth host)) made (connect-Meets host attempts cfg w') in
        let (c, o, g) = connected-closes cfg deps s both in
        (
          (launch host cfg deps s).0,
          cleanup host s.closers (launch host cfg deps s).1,
          run_configured-connected on calm ∙ ap (connected host cfg) made,
          c,
          o,
        )

    -- A start that is not disabled, whose settling pause is over undisturbed and whose connections cannot
    -- all be made, returns the error of `connect` and closes none of those that it has opened by then.
    pub run-leaks :
        (e : String) (s : State World)
        → cfg.enabled ≡ true
        → (let (interrupted, w') = settle host cfg.settle_delay w in
            (interrupted ≡ none) × (connect host attempts cfg (start w') ≡ some (err e, s)))
        → (run_configured host attempts cfg w ≡ some (some e, s))
          × (closed_in s.trace ≡ [])
          × (opened_in s.trace ≡ s.closers)
    unfolding connected
    run-leaks e s on (calm, made) =
        let w' = (settle host cfg.settle_delay w).1 in
        let t : IsTidy s =
          subst (Meets (λ _. HasBoth host)) made (connect-Meets host attempts cfg w') in
        (run_configured-connected on calm ∙ ap (connected host cfg) made, t.closes, t.opens)

    connected-IsGuarded :
        (o : Option (Result String (Dependencies World) × State World)) (outcome : Option String)
        (end : State World)
        → Meets (λ _. HasBoth host) o
        → connected host cfg o ≡ some (outcome, end)
        → IsGuarded end.trace
    unfolding connected
    connected-IsGuarded none outcome end m h = absurd (ground (arith, h))
    connected-IsGuarded (some (err e, s)) outcome end m h =
        let same : s ≡ end = ground (arith, h) in subst (λ x. IsGuarded x.trace) same m.guarded
    connected-IsGuarded (some (ok deps, s)) outcome end m h =
        let s' = (launch host cfg deps s).1 in
        let same : cleanup host s.closers s' ≡ end = ground (arith, h) in
        subst (λ x. IsGuarded x.trace) same (connected-closes cfg deps s m).2

    -- Unless the watchdog is disabled, readiness is reported and the supervisor started only after the
    -- database and Redis have both answered, however the start ends.
    pub run_configured-IsGuarded :
        (outcome : Option String) (end : State World)
        → cfg.enabled ≡ true
        → run_configured host attempts cfg w ≡ some (outcome, end)
        → IsGuarded end.trace
    unfolding run_configured
    run_configured-IsGuarded outcome end on h =
        let w' = (settle host cfg.settle_delay w).1 in
        elim (Option-cases (settle host cfg.settle_delay w).0) [
          | inl calm ↦
              connected-IsGuarded _ outcome end (connect-Meets host attempts cfg w')
                (sym (run_configured-connected on calm) ∙ h)
          | inr (why, broken) ↦
              let same : (wait_for_obs host (start w')).1 ≡ end = ground (arith, on, broken, h) in
              subst (λ x. IsGuarded x.trace) same ((stopped-Keeps host none (start w')).guarded tt)
        ]
