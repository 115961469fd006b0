-- ===== src/Supervisor/Actions/Adds.antt =====
-- What a step adds to the trace: rules for composing steps.
use mailcow_watchdog.Prelude.{
  ℕ, ◌≡◌, refl, sym, ap, ◌∙◌, String, List, [], ◌∷◌, ◌++◌, append_assoc, append-nil, Option-cases,
  All, All-append, inl, inr,
}
use mailcow_watchdog.Check.{Check, details_of}
use mailcow_watchdog.Notify.{Alert}
use mailcow_watchdog.Supervisor.Actions.{
  Env, Action, SendOutcome, State, emit, slept, dispatched, message_logged, notification_observed,
  disabled, sleep_for, alert, alert_details, log_to_redis,
}

-- The trace of t is that of s with more actions at its end, all of which satisfy P.
pub record Adds {World : Type 0} (P : Action → Type 0) (s t : State World) : Type 0 where
  pub new : List Action
  pub trace_eq : t.trace ≡ s.trace ++ new
  pub all : All P new

module _ {World : Type 0} {P : Action → Type 0} where
  pub Adds-refl : (s : State World) → Adds P s s
  Adds-refl s = record { new = []; trace_eq = sym (append-nil s.trace); all = tt }

  pub Adds-trans : {s t u : State World} → Adds P s t → Adds P t u → Adds P s u
  Adds-trans {s} p q = record {
    new = p.new ++ q.new;
    trace_eq = q.trace_eq ∙ ap (λ l. l ++ q.new) p.trace_eq ∙ append_assoc s.trace p.new q.new;
    all = All-append P p.new q.new p.all q.all;
  }

  pub Adds-emit : (a : Action) (s : State World) → P a → Adds P s (emit a s)
  Adds-emit a s h = record { new = a ∷ []; trace_eq = refl; all = (h, tt) }

  -- A change of the world leaves the trace alone.
  pub Adds-world : (s : State World) (w : World) → Adds P s (record s { world = w })
  Adds-world s w = record { new = []; trace_eq = sym (append-nil s.trace); all = tt }

-- The actions that sleeping, alerting and logging perform are harmless to the containers.
pub record Allows (P : Action → Type 0) : Type 0 where
  pub sleeps : (d : ℕ) → P (slept d)
  pub dispatches : (a : Alert) → P (dispatched a)
  pub logs : (m : String) → P (message_logged m)
  pub observes : (o : SendOutcome) → P (notification_observed o)

module _ {World : Type 0} {P : Action → Type 0} (env : Env World) (ok : Allows P) where
  pub sleep_for-Adds : (d : ℕ) (s : State World) → Adds P s (sleep_for env d s).1
  unfolding sleep_for
  sleep_for-Adds d s = record { new = slept d ∷ []; trace_eq = refl; all = (ok.sleeps d, tt) }

  pub alert-Adds : (a : Alert) (s : State World) → Adds P s (alert env a s)
  unfolding alert
  alert-Adds a s = elim (Option-cases env.dispatcher) [
    | inl e ↦ rw (e, alert) (Adds-emit (notification_observed disabled) s (ok.observes disabled))
    | inr (d, e) ↦
        rw (e, alert)
          (Adds-trans (Adds-trans (Adds-world s _) (Adds-emit (dispatched a) _ (ok.dispatches a)))
            (Adds-emit _ _ (ok.observes _)))
  ]

  pub alert_details-Adds :
      (c : Check World) (message : String) (throttle : ℕ) (s : State World)
      → Adds P s (alert_details env c message throttle s)
  unfolding alert_details
  alert_details-Adds c message throttle s =
      let (details, w) = details_of c s.world in
      Adds-trans (Adds-world s w) (alert-Adds _ (record s { world = w }))

  pub log_to_redis-Adds : (m : String) (s : State World) → Adds P s (log_to_redis env m s)
  unfolding log_to_redis
  log_to_redis-Adds m s = Adds-trans (Adds-world s _) (Adds-emit (message_logged m) _ (ok.logs m))
