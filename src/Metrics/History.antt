-- ===== src/Metrics/History.antt =====
-- The published numbers as an account of what happened.
use mailcow_watchdog.Prelude.{
  ℕ, ◌+◌, ◌≡◌, refl, ap, ◌∙◌, Bool, false, ◌&&◌, String, List, [], ◌∷◌, str_eq, eq_iff,
  if◌then◌else◌, arith,
}
use mailcow_watchdog.Health.{Status, Snapshot, label}
use mailcow_watchdog.Metrics.{
  Family, health_points, probe_total, exhausted, restarts, events, notifications, paused, Metrics,
  Build, number_of, new_metrics, observe_health, observe_probe, observe_exhausted, observe_restart,
  observe_event, observe_notification, set_paused, init_check,
}

-- A call of the package, with its arguments.
pub data Call (Seconds : Type 0) : Type 0 where
  health : String → Snapshot → Call Seconds
  probe : String → String → Status → Seconds → Call Seconds
  death : String → Call Seconds
  restart : String → String → Call Seconds
  event : String → String → Call Seconds
  notification : String → Call Seconds
  hold : Bool → Call Seconds
  check : String → ℕ → Call Seconds

module _ {Seconds : Type 0} where
  abbrev pub apply : Call Seconds → Metrics Seconds → Metrics Seconds
  apply (health k s) = observe_health k s
  apply (probe k p status t) = observe_probe k p status t
  apply (death k) = observe_exhausted k
  apply (restart c outcome) = observe_restart c outcome
  apply (event e action) = observe_event e action
  apply (notification outcome) = observe_notification outcome
  apply (hold b) = set_paused b
  apply (check k budget) = init_check k budget

  -- What is published after a history, the newest call first.
  unfoldable pub published : Build → List (Call Seconds) → Metrics Seconds
  published build [] = new_metrics build
  published build (c ∷ history) = apply c (published build history)

  abbrev pub count : (Call Seconds → Bool) → List (Call Seconds) → ℕ
  count p [] = 0
  count p (c ∷ history) = (if p c then 1 else 0) + count p history

  abbrev pub is_probe : String → String → Status → Call Seconds → Bool
  is_probe k p status (probe k' p' status' t) =
      str_eq k' k && (str_eq p' p && str_eq (label status') (label status))
  is_probe k p status _ = false

  abbrev pub is_death : String → Call Seconds → Bool
  is_death k (death k') = str_eq k' k
  is_death k _ = false

  abbrev pub is_restart : String → String → Call Seconds → Bool
  is_restart c outcome (restart c' outcome') = str_eq c' c && str_eq outcome' outcome
  is_restart c outcome _ = false

  abbrev pub is_event : String → String → Call Seconds → Bool
  is_event e action (event e' action') = str_eq e' e && str_eq action' action
  is_event e action _ = false

  abbrev pub is_notification : String → Call Seconds → Bool
  is_notification outcome (notification outcome') = str_eq outcome' outcome
  is_notification outcome _ = false

  -- What was last said of the budget of a check, and of the pause.
  abbrev pub last_points : String → List (Call Seconds) → ℕ
  last_points k [] = 0
  last_points k (health k' s ∷ history) = if str_eq k' k then s.remaining else last_points k history
  last_points k (check k' budget ∷ history) = if str_eq k' k then budget else last_points k history
  last_points k (_ ∷ history) = last_points k history

  abbrev pub last_hold : List (Call Seconds) → ℕ
  last_hold [] = 0
  last_hold (hold b ∷ history) = number_of b
  last_hold (_ ∷ history) = last_hold history

  -- Each counter takes one call at a time.
  probes_step :
      (k p : String) (status : Status) (call : Call Seconds) (m : Metrics Seconds)
      → (apply call m).value (probe_total, k ∷ p ∷ label status ∷ [])
        ≡ (if is_probe k p status call then 1 else 0)
          + m.value (probe_total, k ∷ p ∷ label status ∷ [])
  unfolding observe_health observe_probe observe_exhausted observe_restart observe_event
      observe_notification set_paused init_check
  probes_step k p status (probe k' p' status' t) m =
      ground (arith, eq_iff k' k, eq_iff p' p, eq_iff (label status') (label status))
  probes_step k p status (health x s) m = ground arith
  probes_step k p status _ m = ground arith

  deaths_step :
      (k : String) (call : Call Seconds) (m : Metrics Seconds)
      → (apply call m).value (exhausted, k ∷ [])
        ≡ (if is_death k call then 1 else 0) + m.value (exhausted, k ∷ [])
  unfolding observe_health observe_probe observe_exhausted observe_restart observe_event
      observe_notification set_paused init_check
  deaths_step k (death k') m = ground (arith, eq_iff k' k)
  deaths_step k (health x s) m = ground arith
  deaths_step k _ m = ground arith

  restarts_step :
      (c outcome : String) (call : Call Seconds) (m : Metrics Seconds)
      → (apply call m).value (restarts, c ∷ outcome ∷ [])
        ≡ (if is_restart c outcome call then 1 else 0) + m.value (restarts, c ∷ outcome ∷ [])
  unfolding observe_health observe_probe observe_exhausted observe_restart observe_event
      observe_notification set_paused init_check
  restarts_step c outcome (restart c' outcome') m =
      ground (arith, eq_iff c' c, eq_iff outcome' outcome)
  restarts_step c outcome (health x s) m = ground arith
  restarts_step c outcome _ m = ground arith

  events_step :
      (e action : String) (call : Call Seconds) (m : Metrics Seconds)
      → (apply call m).value (events, e ∷ action ∷ [])
        ≡ (if is_event e action call then 1 else 0) + m.value (events, e ∷ action ∷ [])
  unfolding observe_health observe_probe observe_exhausted observe_restart observe_event
      observe_notification set_paused init_check
  events_step e action (event e' action') m = ground (arith, eq_iff e' e, eq_iff action' action)
  events_step e action (health x s) m = ground arith
  events_step e action _ m = ground arith

  notifications_step :
      (outcome : String) (call : Call Seconds) (m : Metrics Seconds)
      → (apply call m).value (notifications, outcome ∷ [])
        ≡ (if is_notification outcome call then 1 else 0) + m.value (notifications, outcome ∷ [])
  unfolding observe_health observe_probe observe_exhausted observe_restart observe_event
      observe_notification set_paused init_check
  notifications_step outcome (notification outcome') m = ground (arith, eq_iff outcome' outcome)
  notifications_step outcome (health x s) m = ground arith
  notifications_step outcome _ m = ground arith

  module _ (build : Build) where
    counted :
        (family : Family) (labels : List String) (test : Call Seconds → Bool)
        → (new_metrics {Seconds = Seconds} build).value (family, labels) ≡ 0
        → ((call : Call Seconds) (m : Metrics Seconds)
            → (apply call m).value (family, labels)
              ≡ (if test call then 1 else 0) + m.value (family, labels))
        → (history : List (Call Seconds))
        → (published build history).value (family, labels) ≡ count test history
    unfolding published
    counted family labels test start step [] = start
    counted family labels test start step (c ∷ history) =
        step c (published build history)
        ∙ ap (λ n. (if test c then 1 else 0) + n) (counted family labels test start step history)

    points_lem :
        (k : String) (history : List (Call Seconds))
        → (published build history).value (health_points, k ∷ []) ≡ last_points k history
    unfolding published new_metrics observe_health observe_probe observe_exhausted observe_restart
        observe_event observe_notification set_paused init_check
    points_lem k [] = refl
    points_lem k (health k' s ∷ history) = ground (arith, points_lem k history)
    points_lem k (check k' budget ∷ history) = ground (arith, points_lem k history)
    points_lem k (hold b ∷ history) = ground (arith, points_lem k history)
    points_lem k (c ∷ history) = ground (arith, points_lem k history)

    hold_lem :
        (history : List (Call Seconds))
        → (published build history).value (paused, []) ≡ last_hold history
    unfolding published new_metrics observe_health observe_probe observe_exhausted observe_restart
        observe_event observe_notification set_paused init_check
    hold_lem [] = refl
    hold_lem (health k' s ∷ history) = ground (arith, hold_lem history)
    hold_lem (c ∷ history) = ground (arith, hold_lem history)

    -- Whatever the watchdog has reported since the start, in whatever order: each counter shows how often
    -- its call was made with its labels, the points of a check are those that were last reported of
    -- it, and the pause is the one last set.
    pub published_lem :
        (history : List (Call Seconds)) (k p : String) (status : Status) (name outcome : String)
        → let shown = (published build history).value in
          (shown (probe_total, k ∷ p ∷ label status ∷ []) ≡ count (is_probe k p status) history)
          × (shown (exhausted, k ∷ []) ≡ count (is_death k) history)
          × (shown (restarts, name ∷ outcome ∷ []) ≡ count (is_restart name outcome) history)
          × (shown (events, name ∷ outcome ∷ []) ≡ count (is_event name outcome) history)
          × (shown (notifications, outcome ∷ []) ≡ count (is_notification outcome) history)
          × (shown (health_points, k ∷ []) ≡ last_points k history)
          × (shown (paused, []) ≡ last_hold history)
    unfolding new_metrics
    published_lem history k p status name outcome = (
      counted probe_total (k ∷ p ∷ label status ∷ []) (is_probe k p status) refl
          (probes_step k p status) history,
      counted exhausted (k ∷ []) (is_death k) refl (deaths_step k) history,
      counted restarts (name ∷ outcome ∷ []) (is_restart name outcome) refl
          (restarts_step name outcome) history,
      counted events (name ∷ outcome ∷ []) (is_event name outcome) refl (events_step name outcome)
          history,
      counted notifications (outcome ∷ []) (is_notification outcome) refl
          (notifications_step outcome) history,
      points_lem k history,
      hold_lem history,
    )
