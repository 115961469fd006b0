-- ===== src/Supervisor/Handler/Restarts.antt =====
-- The restarts that a trace holds, and what one target adds to them.
use mailcow_watchdog.Prelude.{
  ◌≡◌, refl, sym, ap, ◌∙◌, Bool, true, false, ◌||◌, String, List, [], ◌∷◌, ◌++◌, append-nil,
  Bool-cases, Option-cases, inl, inr, All, str_eq,
}
use mailcow_watchdog.Check.{Check}
use mailcow_watchdog.DockerApi.{Container}
use mailcow_watchdog.Supervisor.Actions.{
  Docker, Env, State, Action, emit, sleep_for, gate_paused, gate_resumed, paused_set, init_db_delay,
  restart_sent, restart_observed, skipped, asked_running, RestartOutcome, event_observed, restarted,
}
use mailcow_watchdog.Supervisor.Actions.Adds.{
  Adds, Adds-refl, Adds-trans, Adds-emit, Adds-world, Allows, sleep_for-Adds, alert_details-Adds,
  log_to_redis-Adds,
}
use mailcow_watchdog.Supervisor.Handler.{
  is_young, ask_busy, settle, restart_now, restart_one, php_fpm_service,
}

-- An action that touches neither the gate nor its metric.
abbrev pub IsQuiet : Action → Type 0
IsQuiet gate_paused = ⊥
IsQuiet gate_resumed = ⊥
IsQuiet (paused_set b) = ⊥
IsQuiet _ = Unit

-- An action that restarts no container.
abbrev pub IsHarmless : Action → Type 0
IsHarmless (restart_sent id) = ⊥
IsHarmless _ = Unit

pub quiet : Allows IsQuiet
quiet = record { sleeps = λ d. tt; dispatches = λ a. tt; logs = λ m. tt; observes = λ o. tt }

pub harmless : Allows IsHarmless
harmless = record { sleeps = λ d. tt; dispatches = λ a. tt; logs = λ m. tt; observes = λ o. tt }

-- The containers whose restart was asked for, in order.
abbrev pub restart_ids : List Action → List String
restart_ids [] = []
restart_ids (restart_sent id ∷ acts) = id ∷ restart_ids acts
restart_ids (_ ∷ acts) = restart_ids acts

restart_ids-append :
    (xs ys : List Action) → restart_ids (xs ++ ys) ≡ restart_ids xs ++ restart_ids ys
restart_ids-append [] ys = refl
restart_ids-append (restart_sent id ∷ xs) ys = ap (λ l. id ∷ l) (restart_ids-append xs ys)
restart_ids-append (gate_paused ∷ xs) ys = restart_ids-append xs ys
restart_ids-append (_ ∷ xs) ys = restart_ids-append xs ys

restart_ids_of_harmless : (xs : List Action) → All IsHarmless xs → restart_ids xs ≡ []
restart_ids_of_harmless [] h = refl
restart_ids_of_harmless (restart_sent id ∷ xs) h = absurd h.0
restart_ids_of_harmless (gate_paused ∷ xs) h = restart_ids_of_harmless xs h.1
restart_ids_of_harmless (_ ∷ xs) h = restart_ids_of_harmless xs h.1

-- The one id of a target, or none if it is skipped.
abbrev pub ids_when : Bool → Container → List String
ids_when true target = []
ids_when false target = target.id ∷ []

module _ {World : Type 0} where
  -- The restarts that a state's trace holds.
  abbrev pub ids : State World → List String
  ids s = restart_ids s.trace

  pub ids_of_harmless : (s t : State World) → Adds IsHarmless s t → ids t ≡ ids s
  ids_of_harmless s t a =
      ap restart_ids a.trace_eq
      ∙ restart_ids-append s.trace a.new
      ∙ ap (λ l. ids s ++ l) (restart_ids_of_harmless a.new a.all)
      ∙ append-nil (ids s)

  ids-emit : (id : String) (s : State World) → ids (emit (restart_sent id) s) ≡ ids s ++ id ∷ []
  ids-emit id s = restart_ids-append s.trace (restart_sent id ∷ [])

module _ {World : Type 0} (env : Env World) (docker : Docker World) (container : String) where
  module _ {P : Action → Type 0} (allowed : Allows P) (c : Check World)
      (observed : (o : RestartOutcome) → P (restart_observed container o))
      (reported : P (event_observed c.event "restart")) where
    pub settle-Adds : (s : State World) → Adds P s (settle env container c s)
    unfolding settle
    settle-Adds s =
        Adds-trans
          (Adds-trans
            (Adds-trans (Adds-trans (Adds-emit _ s (observed restarted)) (Adds-emit _ _ reported))
              (log_to_redis-Adds env allowed _ _))
            (alert_details-Adds env allowed c "" 0 _))
          (sleep_for-Adds env allowed _ _)

  pub ask_busy-Adds :
      {P : Action → Type 0} (target : Container) (s : State World)
      → ((id want : String) → P (asked_running id want))
      → Adds P s (ask_busy env docker container target s).1
  unfolding ask_busy
  ask_busy-Adds target s h = elim (Bool-cases (str_eq container php_fpm_service)) [
    | inl e ↦ rw (e, ask_busy) (Adds-trans (Adds-world s _) (Adds-emit _ _ (h _ _)))
    | inr e ↦ rw (e, ask_busy) (Adds-refl s)
  ]

  -- A target is skipped if it has only just come up or is busy migrating the database.
  abbrev pub is_skipped : Container → State World → Bool
  is_skipped target s = is_young env target s.world || (ask_busy env docker container target s).0

  restart_now-ids :
      (target : Container) (c : Check World) (s : State World)
      → ids (restart_now env docker container target c s) ≡ ids s ++ target.id ∷ []
  unfolding restart_now
  restart_now-ids target c s =
      let (failure, w) = docker.restart target.id s.world in
      let s' : State World = emit (restart_sent target.id) (record s { world = w }) in
      let asked : ids s' ≡ ids s ++ target.id ∷ [] = ids-emit target.id (record s { world = w }) in
      elim (Option-cases failure) [
        | inl e ↦
            rw (e, restart_now)
              (ids_of_harmless s' (settle env container c s')
                  (settle-Adds harmless c (λ o. tt) tt s')
                ∙ asked)
        | inr (why, e) ↦
            rw (e, restart_now)
              (ids_of_harmless s' (emit (restart_observed container RestartOutcome.failed) s')
                  (Adds-emit (restart_observed container RestartOutcome.failed) s' tt)
                ∙ asked)
      ]

  -- One target is restarted exactly once, by its own id, unless it has been up for less than the
  -- minimum uptime or is php-fpm in the middle of a migration: then nothing is restarted.
  pub restart_one-ids :
      (target : Container) (c : Check World) (s : State World)
      → ids (restart_one env docker container target c s)
        ≡ ids s ++ ids_when (is_skipped target s) target
  unfolding restart_one
  restart_one-ids target c s =
      let (busy, s') = ask_busy env docker container target s in
      let asked : ids s' ≡ ids s = ids_of_harmless s s' (ask_busy-Adds target s (λ id want. tt)) in
      let skip = restart_observed container skipped in
      elim (Bool-cases (is_young env target s.world)) [
        | inl young ↦
            rw (young, restart_one)
              (ids_of_harmless s (emit skip s) (Adds-emit skip s tt) ∙ sym (append-nil (ids s)))
        | inr old ↦ elim (Bool-cases busy) [
          | inl migrating ↦
              rw (old, migrating, restart_one)
                (ids_of_harmless s' (sleep_for env init_db_delay (emit skip s')).1 (
                    Adds-trans (Adds-emit skip s' tt)
                      (sleep_for-Adds env harmless init_db_delay (emit skip s')))
                  ∙ asked
                  ∙ sym (append-nil (ids s)))
          | inr idle ↦
              rw (old, idle, restart_one)
                (restart_now-ids target c s' ∙ ap (λ l. l ++ target.id ∷ []) asked)
        ]
      ]
