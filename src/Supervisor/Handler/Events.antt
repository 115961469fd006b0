-- ===== src/Supervisor/Handler/Events.antt =====
-- What handling a row of events leaves of the gate.
use mailcow_watchdog.Prelude.{
  ◌≡◌, refl, ap, ◌∙◌, Bool, true, false, List, [], ◌∷◌, ◌++◌, append_assoc, append-nil, Bool-cases,
  inl, inr, All, sym,
}
use mailcow_watchdog.Check.{Check, restarts_container}
use mailcow_watchdog.Supervisor.Actions.{Env, State, Action, gate_paused, gate_resumed, paused_set}
use mailcow_watchdog.Supervisor.Handler.{restart, handle, handle_events}
use mailcow_watchdog.Supervisor.Handler.Restarts.{IsQuiet}
use mailcow_watchdog.Supervisor.Handler.Paused.{restart-bracketed}
use mailcow_watchdog.Supervisor.Handler.Branches.{IsRemote, handle-restarts, handle-spares}

-- The row of gate calls in a trace: pauses and resumes, one after the other.
abbrev pub gate_calls : List Action → List Bool
gate_calls [] = []
gate_calls (gate_paused ∷ acts) = true ∷ gate_calls acts
gate_calls (gate_resumed ∷ acts) = false ∷ gate_calls acts
gate_calls (_ ∷ acts) = gate_calls acts

gate_calls-append : (xs ys : List Action) → gate_calls (xs ++ ys) ≡ gate_calls xs ++ gate_calls ys
gate_calls-append [] ys = refl
gate_calls-append (gate_paused ∷ xs) ys = ap (λ l. true ∷ l) (gate_calls-append xs ys)
gate_calls-append (gate_resumed ∷ xs) ys = ap (λ l. false ∷ l) (gate_calls-append xs ys)
gate_calls-append (_ ∷ xs) ys = gate_calls-append xs ys

gate_calls_of_quiet : (xs : List Action) → All IsQuiet xs → gate_calls xs ≡ []
gate_calls_of_quiet [] h = refl
gate_calls_of_quiet (gate_paused ∷ xs) h = absurd h.0
gate_calls_of_quiet (gate_resumed ∷ xs) h = absurd h.0
gate_calls_of_quiet (Action.slept d ∷ xs) h = gate_calls_of_quiet xs h.1
gate_calls_of_quiet (_ ∷ xs) h = gate_calls_of_quiet xs h.1

IsRemote-IsQuiet : (xs : List Action) → All IsRemote xs → All IsQuiet xs
IsRemote-IsQuiet [] h = tt
IsRemote-IsQuiet (x ∷ xs) h = (h.0.0, IsRemote-IsQuiet xs h.1)

-- One pause and one resume for each event that names a container to restart, nothing for others.
abbrev pub brackets : Bool → List Bool
brackets true = true ∷ false ∷ []
brackets false = []

abbrev pub all_brackets : {World : Type 0} → List (Check World) → List Bool
all_brackets [] = []
all_brackets (c ∷ events) = brackets (restarts_container c.event) ++ all_brackets events

module _ {World : Type 0} (env : Env World) where
  restart-gate_calls :
      (c : Check World) (s : State World)
      → gate_calls (restart env c s).trace ≡ gate_calls s.trace ++ true ∷ false ∷ []
  restart-gate_calls c s =
      let (middle, e, quiet) = restart-bracketed env c s in
      ap gate_calls e
      ∙ gate_calls-append s.trace
          (gate_paused ∷ paused_set true ∷ (middle ++ gate_resumed ∷ paused_set false ∷ []))
      ∙ ap (λ l. gate_calls s.trace ++ true ∷ l)
          (gate_calls-append middle (gate_resumed ∷ paused_set false ∷ [])
            ∙ ap (λ l. l ++ false ∷ []) (gate_calls_of_quiet middle quiet))

  handle-gate_calls :
      (c : Check World) (s : State World)
      → gate_calls (handle env c s).trace
        ≡ gate_calls s.trace ++ brackets (restarts_container c.event)
  handle-gate_calls c s = elim (Bool-cases (restarts_container c.event)) [
    | inl e ↦
        rw (e) (ap (λ t. gate_calls t.trace) (handle-restarts env c s e) ∙ restart-gate_calls c s)
    | inr e ↦
        let a = handle-spares env c s e in
        rw (e) (
          ap gate_calls a.trace_eq
          ∙ gate_calls-append s.trace a.new
          ∙ ap (λ l. gate_calls s.trace ++ l)
              (gate_calls_of_quiet a.new (IsRemote-IsQuiet a.new a.all)))
  ]

  -- The supervisor handles its events one after the other: over any row of them it pauses and
  -- resumes the checks once for each event that names a container to restart, the pause first and
  -- before the next event the resume, and never for any other event.
  pub handle_events-gate_calls :
      (events : List (Check World)) (s : State World)
      → gate_calls (handle_events env events s).trace ≡ gate_calls s.trace ++ all_brackets events
  unfolding handle_events
  handle_events-gate_calls [] s = sym (append-nil (gate_calls s.trace))
  handle_events-gate_calls (c ∷ events) s =
      handle_events-gate_calls events (handle env c s)
      ∙ ap (λ l. l ++ all_brackets events) (handle-gate_calls c s)
      ∙ append_assoc (gate_calls s.trace) (brackets (restarts_container c.event))
          (all_brackets events)
