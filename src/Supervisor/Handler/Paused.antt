-- ===== src/Supervisor/Handler/Paused.antt =====
-- A whole restart and the pause around it.
use mailcow_watchdog.Prelude.{
  ◌≡◌, ap, ◌∙◌, true, false, String, List, [], ◌∷◌, ◌++◌, append_assoc, Result, ok, err, Bool-cases,
  Option-cases, inl, inr, All,
}
use mailcow_watchdog.Check.{Check}
use mailcow_watchdog.DockerApi.{Container}
use mailcow_watchdog.Supervisor.Actions.{
  Docker, Env, State, Action, emit, pause_all, resume_all, sleep_for, gate_paused, gate_resumed,
  paused_set, restart_sent, restart_observed, skipped, found, pause_before_restart, init_db_delay,
  RestartOutcome,
}
use mailcow_watchdog.Supervisor.Actions.Adds.{
  Adds, Adds-refl, Adds-trans, Adds-emit, Adds-world, sleep_for-Adds,
}
use mailcow_watchdog.Supervisor.Handler.{
  is_young, ask_busy, restart_now, restart_one, restart_each, restart_found, restart_paused,
  restart,
}
use mailcow_watchdog.Supervisor.Handler.Restarts.{IsQuiet, quiet, settle-Adds, ask_busy-Adds}

bracketed :
    (old middle : List Action)
    → ((((old ++ gate_paused ∷ []) ++ paused_set true ∷ []) ++ middle) ++ gate_resumed ∷ [])
        ++ paused_set false ∷ []
      ≡ old ++ (gate_paused ∷ paused_set true ∷ (middle ++ gate_resumed ∷ paused_set false ∷ []))
bracketed old middle = simp append_assoc

module _ {World : Type 0} (env : Env World) where
  module _ (docker : Docker World) (container : String) (c : Check World) where
    restart_now-IsQuiet :
        (target : Container) (s : State World)
        → Adds IsQuiet s (restart_now env docker container target c s)
    unfolding restart_now
    restart_now-IsQuiet target s =
        let (failure, w) = docker.restart target.id s.world in
        let s' : State World = emit (restart_sent target.id) (record s { world = w }) in
        let asked : Adds IsQuiet s s' =
          Adds-trans (Adds-world s w)
            (Adds-emit (restart_sent target.id) (record s { world = w }) tt) in
        elim (Option-cases failure) [
          | inl e ↦
              rw (e, restart_now)
                (Adds-trans asked (settle-Adds env docker container quiet c (λ o. tt) tt s'))
          | inr (why, e) ↦
              rw (e, restart_now)
                (Adds-trans asked
                  (Adds-emit (restart_observed container RestartOutcome.failed) s' tt))
        ]

    restart_one-IsQuiet :
        (target : Container) (s : State World)
        → Adds IsQuiet s (restart_one env docker container target c s)
    unfolding restart_one
    restart_one-IsQuiet target s =
        let (busy, s') = ask_busy env docker container target s in
        let asked : Adds IsQuiet s s' =
          ask_busy-Adds env docker container target s (λ id want. tt) in
        let skip = restart_observed container skipped in
        elim (Bool-cases (is_young env target s.world)) [
          | inl young ↦ rw (young, restart_one) (Adds-emit skip s tt)
          | inr old ↦ elim (Bool-cases busy) [
            | inl migrating ↦
                rw (old, migrating, restart_one)
                  (Adds-trans (Adds-trans asked (Adds-emit skip s' tt))
                    (sleep_for-Adds env quiet init_db_delay (emit skip s')))
            | inr idle ↦
                rw (old, idle, restart_one) (Adds-trans asked (restart_now-IsQuiet target s'))
          ]
        ]

    restart_each-IsQuiet :
        (targets : List Container) (s : State World)
        → Adds IsQuiet s (restart_each env docker container targets c s)
    unfolding restart_each
    restart_each-IsQuiet [] s = Adds-refl s
    restart_each-IsQuiet (target ∷ more) s =
        Adds-trans (restart_one-IsQuiet target s)
          (restart_each-IsQuiet more (restart_one env docker container target c s))

    restart_found-IsQuiet :
        (answer : Result String (List Container)) (s : State World)
        → Adds IsQuiet s (restart_found env docker container c answer s)
    unfolding restart_found
    restart_found-IsQuiet (err e) s =
        Adds-emit (restart_observed container RestartOutcome.failed) s tt
    restart_found-IsQuiet (ok []) s =
        Adds-emit (restart_observed container RestartOutcome.failed) s tt
    restart_found-IsQuiet (ok (k ∷ ks)) s = restart_each-IsQuiet (k ∷ ks) s

  restart_paused-IsQuiet :
      (c : Check World) (s : State World) → Adds IsQuiet s (restart_paused env c s)
  unfolding restart_paused
  restart_paused-IsQuiet c s =
      let (awake, s') = sleep_for env pause_before_restart s in
      let slept = sleep_for-Adds env quiet pause_before_restart s in
      elim (Bool-cases awake) [
        | inr cut ↦ rw (cut, restart_paused) slept
        | inl up ↦ elim (Option-cases env.docker) [
          | inl e ↦
              rw (up, e, restart_paused)
                (Adds-trans slept
                  (Adds-emit (restart_observed c.event RestartOutcome.failed) s' tt))
          | inr (docker, e) ↦
              let (answer, w) = docker.find c.event s'.world in
              let s'' : State World = emit (found c.event) (record s' { world = w }) in
              rw (up, e, restart_paused)
                (Adds-trans slept (
                  Adds-trans
                    (Adds-trans (Adds-world s' w)
                      (Adds-emit (found c.event) (record s' { world = w }) tt))
                    (restart_found-IsQuiet docker c.event c answer s'')))
        ]
      ]

  -- Whatever fails on the way, a restart first pauses the checks and last resumes them, both
  -- exactly once: all that it does to containers lies in between.
  pub restart-bracketed :
      (c : Check World) (s : State World)
      → (middle : List Action) × ((restart env c s).trace
          ≡ s.trace
            ++ (gate_paused ∷ paused_set true ∷ (middle ++ gate_resumed ∷ paused_set false ∷ [])))
        × All IsQuiet middle
  unfolding restart pause_all resume_all
  restart-bracketed c s =
      let a = restart_paused-IsQuiet c (pause_all s) in
      (
        a.new,
        ap (λ l. (l ++ gate_resumed ∷ []) ++ paused_set false ∷ []) a.trace_eq
            ∙ bracketed s.trace a.new,
        a.all,
      )
