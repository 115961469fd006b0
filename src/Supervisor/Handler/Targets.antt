-- ===== src/Supervisor/Handler/Targets.antt =====
-- The targets of a restart, and which of them it asks for.
use mailcow_watchdog.Prelude.{
  ◌≡◌, refl, sym, ap, ◌∙◌, Bool, true, false, String, List, [], ◌∷◌, ◌++◌, append_assoc, append-nil,
  none, some, Result, ok, err, Bool-cases, Option-cases, inl, inr, if◌then◌else◌,
}
use mailcow_watchdog.Check.{Check}
use mailcow_watchdog.DockerApi.{Container}
use mailcow_watchdog.Supervisor.Actions.{
  Docker, Env, State, Action, emit, pause_all, resume_all, sleep_for, gate_paused, gate_resumed,
  paused_set, restart_observed, found, pause_before_restart, RestartOutcome,
}
use mailcow_watchdog.Supervisor.Actions.Adds.{
  Adds, Adds-refl, Adds-trans, Adds-emit, Adds-world, sleep_for-Adds,
}
use mailcow_watchdog.Supervisor.Handler.{
  restart_one, restart_each, restart_found, restart_paused, restart,
}
use mailcow_watchdog.Supervisor.Handler.Restarts.{
  IsHarmless, harmless, ids, ids_of_harmless, is_skipped, ids_when, restart_one-ids,
}

-- A choice of the listed containers, each at most once and in order, by their ids.
pub data Picks : List String → List Container → Type 0 where
  none_left : Picks [] []
  skips :
      {chosen : List String} {k : Container} {ks : List Container}
      → Picks chosen ks
      → Picks chosen (k ∷ ks)
  takes :
      {chosen : List String} {k : Container} {ks : List Container} {id : String}
      → id ≡ k.id
      → Picks chosen ks
      → Picks (id ∷ chosen) (k ∷ ks)

Picks-when :
    (b : Bool) (k : Container) {chosen : List String} {ks : List Container}
    → Picks chosen ks
    → Picks (ids_when b k ++ chosen) (k ∷ ks)
Picks-when true k p = skips p
Picks-when false k p = takes refl p

-- What a restart asked of the containers, if the look-up of the check's event found these.
pub record Restarted {World : Type 0} (targets : List Container) (s t : State World) : Type 0 where
  pub chosen : List String
  pub ids_eq : ids t ≡ ids s ++ chosen
  pub picked : Picks chosen targets

module _ {World : Type 0} (env : Env World) (docker : Docker World) (container : String)
    (c : Check World) where
  pub restart_each-Restarted :
      (targets : List Container) (s : State World)
      → Restarted targets s (restart_each env docker container targets c s)
  unfolding restart_each
  restart_each-Restarted [] s = record {
    chosen = [];
    ids_eq = sym (append-nil (ids s));
    picked = none_left;
  }
  restart_each-Restarted (k ∷ ks) s =
      let s' = restart_one env docker container k c s in
      let rest = restart_each-Restarted ks s' in
      let now = ids_when (is_skipped env docker container k s) k in
      record {
        chosen = now ++ rest.chosen;
        ids_eq =
            rest.ids_eq
            ∙ ap (λ l. l ++ rest.chosen) (restart_one-ids env docker container k c s)
            ∙ append_assoc (ids s) now rest.chosen;
        picked = Picks-when (is_skipped env docker container k s) k rest.picked;
      }

Picks-none : (ks : List Container) → Picks [] ks
Picks-none [] = none_left
Picks-none (k ∷ ks) = skips (Picks-none ks)

unchanged :
    {World : Type 0} (s t : State World) (ks : List Container)
    → Adds IsHarmless s t
    → Restarted ks s t
unchanged s t ks a = record {
  chosen = [];
  ids_eq = ids_of_harmless s t a ∙ sym (append-nil (ids s));
  picked = Picks-none ks;
}

-- Harmless steps before and after a restart do not show.
around :
    {World : Type 0} (r s t u : State World) (ks : List Container)
    → Adds IsHarmless r s
    → Restarted ks s t
    → Adds IsHarmless t u
    → Restarted ks r u
around r s t u ks before k after = record {
  chosen = k.chosen;
  ids_eq =
      ids_of_harmless t u after ∙ k.ids_eq ∙ ap (λ l. l ++ k.chosen) (ids_of_harmless r s before);
  picked = k.picked;
}

pause_all-IsHarmless : {World : Type 0} (s : State World) → Adds IsHarmless s (pause_all s)
unfolding pause_all
pause_all-IsHarmless s =
    Adds-trans (Adds-emit gate_paused s tt) (Adds-emit (paused_set true) (emit gate_paused s) tt)

resume_all-IsHarmless : {World : Type 0} (s : State World) → Adds IsHarmless s (resume_all s)
unfolding resume_all
resume_all-IsHarmless s =
    Adds-trans (Adds-emit gate_resumed s tt) (Adds-emit (paused_set false) (emit gate_resumed s) tt)

abbrev found_or_none : Result String (List Container) → List Container
found_or_none (err e) = []
found_or_none (ok ks) = ks

module _ {World : Type 0} (env : Env World) where
  -- The containers that a restart of the check's event may touch: what the look-up finds, if the
  -- pause before it was not cut short and there is a client to ask.
  abbrev pub targets : Check World → State World → List Container
  targets c s =
      let (awake, s') = sleep_for env pause_before_restart (pause_all s) in
      let listed : List Container = elim env.docker [
        | none ↦ []
        | some docker ↦ found_or_none (docker.find c.event s'.world).0
      ] in
      if awake then listed else []

  restart_found-Restarted :
      (docker : Docker World) (c : Check World) (answer : Result String (List Container))
      (s : State World)
      → Restarted (found_or_none answer) s (restart_found env docker c.event c answer s)
  unfolding restart_found
  restart_found-Restarted docker c (err e) s =
      unchanged s (emit failure s) [] (Adds-emit failure s tt)
    where
      failure : Action
      failure = restart_observed c.event RestartOutcome.failed
  restart_found-Restarted docker c (ok []) s =
      unchanged s (emit failure s) [] (Adds-emit failure s tt)
    where
      failure : Action
      failure = restart_observed c.event RestartOutcome.failed
  restart_found-Restarted docker c (ok (k ∷ ks)) s =
      restart_each-Restarted env docker c.event c (k ∷ ks) s

  restart_paused-Restarted :
      (c : Check World) (s : State World)
      → Restarted (targets c s) (pause_all s) (restart_paused env c (pause_all s))
  unfolding restart_paused
  restart_paused-Restarted c s₀ =
      let s = pause_all s₀ in
      let (awake, s') = sleep_for env pause_before_restart s in
      let slept = sleep_for-Adds env harmless pause_before_restart s in
      let failure = restart_observed c.event RestartOutcome.failed in
      elim (Bool-cases awake) [
        | inr cut ↦ rw (cut, restart_paused) (unchanged s s' [] slept)
        | inl up ↦ elim (Option-cases env.docker) [
          | inl e ↦
              rw (up, e, restart_paused)
                (unchanged s (emit failure s') [] (Adds-trans slept (Adds-emit failure s' tt)))
          | inr (docker, e) ↦
              let (answer, w) = docker.find c.event s'.world in
              let s'' : State World = emit (found c.event) (record s' { world = w }) in
              let asked : Adds IsHarmless s s'' = Adds-trans slept (
                Adds-trans (Adds-world s' w)
                  (Adds-emit (found c.event) (record s' { world = w }) tt)) in
              let end = restart_found env docker c.event c answer s'' in
              rw (up, e, restart_paused)
                (around s s'' end end (found_or_none answer) asked
                  (restart_found-Restarted docker c answer s'') (Adds-refl end))
        ]
      ]

  -- A restart asks only for containers that the look-up of the check's event found, for each at
  -- most once and in the order found; it asks for none if the pause was cut short, if there is no
  -- client, or if the look-up failed.
  pub restart-Restarted :
      (c : Check World) (s : State World) → Restarted (targets c s) s (restart env c s)
  unfolding restart
  restart-Restarted c s =
      let s' = pause_all s in
      let t = restart_paused env c s' in
      around s s' t (resume_all t) (targets c s) (pause_all-IsHarmless s)
        (restart_paused-Restarted c s) (resume_all-IsHarmless t)
