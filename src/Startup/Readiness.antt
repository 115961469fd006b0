-- ===== src/Startup/Readiness.antt =====
-- What the endpoint says of the start.
use mailcow_watchdog.Prelude.{
  ℕ, ◌≡◌, ◌⊎◌, inl, inr, refl, Bool, true, false, String, List, [], ◌∷◌, Option, none, some,
}
use mailcow_watchdog.Config.{Config}
use mailcow_watchdog.Obs.{readyz, respond}
use mailcow_watchdog.Startup.{
  Action, opened, closed, available, ready_set, initialised, alerted, notification_observed,
  supervised, Host, State,
}
use mailcow_watchdog.Startup.Run.{run_configured}
use mailcow_watchdog.Startup.Handles.{Reached, IsGuarded}
use mailcow_watchdog.Startup.Cleanup.{run_configured-IsGuarded}
use mailcow_watchdog.Startup.Answering.{IsCovered, run_configured-IsCovered}

-- The readiness after a trace.
abbrev pub is_ready : List Action → Bool
is_ready [] = false
is_ready (ready_set ∷ t) = true
is_ready (_ ∷ t) = is_ready t

-- P holds at every moment of a trace.
abbrev pub Always : (List Action → Type 0) → List Action → Type 0
Always P [] = P []
Always P (a ∷ t) = P (a ∷ t) × Always P t

-- The endpoint answers that the program starts up, or both dependencies have answered.
abbrev pub IsHonest : List Action → Type 0
IsHonest t =
    (respond (is_ready t) readyz ≡ (503, "starting up\n"))
    ⊎ ((respond (is_ready t) readyz ≡ (200, "ready\n")) × Reached "SQL" t × Reached "Redis" t)

later-IsHonest :
    (a : Action) (t : List Action) → is_ready (a ∷ t) ≡ is_ready t → IsHonest t → IsHonest (a ∷ t)
later-IsHonest a t e (inl h) = inl (rw e h)
later-IsHonest a t e (inr (h, sql, redis)) = inr (rw e h, inr sql, inr redis)

-- An action that leaves the readiness as it is.
grown :
    (a : Action) (t : List Action)
    → is_ready (a ∷ t) ≡ is_ready t
    → IsHonest t × Always IsHonest t
    → IsHonest (a ∷ t) × Always IsHonest (a ∷ t)
grown a t e (h, past) = let h' = later-IsHonest a t e h in (h', (h', past))

guarded-Always : (t : List Action) → IsGuarded t → IsHonest t × Always IsHonest t
unfolding respond
guarded-Always [] g = (inl refl, inl refl)
guarded-Always (ready_set ∷ t) (sql, redis, g) =
    let h : IsHonest (ready_set ∷ t) = inr (refl, inr sql, inr redis) in
    (h, (h, (guarded-Always t g).1))
guarded-Always (supervised checks ∷ t) (sql, redis, g) =
    grown (supervised checks) t refl (guarded-Always t g)
guarded-Always (opened x ∷ t) g = grown (opened x) t refl (guarded-Always t g)
guarded-Always (closed x ∷ t) g = grown (closed x) t refl (guarded-Always t g)
guarded-Always (available x ∷ t) g = grown (available x) t refl (guarded-Always t g)
guarded-Always (initialised x n ∷ t) g = grown (initialised x n) t refl (guarded-Always t g)
guarded-Always (alerted x ∷ t) g = grown (alerted x) t refl (guarded-Always t g)
guarded-Always (notification_observed x ∷ t) g =
    grown (notification_observed x) t refl (guarded-Always t g)

-- At every moment of a start that has ended the endpoint was honest, and the supervisor was not started
-- before both dependencies had answered.
abbrev pub IsHonestRun : {World : Type 0} → Option (Option String × State World) → Type 0
IsHonestRun none = Unit
IsHonestRun (some (outcome, end)) = Always IsHonest end.trace × IsGuarded end.trace

-- Unless the watchdog is disabled: if the start ends, then however it ends, /readyz has answered 503 at
-- each moment, or 200 after the waits for the database and for Redis were over, and the supervisor was
-- started only then; if either was reported, both connections have in fact passed a test. If the
-- start does not end within the given number of attempts, it is still in `connect`.
pub run_configured-readyz :
    {World : Type 0} (host : Host World) (attempts : ℕ) (cfg : Config) (w : World)
    → cfg.enabled ≡ true
    → IsHonestRun (run_configured host attempts cfg w)
      × IsCovered host attempts cfg w (run_configured host attempts cfg w)
run_configured-readyz {World} host attempts cfg w on = (
  honest (run_configured host attempts cfg w) refl,
  run_configured-IsCovered host attempts cfg w on,
)
  where
    honest :
        (r : Option (Option String × State World))
        → run_configured host attempts cfg w ≡ r
        → IsHonestRun r
    honest none e = tt
    honest (some (outcome, end)) e =
        let g = run_configured-IsGuarded host attempts cfg w outcome end on e in
        ((guarded-Always end.trace g).1, g)
