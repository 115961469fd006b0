-- ===== src/Tests/Interleaving.antt =====
-- Concrete runs of the whole supervisor.
use mailcow_watchdog.Prelude.{ℕ, ◌≡◌, refl, ap, ◌∙◌, ◌++◌, Bool, true, false, some, [], ◌∷◌, arith}
use mailcow_watchdog.Supervisor.System.{
  raising, System, initial, begins, gives_up, raises, api_lost, Reachable, start, next, Steps,
}
use mailcow_watchdog.Supervisor.System.Order.{IsOrdered, reachable-IsOrdered}
use mailcow_watchdog.Supervisor.System.Progress.{reachable-handles}
use mailcow_watchdog.Supervisor.System.Blocking.{reachable-blocks}

abbrev no_restarts : ℕ → Bool
no_restarts i = false

-- Check 1 has raised its event, and the dockerapi is away.
raised_once : (s : System) × Reachable 2 no_restarts true s × (s.raised ≡ 1 ∷ [])
unfolding initial
raised_once = (
  _,
  next
      (next
        (next (next start (begins {i = 1} (omega arith) refl refl))
          (gives_up {i = 1} (omega arith) refl))
        (raises {i = 1} (omega arith) refl (omega arith)))
      (api_lost refl refl),
  refl,
)

reachable-IsOrdered_example : (s : System) × IsOrdered 2 no_restarts true s
reachable-IsOrdered_example =
    let (s, r, e) = raised_once in (s, reachable-IsOrdered 2 no_restarts true r)

reachable-handles_example :
    (s s' : System) × Steps 2 no_restarts true s s' × (s'.handled ≡ 1 ∷ 0 ∷ [])
reachable-handles_example =
    let (s, r, e) = raised_once in
    let (s', steps, done, idle, empty) = reachable-handles 2 no_restarts true 0 (omega arith) r in
    (s, s', steps, done ∙ ap (λ xs. xs ++ 0 ∷ []) e)

reachable-blocks_example :
    (s : System) × Reachable 2 no_restarts true s
    × (s.handling ≡ some 0)
    × (s.is_open ≡ true)
    × (s.queue ≡ 0 ∷ 0 ∷ [])
    × (s.phases 1 ≡ raising)
    × ((s' : System)
        → Steps 2 no_restarts true s s'
        → s'.handled ≡ s.handled
        → s'.phases 1 ≡ raising)
reachable-blocks_example =
    reachable-blocks 2 no_restarts true 0 1 (omega arith) (omega arith) (λ e. omega arith)
