-- ===== src/Supervisor/System.antt =====
-- internal/supervisor: the goroutines that `Run` starts, as one step relation. Each check's runner, the
-- handler of the events and the watcher of the dockerapi go on in any order; they meet in the gate
-- and in the event channel, which has one slot for each check. How a round ends and how long
-- anything takes is left open, and so is the end of the context.
pub mod Order
pub mod Blocking
pub mod Progress
use mailcow_watchdog.Prelude.{
  ℕ, ◌<◌, ◌≡◌, Bool, true, false, List, [], ◌∷◌, ◌++◌, Option, none, some, ◌==◌, length,
  if◌then◌else◌,
}

-- Where a runner stands in its loop: before `gate.Wait`, in or behind the round, or at the select that
-- sends its event.
pub data Phase : Type 0 where
  waiting probing raising : Phase

-- `held` is the watcher's variable; `handling` is the check whose event is being handled, and `paused`
-- says that the handler has paused the gate for it. The last two fields are a record of what was sent and of what was handled, the first event first.
pub record System : Type 0 where
  pub is_open : Bool
  pub held : Bool
  pub phases : ℕ → Phase
  pub queue : List ℕ
  pub handling : Option ℕ
  pub paused : Bool
  pub raised : List ℕ
  pub handled : List ℕ

abbrev pub set : ℕ → Phase → (ℕ → Phase) → ℕ → Phase
set i p phases j = if j == i then p else phases j

-- `New`, and `Run` when the goroutines have started.
unfoldable pub initial : System
initial = record {
  is_open = true;
  held = false;
  phases = λ i. waiting;
  queue = [];
  handling = none;
  paused = false;
  raised = [];
  handled = [];
}

module _ (checks : ℕ) (restarts : ℕ → Bool) (watched : Bool) where
  -- After an event that restarts was received, `handle` pauses the gate first and resumes it last. The
  -- watcher acts only if there is a docker client.
  pub data Step (s : System) : System → Type 0 where
    begins :
        {i : ℕ}
        → i < checks
        → s.phases i ≡ waiting
        → s.is_open ≡ true
        → Step s (record s { phases = set i probing s.phases })
    goes_on :
        {i : ℕ}
        → i < checks
        → s.phases i ≡ probing
        → Step s (record s { phases = set i waiting s.phases })
    gives_up :
        {i : ℕ}
        → i < checks
        → s.phases i ≡ probing
        → Step s (record s { phases = set i raising s.phases })
    raises :
        {i : ℕ}
        → i < checks
        → s.phases i ≡ raising
        → length s.queue < checks
        → Step s (record s {
          phases = set i waiting s.phases;
          queue = s.queue ++ i ∷ [];
          raised = s.raised ++ i ∷ [];
        })
    takes :
        {i : ℕ} {queue : List ℕ}
        → s.handling ≡ none
        → s.queue ≡ i ∷ queue
        → Step s (record s { handling = some i; queue = queue })
    pauses :
        {i : ℕ}
        → s.handling ≡ some i
        → restarts i ≡ true
        → s.paused ≡ false
        → Step s (record s { paused = true; is_open = false })
    finishes :
        {i : ℕ}
        → s.handling ≡ some i
        → s.paused ≡ restarts i
        → Step s (record s {
          handling = none;
          handled = s.handled ++ i ∷ [];
          is_open = if restarts i then true else s.is_open;
          paused = false;
        })
    api_lost : watched ≡ true → s.held ≡ false → Step s (record s { held = true; is_open = false })
    api_back : s.held ≡ true → Step s (record s { held = false; is_open = true })

  pub data Reachable : System → Type 0 where
    start : Reachable initial
    next : {s s' : System} → Reachable s → Step s s' → Reachable s'

  -- Any number of steps.
  pub data Steps (s : System) : System → Type 0 where
    stay : Steps s s
    then_next : {t u : System} → Steps s t → Step t u → Steps s u

  pub Steps-trans : {s t u : System} → Steps s t → Steps t u → Steps s u
  Steps-trans p stay = p
  Steps-trans p (then_next q e) = then_next (Steps-trans p q) e

  pub Reachable-Steps : {s t : System} → Reachable s → Steps s t → Reachable t
  Reachable-Steps r stay = r
  Reachable-Steps r (then_next q e) = next (Reachable-Steps r q) e
