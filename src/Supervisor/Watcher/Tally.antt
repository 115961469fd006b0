-- ===== src/Supervisor/Watcher/Tally.antt =====
-- What the watcher's steps add up to in a trace.
use mailcow_watchdog.Prelude.{
  ℕ, zero, suc, ◌+◌, ◌*◌, ◌≡◌, refl, ap, ◌∙◌, Bool, true, false, List, [], ◌∷◌, ◌++◌, length, arith,
}
use mailcow_watchdog.Health.{Tracker}
use mailcow_watchdog.Supervisor.Actions.{
  State, Action, gate_paused, gate_resumed, paused_set, healed, emit, pause_all, resume_all,
  heal_points,
}
use mailcow_watchdog.Supervisor.Watcher.{heal_all, heal_each}

-- The sum of a weight over the actions of a trace.
abbrev pub tally : (Action → ℕ) → List Action → ℕ
tally f [] = 0
tally f (a ∷ acts) = f a + tally f acts

abbrev pub pausing : Action → ℕ
pausing gate_paused = 1
pausing _ = 0

abbrev pub resuming : Action → ℕ
resuming gate_resumed = 1
resuming _ = 0

abbrev pub repaying : Action → ℕ
repaying (healed _) = 1
repaying _ = 0

tally-append : (f : Action → ℕ) (xs ys : List Action) → tally f (xs ++ ys) ≡ tally f xs + tally f ys
tally-append f [] ys = omega arith
tally-append f (x ∷ xs) ys = omega (arith, tally-append f xs ys)

abbrev pub held_count : Bool → ℕ
held_count true = 1
held_count false = 0

abbrev pub times {ℓ} : {A : Type ℓ} → ℕ → (A → A) → A → A
times zero f x = x
times (suc n) f x = times n f (f x)

-- The trackers of the watcher at the start, the actions since, and what they come to: every
-- runner is healed once per recovery, and the gate is paused once more than it is resumed just
-- while it is held.
pub record IsWatching (held : Bool) (ts : List Tracker) (trackers : List Tracker)
    (trace : List Action) : Type 0 where
  pub recoveries : ℕ
  pub trackers_eq : trackers ≡ times recoveries heal_all ts
  pub repaid : tally repaying trace ≡ recoveries * length ts
  pub balance : tally pausing trace ≡ tally resuming trace + held_count held
  pub size : length trackers ≡ length ts

pub length-heal_all : (ts : List Tracker) → length (heal_all ts) ≡ length ts
unfolding heal_all
length-heal_all [] = refl
length-heal_all (t ∷ ts) = ap suc (length-heal_all ts)

pub times_after {ℓ} : {A : Type ℓ} (n : ℕ) (f : A → A) (x : A) → f (times n f x) ≡ times (suc n) f x
times_after zero f x = refl
times_after (suc n) f x = times_after n f (f x)

module _ {World : Type 0} where
  pub snoc :
      (f : Action → ℕ) (a : Action) (s : State World)
      → tally f (emit a s).trace ≡ tally f s.trace + f a
  snoc f a s = omega (arith, tally-append f s.trace (a ∷ []))

  pub heal_each-tally :
      (f : Action → ℕ) (ts : List Tracker) (s : State World)
      → f (healed heal_points) ≡ 0
      → tally f (heal_each ts s).trace ≡ tally f s.trace
  unfolding heal_each
  heal_each-tally f [] s h = refl
  heal_each-tally f (t ∷ ts) s h =
      heal_each-tally f ts (emit (healed heal_points) s) h
      ∙ omega (arith, snoc f (healed heal_points) s)

  pub heal_each-repaying :
      (ts : List Tracker) (s : State World)
      → tally repaying (heal_each ts s).trace ≡ tally repaying s.trace + length ts
  unfolding heal_each
  heal_each-repaying [] s = omega arith
  heal_each-repaying (t ∷ ts) s =
      heal_each-repaying ts (emit (healed heal_points) s)
      ∙ omega (arith, snoc repaying (healed heal_points) s)

  pub resume_all-tally :
      (f : Action → ℕ) (s : State World)
      → tally f (resume_all s).trace ≡ tally f s.trace + f gate_resumed + f (paused_set false)
  unfolding resume_all
  resume_all-tally f s =
      omega (arith, snoc f gate_resumed s, snoc f (paused_set false) (emit gate_resumed s))

  pub pause_all-tally :
      (f : Action → ℕ) (s : State World)
      → tally f (pause_all s).trace ≡ tally f s.trace + f gate_paused + f (paused_set true)
  unfolding pause_all
  pause_all-tally f s =
      omega (arith, snoc f gate_paused s, snoc f (paused_set true) (emit gate_paused s))
