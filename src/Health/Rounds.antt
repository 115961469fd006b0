-- ===== src/Health/Rounds.antt =====
-- Sequences of calls on one tracker, in any order: the runner records rounds and resets, and the
-- supervisor repays points in between.
use mailcow_watchdog.Prelude.{
  ℕ, ◌+◌, ◌-◌, ◌≤◌, ◌<◌, ◌≡◌, refl, List, [], ◌∷◌, true, false, All, length, String, arith,
}
use mailcow_watchdog.Prelude.Int.{ℤ, pos, pos_part, neg_part, ltb_ℤ}
use mailcow_watchdog.Health.{Tracker, dead, new, record_round, heal, reset, current, snapshot}
use mailcow_watchdog.Health.Budget.{
  IsTracker, new-IsTracker, IsFaithful, snapshot-IsFaithful, record_round_lem, heal_lem,
}

pub data Call : Type 0 where
  records : ℤ → Call
  heals : ℕ → Call
  resets : Call

unfoldable pub call : Tracker → Call → Tracker
call t (records weight) = (record_round t weight).0
call t (heals points) = (heal t points).0
call t resets = reset t

unfoldable pub calls : Tracker → List Call → Tracker
calls t [] = t
calls t (c ∷ cs) = calls (call t c) cs

call-IsTracker : (t : Tracker) (c : Call) → IsTracker t → IsTracker (call t c)
unfolding call reset
call-IsTracker t (records weight) h = (record_round_lem t weight h).1
call-IsTracker t (heals points) h = (heal_lem t points h).1
call-IsTracker t resets h = ground arith

pub calls-IsTracker : (t : Tracker) (cs : List Call) → IsTracker t → IsTracker (calls t cs)
unfolding calls
calls-IsTracker t [] h = h
calls-IsTracker t (c ∷ cs) h = calls-IsTracker (call t c) cs (call-IsTracker t c h)

-- Whatever was called since `New`, in whatever order, the reported health lies within the budget,
-- the percentage within 0 to 100, and the service counts as dead exactly when the counted errors
-- have reached the threshold.
calls-IsFaithful :
    (service : String) (threshold : ℤ) (cs : List Call)
    → let t = calls (new service threshold) cs in IsFaithful t (current t)
unfolding current
calls-IsFaithful service threshold cs =
    snapshot-IsFaithful _ (pos 0) (calls-IsTracker _ cs (new-IsTracker service threshold))

-- The trends that a row of rounds reports, split into what they gave back and what they cost.
unfoldable pub gained : Tracker → List ℤ → ℕ
gained t [] = 0
gained t (w ∷ ws) = let (after, s) = record_round t w in pos_part s.trend + gained after ws

unfoldable pub lost : Tracker → List ℤ → ℕ
lost t [] = 0
lost t (w ∷ ws) = let (after, s) = record_round t w in neg_part s.trend + lost after ws

unfoldable pub rounds : Tracker → List ℤ → Tracker
rounds t [] = t
rounds t (w ∷ ws) = rounds (record_round t w).0 ws

-- The published trends add up: over any row of rounds, the errors at the end plus all that the
-- trends gave back are the errors at the start plus all that the trends took.
pub rounds-balanced :
    (t : Tracker) (ws : List ℤ)
    → IsTracker t
    → (rounds t ws).err_count + gained t ws ≡ t.err_count + lost t ws
unfolding rounds gained lost
rounds-balanced t [] h = refl
rounds-balanced t (w ∷ ws) h =
    let step = record_round_lem t w h in
    omega (arith, step.3, rounds-balanced (record_round t w).0 ws step.1)

-- A clean round is one whose weight is not positive.
abbrev pub IsClean : ℤ → Type 0
IsClean w = ltb_ℤ (pos 0) w ≡ false

abbrev pub IsFailing : ℤ → Type 0
IsFailing w = ltb_ℤ (pos 0) w ≡ true

-- k clean rounds pay back k points, down to zero.
pub clean_rounds :
    (t : Tracker) (ws : List ℤ)
    → IsTracker t
    → All IsClean ws
    → (rounds t ws).err_count ≡ t.err_count - length ws
unfolding rounds
clean_rounds t [] h c = omega arith
clean_rounds t (w ∷ ws) h c =
    let step = record_round_lem t w h in
    let ih = clean_rounds (record_round t w).0 ws step.1 c.1 in ground (arith, step.0, ih, c.0)

abbrev pub total : List ℤ → ℕ
total [] = 0
total (w ∷ ws) = pos_part w + total ws

-- Failing rounds add up their weights exactly.
pub failing_rounds :
    (t : Tracker) (ws : List ℤ)
    → IsTracker t
    → All IsFailing ws
    → (rounds t ws).err_count ≡ t.err_count + total ws
unfolding rounds
failing_rounds t [] h c = omega arith
failing_rounds t (w ∷ ws) h c =
    let step = record_round_lem t w h in
    let ih = failing_rounds (record_round t w).0 ws step.1 c.1 in ground (arith, step.0, ih, c.0)

rounds-threshold : (t : Tracker) (ws : List ℤ) → (rounds t ws).threshold ≡ t.threshold
unfolding rounds record_round
rounds-threshold t [] = refl
rounds-threshold t (w ∷ ws) = rounds-threshold (record_round t w).0 ws

rounds-IsTracker : (t : Tracker) (ws : List ℤ) → IsTracker t → IsTracker (rounds t ws)
rounds-IsTracker t ws h = omega (arith, rounds-threshold t ws)

length-le-total : (ws : List ℤ) → All IsFailing ws → length ws ≤ total ws
length-le-total [] h = omega arith
length-le-total (w ∷ ws) h = ground (arith, length-le-total ws h.1, h.0)

-- A service whose every round fails is reported dead after at most as many rounds as its budget
-- has points, whatever the single weights are.
failing_rounds-dead :
    (t : Tracker) (ws : List ℤ)
    → IsTracker t
    → All IsFailing ws
    → t.threshold ≤ length ws
    → dead (current (rounds t ws)) ≡ true
unfolding current
failing_rounds-dead t ws h c enough =
    let k = snapshot-IsFaithful (rounds t ws) (pos 0) (rounds-IsTracker t ws h) in
    k.dead_iff.1
      (omega (arith, failing_rounds t ws h c, length-le-total ws c, rounds-threshold t ws))

rounds-le :
    (t : Tracker) (ws : List ℤ) → IsTracker t → (rounds t ws).err_count ≤ t.err_count + total ws
unfolding rounds
rounds-le t [] h = omega arith
rounds-le t (w ∷ ws) h =
    let step = record_round_lem t w h in
    let ih = rounds-le (record_round t w).0 ws step.1 in ground (arith, step.0, ih)

-- No false alarm: as long as the weights of all rounds since the start stay below the budget, the
-- service is not reported dead.
rounds-alive :
    (service : String) (threshold : ℤ) (ws : List ℤ)
    → total ws < (new service threshold).threshold
    → dead (current (rounds (new service threshold) ws)) ≡ false
unfolding current snapshot new
rounds-alive service threshold ws h =
    let t = new service threshold in
    ground (arith, rounds-le t ws (new-IsTracker service threshold), rounds-threshold t ws)
