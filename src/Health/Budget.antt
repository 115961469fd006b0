-- ===== src/Health/Budget.antt =====
-- What one call of `Record`, `Heal` and `Reset` does to the error budget.
use mailcow_watchdog.Prelude.{
  ℕ, ◌+◌, ◌-◌, ◌≤◌, ◌<◌, ◌≡◌, ◌↔◌, ltb, if◌then◌else◌, true, String, refl, arith,
}
use mailcow_watchdog.Prelude.Int.{ℤ, pos, pos_part, neg_part, ltb_ℤ}
use mailcow_watchdog.Health.{Tracker, Snapshot, dead, new, percent, snapshot, record_round, heal}
use mailcow_watchdog.Health.Percent.{percent_rounds}

-- A tracker that `New` made, after any calls: its budget is at least one point.
pub record IsTracker (t : Tracker) : Type 0 where
  pub budget : 1 ≤ t.threshold

pub new-IsTracker : (service : String) (threshold : ℤ) → IsTracker (new service threshold)
unfolding new
new-IsTracker service threshold = ground arith

percent_le_100 : (c t : ℕ) → 0 < t → c ≤ t → percent (pos c) (pos t) ≤ 100
percent_le_100 c t h k = grind (arith, percent_rounds c t h)

-- A snapshot of a tracker is in range: the remaining points lie between 0 and the threshold, the
-- percentage between 0 and 100, and they are what the counted errors leave of the budget.
pub record IsFaithful (t : Tracker) (s : Snapshot) : Type 0 where
  pub remaining_le : s.remaining ≤ s.threshold
  pub percent_le : s.percent ≤ 100
  pub threshold_eq : s.threshold ≡ t.threshold
  pub service_eq : s.service ≡ t.service
  pub dead_iff : (dead s ≡ true) ↔ (t.threshold ≤ t.err_count)
  pub accounted : s.remaining ≡ t.threshold - t.err_count

pub snapshot-IsFaithful : (t : Tracker) (trend : ℤ) → IsTracker t → IsFaithful t (snapshot t trend)
unfolding snapshot
snapshot-IsFaithful t trend h =
    ground
      (arith, percent_le_100 (t.threshold - t.err_count) t.threshold, percent_le_100 0 t.threshold)

-- The error count before and after a call, as the snapshot's trend reports the difference.
abbrev pub IsBalanced : ℕ → ℕ → ℤ → Type 0
IsBalanced before after trend = after + pos_part trend ≡ before + neg_part trend

-- A round of weight w: a failing round adds its weight, any other round repays one point if one is
-- outstanding; the budget and the name stay, the snapshot describes the new state and its trend is the
-- difference. A negative weight counts as a clean round.
pub record_round_lem :
    (t : Tracker) (weight : ℤ)
    → IsTracker t
    → let (after, s) = record_round t weight in
      (after.err_count
        ≡ (if ltb_ℤ (pos 0) weight then t.err_count + pos_part weight else t.err_count - 1))
      × IsTracker after
      × IsFaithful after s
      × IsBalanced t.err_count after.err_count s.trend
      × ((after.threshold ≡ t.threshold) × (after.service ≡ t.service))
unfolding record_round snapshot
record_round_lem t weight h =
    (ground arith, ground arith, snapshot-IsFaithful _ _ (ground arith), ground arith, (refl, refl))

-- Repaying points: one outstanding point stays, otherwise the points are taken off down to zero;
-- the budget and the name stay, the snapshot describes the new state, and the trend is never negative.
pub heal_lem :
    (t : Tracker) (points : ℕ)
    → IsTracker t
    → let (after, s) = heal t points in
      (after.err_count ≡ (if ltb 1 t.err_count then t.err_count - points else t.err_count))
      × IsTracker after
      × IsFaithful after s
      × IsBalanced t.err_count after.err_count s.trend
      × (neg_part s.trend ≡ 0)
      × ((after.threshold ≡ t.threshold) × (after.service ≡ t.service))
unfolding heal snapshot
heal_lem t points h = (
  ground arith,
  ground arith,
  snapshot-IsFaithful _ _ (ground arith),
  ground arith,
  ground arith,
  (refl, refl),
)
