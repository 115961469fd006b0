-- ===== src/Health.antt =====
-- internal/health/health.go: the error accounting of one check. The mutex makes every method one
-- atomic step, so a method is a function from the tracker to the tracker and its result. Error
-- points are natural numbers, as the source never lets the count fall below zero; `int` does not
-- wrap here.
pub mod Budget
pub mod Percent
pub mod Rounds
use mailcow_watchdog.Prelude.{ℕ, ◌+◌, ◌-◌, ◌*◌, ◌/◌, ◌%◌, Bool, String, ltb, leb, if◌then◌else◌}
use mailcow_watchdog.Prelude.Int.{ℤ, pos, negsuc, sub_ℕ, pos_part, ltb_ℤ}

-- A Nagios plugin exit code. The Go type is an `int`; the program makes only these four values.
pub data Status : Type 0 where
  ok warning critical unknown : Status

-- `int(status)`.
abbrev pub exit_code : Status → ℕ
exit_code ok = 0
exit_code warning = 1
exit_code critical = 2
exit_code unknown = 3

-- `Status.String`.
abbrev pub label : Status → String
label ok = "OK"
label warning = "WARNING"
label critical = "CRITICAL"
label unknown = "UNKNOWN"

pub record Snapshot : Type 0 where
  pub service : String
  pub threshold : ℕ
  pub remaining : ℕ
  pub trend : ℤ
  pub percent : ℕ

-- `s.Remaining <= 0`.
abbrev pub dead : Snapshot → Bool
dead s = leb s.remaining 0

pub record Tracker : Type 0 where
  pub service : String
  pub threshold : ℕ
  pub err_count : ℕ

unfoldable pub new : String → ℤ → Tracker
new service threshold = record {
  service = service;
  threshold = if ltb_ℤ threshold (pos 1) then 1 else pos_part threshold;
  err_count = 0;
}

-- `Percent`. Both guards stand before the division, so the operands are not negative there.
unfoldable pub percent : ℤ → ℤ → ℕ
percent current total =
    if leb (pos_part total) 0
    then 0
    else let c = pos_part current in let t = pos_part total in (200 * c / t) % 2 + 100 * c / t

-- `t.snapshot(trend)`: the remaining budget is clamped at zero.
unfoldable pub snapshot : Tracker → ℤ → Snapshot
unfolding percent
snapshot t trend =
    let remaining = if ltb t.threshold t.err_count then 0 else t.threshold - t.err_count in
    record {
      service = t.service;
      threshold = t.threshold;
      remaining = remaining;
      trend = trend;
      percent = percent (pos remaining) (pos t.threshold);
    }

-- The `switch` of `Record`, behind its guard against a negative weight.
unfoldable pub count_round : ℕ → ℕ → ℕ
count_round err_count weight =
    if ltb 0 weight
    then err_count + weight
    else if ltb 0 err_count
    then err_count - 1
    else err_count

-- `Record`.
unfoldable pub record_round : Tracker → ℤ → Tracker × Snapshot
unfolding count_round
record_round t weight =
    let w = if ltb_ℤ weight (pos 0) then 0 else pos_part weight in
    let after = record t { err_count = count_round t.err_count w } in
    (after, snapshot after (sub_ℕ t.err_count after.err_count))

-- The guarded subtraction of `Heal`; a single outstanding point is left in place.
unfoldable pub repay : ℕ → ℕ → ℕ
repay err_count points =
    if ltb 1 err_count then if ltb err_count points then 0 else err_count - points else err_count

-- `Heal`. Its one caller passes the constant 2.
unfoldable pub heal : Tracker → ℕ → Tracker × Snapshot
unfolding repay
heal t points =
    let after = record t { err_count = repay t.err_count points } in
    (after, snapshot after (sub_ℕ t.err_count after.err_count))

unfoldable pub reset : Tracker → Tracker
reset t = record t { err_count = 0 }

-- `Snapshot()`.
unfoldable pub current : Tracker → Snapshot
current t = snapshot t (pos 0)
