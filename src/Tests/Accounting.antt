-- ===== src/Tests/Accounting.antt =====
-- Error accounting, transcripts and sleep windows at concrete values.
use mailcow_watchdog.Prelude.{◌≡◌, String, List, [], ◌∷◌, arith}
use mailcow_watchdog.Prelude.Int.{pos}
use mailcow_watchdog.Health.{Tracker, record_round}
use mailcow_watchdog.Health.Budget.{IsTracker, record_round_lem}
use mailcow_watchdog.Check.Transcript.{record_all, record_all-last}

-- A budget of five points of which two are used.
abbrev pub nginx : Tracker
nginx = record { service = "Nginx"; threshold = 5; err_count = 2 }

pub nginx-IsTracker : IsTracker nginx
nginx-IsTracker = record { budget = omega arith }

record_round_lem_example : (record_round nginx (pos 3)).0.err_count ≡ 5
record_round_lem_example = (record_round_lem nginx (pos 3) nginx-IsTracker).0

abbrev output : List (List String)
output = ("OK: one" ∷ "" ∷ []) ∷ [] ∷ ("CRITICAL: two" ∷ []) ∷ []

record_all-last_example : record_all [] output ≡ "OK: one" ∷ "CRITICAL: two" ∷ []
record_all-last_example = record_all-last output
