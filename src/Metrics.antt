-- ===== src/Metrics.antt =====
-- internal/metrics/metrics.go: what the watchdog publishes of itself. The registry of the Prometheus
-- library is the value of each gauge and counter by its name and labels, and the observations of the
-- histogram; a gauge's number is the integer that it is set to, and the help texts are left out.
pub mod History
use mailcow_watchdog.Prelude.{
  ℕ, suc, ◌+◌, Bool, true, false, ◌&&◌, String, List, [], ◌∷◌, ◌==◌, str_eq, if◌then◌else◌,
}
use mailcow_watchdog.Prelude.Int.{pos}
use mailcow_watchdog.Health.{Status, Snapshot, label, percent}

abbrev pub namespace : String
namespace = "mailcow_watchdog"

-- The families that hold a value, in the order in which `New` registers them.
pub data Family : Type 0 where
  health_percent health_points threshold probe_total exhausted restarts events : Family
  notifications paused build_info : Family

-- `Name` of each family.
abbrev pub family_name : Family → String
family_name health_percent = "check_health_percent"
family_name health_points = "check_health_points"
family_name threshold = "check_threshold_points"
family_name probe_total = "probe_total"
family_name exhausted = "check_exhausted_total"
family_name restarts = "container_restarts_total"
family_name events = "events_total"
family_name notifications = "notifications_total"
family_name paused = "paused"
family_name build_info = "build_info"

abbrev pub probe_duration_name : String
probe_duration_name = "probe_duration_seconds"

-- The names that are registered; `MustRegister` panics if two are equal.
abbrev pub registered : List String
registered =
    family_name health_percent
    ∷ family_name health_points
    ∷ family_name threshold
    ∷ family_name probe_total
    ∷ probe_duration_name
    ∷ family_name exhausted
    ∷ family_name restarts
    ∷ family_name events
    ∷ family_name notifications
    ∷ family_name paused
    ∷ family_name build_info
    ∷ []

-- A series: a family and the values of its labels, in their order.
abbrev pub Series : Type 0
Series = Family × List String

abbrev pub labels_eq : List String → List String → Bool
labels_eq [] [] = true
labels_eq (a ∷ ls) (b ∷ ms) = str_eq a b && labels_eq ls ms
labels_eq _ _ = false

abbrev pub series_eq : Series → Series → Bool
series_eq (f, ls) (g, ms) = str_eq (family_name f) (family_name g) && labels_eq ls ms

-- One observation of the histogram: the check, the probe and the seconds, in some form.
pub record Metrics (Seconds : Type 0) : Type 0 where
  pub value : Series → ℕ
  pub durations : List (String × String × Seconds)

pub record Build : Type 0 where
  pub version : String
  pub date : String

-- `boolToFloat`.
abbrev pub number_of : Bool → ℕ
number_of true = 1
number_of false = 0

module _ {Seconds : Type 0} where
  -- `Set` and `Inc` of one series.
  abbrev pub set : Series → ℕ → Metrics Seconds → Metrics Seconds
  set s n m = record m { value = λ t. if series_eq s t then n else m.value t }

  abbrev pub inc : Series → Metrics Seconds → Metrics Seconds
  inc s m = set s (m.value s + 1) m

  -- `New`.
  unfoldable pub new_metrics : Build → Metrics Seconds
  new_metrics build =
      set (build_info, build.version ∷ build.date ∷ []) 1
        (record { value = λ s. 0; durations = [] })

  -- `ObserveHealth`.
  unfoldable pub observe_health : String → Snapshot → Metrics Seconds → Metrics Seconds
  observe_health check s m =
      set (threshold, check ∷ []) s.threshold
        (set (health_points, check ∷ []) s.remaining (set (health_percent, check ∷ []) s.percent m))

  -- `ObserveProbe`.
  unfoldable pub observe_probe :
      String → String → Status → Seconds → Metrics Seconds → Metrics Seconds
  observe_probe check probe status seconds m =
      let counted = inc (probe_total, check ∷ probe ∷ label status ∷ []) m in
      record counted { durations = (check, probe, seconds) ∷ counted.durations }

  -- `ObserveExhausted`, `ObserveRestart`, `ObserveEvent` and `ObserveNotification`.
  unfoldable pub observe_exhausted : String → Metrics Seconds → Metrics Seconds
  observe_exhausted check = inc (exhausted, check ∷ [])

  unfoldable pub observe_restart : String → String → Metrics Seconds → Metrics Seconds
  observe_restart container outcome = inc (restarts, container ∷ outcome ∷ [])

  unfoldable pub observe_event : String → String → Metrics Seconds → Metrics Seconds
  observe_event event action = inc (events, event ∷ action ∷ [])

  unfoldable pub observe_notification : String → Metrics Seconds → Metrics Seconds
  observe_notification outcome = inc (notifications, outcome ∷ [])

  -- `SetPaused`.
  unfoldable pub set_paused : Bool → Metrics Seconds → Metrics Seconds
  set_paused b = set (paused, []) (number_of b)

  -- `InitCheck`.
  unfoldable pub init_check : String → ℕ → Metrics Seconds → Metrics Seconds
  init_check check budget m =
      set (health_percent, check ∷ []) (percent (pos budget) (pos budget))
        (set (health_points, check ∷ []) budget (set (threshold, check ∷ []) budget m))
