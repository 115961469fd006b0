-- ===== src/Probe.antt =====
-- internal/probe/probe.go: the verdict of one measurement, what it costs, and how a probe is run.
-- A probe acts on the world outside (sockets, databases, Redis), which is a type parameter here; a
-- run returns a result or panics. The latency of a run is not modelled.
pub mod Cost
pub mod Redis
pub mod Mysql
pub mod Mailq
pub mod Tcp
pub mod Talk
pub mod Peer
pub mod Http
pub mod Dns
pub mod Ipv6
pub mod Smtp
pub mod Imap
pub mod Cert
use mailcow_watchdog.Prelude.{ℕ, Bool, true, false, String, List, [], ◌∷◌, if◌then◌else◌}
use mailcow_watchdog.Prelude.Format.{Arg, str, sprintf}
use mailcow_watchdog.Health.{Status, exit_code}

-- `Result`, without the duration. `points` is what the result costs: `Weight()`.
pub record Result : Type 0 where
  pub probe : String
  pub status : Status
  pub message : String
  pub points : ℕ

-- `result`: a fresh verdict costs its exit code, and bears no probe's name yet.
unfoldable pub result : Status → String → List Arg → Result
result status format args = record {
  probe = "";
  status = status;
  message = sprintf format args;
  points = exit_code status;
}

abbrev pub ok : String → List Arg → Result
ok = result Status.ok

abbrev pub warning : String → List Arg → Result
warning = result Status.warning

abbrev pub critical : String → List Arg → Result
critical = result Status.critical

abbrev pub unknown : String → List Arg → Result
unknown = result Status.unknown

abbrev pub is_ok : Status → Bool
is_ok Status.ok = true
is_ok _ = false

pub data Outcome : Type 0 where
  returned : Result → Outcome
  panicked : String → Outcome

pub record Probe (World : Type 0) : Type 0 where
  pub name : String
  pub run : World → Outcome × World

-- `costProbe.Run`: a result that is not OK costs the given points; a panic passes through.
abbrev pub charge : ℕ → Outcome → Outcome
charge points (returned r) = returned (if is_ok r.status then r else record r { points = points })
charge points (panicked why) = panicked why

-- `Cost`.
abbrev pub cost : {World : Type 0} → ℕ → Probe World → Probe World
cost points p = record { name = p.name; run = λ w. let (o, w') = p.run w in (charge points o, w') }

-- The deferred function of `Run`: a panic becomes the UNKNOWN verdict, and the name is stamped.
abbrev pub settle : String → Outcome → Result
settle name (returned r) = record r { probe = name }
settle name (panicked why) = record (unknown "probe panicked: %v" (str why ∷ [])) { probe = name }

-- `Run`.
unfoldable pub run_probe : {World : Type 0} → Probe World → World → Result × World
run_probe p w = let (o, w') = p.run w in (settle p.name o, w')
