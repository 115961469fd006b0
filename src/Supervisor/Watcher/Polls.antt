-- ===== src/Supervisor/Watcher/Polls.antt =====
-- What the watcher leaves behind: how often it paused, resumed and healed.
use mailcow_watchdog.Prelude.{Bool, true, false, ◌&&◌, List}
use mailcow_watchdog.Health.{Tracker}
use mailcow_watchdog.Supervisor.Watcher.{Watch, Poll, returned, watching}
use mailcow_watchdog.Supervisor.Watcher.Tally.{IsWatching}

abbrev pub IsWatched : {World : Type 0} → List Tracker → Watch World → Type 0
IsWatched ts w = IsWatching w.held ts w.trackers w.state.trace

-- Where the watcher stands when it started with the trackers ts, and whether it still runs.
abbrev pub Settles : {World : Type 0} → List Tracker → Watch World × Bool → Type 0
Settles ts (w, running) = IsWatching (w.held && running) ts w.trackers w.state.trace

abbrev verdict : {World : Type 0} → Poll World → Watch World × Bool
verdict (returned w) = (w, false)
verdict (watching w) = (w, true)
