-- ===== src/Supervisor/Watcher/Overlap.antt =====
-- internal/supervisor/supervisor.go: `restart` and `watchDockerAPI` run at the same time and share
-- one gate. A machine is the gate with what each of the two is doing, and a step is one call of
-- the gate by either of them, or the watcher's return when its sleep is cut short.
use mailcow_watchdog.Prelude.{◌≡◌, refl, Bool, true, false, ◌||◌, some, arith}
use mailcow_watchdog.Supervisor.Gate.{Gate, new_gate, pause, resume, paused}

pub record Machine : Type 0 where
  pub gate : Gate
  pub restarting : Bool
  pub held : Bool
  pub watching : Bool

abbrev pub idle : Machine
idle = record { gate = new_gate; restarting = false; held = false; watching = true }

-- The supervisor handles one event at a time, so restarts do not overlap with each other.
pub data Step : Machine → Machine → Type 0 where
  restart_begins :
      {m : Machine}
      → m.restarting ≡ false
      → Step m (record m { gate = pause m.gate; restarting = true })
  restart_ends :
      {m : Machine} {g : Gate}
      → m.restarting ≡ true
      → resume m.gate ≡ some g
      → Step m (record m { gate = g; restarting = false })
  api_lost :
      {m : Machine}
      → m.watching ≡ true
      → m.held ≡ false
      → Step m (record m { gate = pause m.gate; held = true })
  api_back :
      {m : Machine} {g : Gate}
      → m.watching ≡ true
      → m.held ≡ true
      → resume m.gate ≡ some g
      → Step m (record m { gate = g; held = false })
  watcher_ends :
      {m : Machine} {g : Gate}
      → m.watching ≡ true
      → m.held ≡ true
      → resume m.gate ≡ some g
      → Step m (record m { gate = g; held = false; watching = false })
  watcher_ends_free :
      {m : Machine} → m.watching ≡ true → m.held ≡ false → Step m (record m { watching = false })

pub data Reachable : Machine → Type 0 where
  start : Reachable idle
  next : {m n : Machine} → Reachable m → Step m n → Reachable n

pause-paused : (g : Gate) → paused (pause g) ≡ true
unfolding paused pause
pause-paused g = ground arith

resume-paused : (g g' : Gate) → resume g ≡ some g' → paused g' ≡ false
unfolding paused resume
resume-paused g g' e = ground (arith, e)

new_gate-paused : paused new_gate ≡ false
unfolding paused new_gate
new_gate-paused = refl

-- The gate is open when nobody has a reason to keep it shut.
abbrev pub Opens : Machine → Type 0
Opens m = (m.restarting || m.held) ≡ false → paused m.gate ≡ false

Step-Opens : {m n : Machine} → Opens m → Step m n → Opens n
Step-Opens o (restart_begins r) h = absurd (ground (arith, h))
Step-Opens o (restart_ends {m} {g} r e) h = resume-paused m.gate g e
Step-Opens o (api_lost w a) h = absurd (ground (arith, h))
Step-Opens o (api_back {m} {g} w a e) h = resume-paused m.gate g e
Step-Opens o (watcher_ends {m} {g} w a e) h = resume-paused m.gate g e
Step-Opens o (watcher_ends_free w a) h = o h

-- No interleaving of restarts and outages leaks the pause: whenever no restart is under way and the
-- watcher does not hold the checks, the gate is open.
pub reachable-Opens :
    {m : Machine} → Reachable m → (m.restarting || m.held) ≡ false → paused m.gate ≡ false
reachable-Opens start h = new_gate-paused
reachable-Opens (next r s) h = Step-Opens (reachable-Opens r) s h

-- The pauses are not counted: when a restart is under way while the watcher holds the checks,
-- whichever of the two ends first opens the gate while the other still wants it shut.
pub overlap-opens :
    {m n : Machine}
    → Reachable m
    → m.restarting ≡ true
    → m.held ≡ true
    → Step m n
    → (paused n.gate ≡ false) × ((n.restarting || n.held) ≡ true)
overlap-opens r p q (restart_begins e) = absurd (ground (arith, e))
overlap-opens r p q (restart_ends {m} {g} e e') = (resume-paused m.gate g e', ground arith)
overlap-opens r p q (api_lost w e) = absurd (ground (arith, e))
overlap-opens r p q (api_back {m} {g} w e e') = (resume-paused m.gate g e', ground arith)
overlap-opens r p q (watcher_ends {m} {g} w e e') = (resume-paused m.gate g e', ground arith)
overlap-opens r p q (watcher_ends_free w e) = absurd (ground (arith, e))
