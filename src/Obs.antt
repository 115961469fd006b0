-- ===== src/Obs.antt =====
-- internal/obs/obs.go and internal/logging/logging.go: the observability endpoint and the choice of the
-- log level. The listener, the HTTP server and the handler of /metrics are the library's; how the
-- server came to its end is a parameter.
use mailcow_watchdog.Prelude.{
  ℕ, Bool, true, false, String, [], ◌∷◌, Option, none, some, str_eq, if◌then◌else◌,
}
use mailcow_watchdog.Prelude.Format.{str, sprintf}

pub data Route : Type 0 where
  healthz readyz : Route

-- The two handlers of `New`, on `Readiness.Ready`: the status and the body,
-- which `writePlain` ends with a line feed.
unfoldable pub respond : Bool → Route → ℕ × String
respond ready healthz = (200, "ok\n")
respond true readyz = (200, "ready\n")
respond false readyz = (503, "starting up\n")

-- `New`: no server without an address.
unfoldable pub new_server : String → Option String
new_server listen = if str_eq listen "" then none else some listen

-- `Addr`.
abbrev pub addr : Option String → String
addr none = ""
addr (some listen) = listen

-- How a server ends: it could not bind its address, it failed while serving, it was closed, or the
-- context ended and it was shut down, cleanly or not.
pub data End : Type 0 where
  unbound failed : String → End
  was_closed shut_down : End

-- `Server.Run`.
unfoldable pub run_server : Option String → End → Option String
run_server none end = none
run_server (some listen) (unbound e) =
    some (sprintf "serving metrics on %s: %w" (str listen ∷ str e ∷ []))
run_server (some listen) (failed e) =
    some (sprintf "serving metrics on %s: %w" (str listen ∷ str e ∷ []))
run_server (some listen) was_closed = none
run_server (some listen) shut_down = none

pub data Level : Type 0 where
  debug info warn error : Level

-- `Level`: an unknown name is info.
unfoldable pub level : String → Level
level name =
    if str_eq name "debug"
    then debug
    else if str_eq name "warn"
    then warn
    else if str_eq name "error"
    then error
    else info
