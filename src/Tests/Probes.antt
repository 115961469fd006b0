-- ===== src/Tests/Probes.antt =====
-- The probes at concrete answers.
use mailcow_watchdog.Prelude.{◌≡◌, true, String, List, [], ◌∷◌, Result, ok, err}
use mailcow_watchdog.Probe.Redis.{new_fail2ban, fail2ban_round, has}
use mailcow_watchdog.Probe.Redis.Bans.{fail2ban_after, fail2ban-reports}

abbrev ban_reads : List (Result String (List String))
ban_reads = ok ("192.0.2.1" ∷ []) ∷ err "timeout" ∷ []

fail2ban-reports_example :
    has
      (fail2ban_round "active-bans"
        (fail2ban_after "active-bans" new_fail2ban ban_reads)
        (ok ("192.0.2.1" ∷ "192.0.2.7" ∷ []))).1.fresh
      "192.0.2.7"
    ≡ true
fail2ban-reports_example =
    (fail2ban-reports "active-bans" ban_reads ("192.0.2.1" ∷ "192.0.2.7" ∷ []) "192.0.2.7").0

-- A peer that greets in pieces and then hangs up.
