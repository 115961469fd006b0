-- ===== src/Supervisor/Handler/Branches.antt =====
-- The branches of `handle`, told apart by what they do to the containers and the checks.
use mailcow_watchdog.Prelude.{
  ℕ, ◌≡◌, inl, inr, refl, Bool, true, false, not, String, List, [], ◌∷◌, Bool-cases, Option-cases,
  All, str_eq, eq_iff, subst, if◌then◌else◌,
}
use mailcow_watchdog.Check.{Check, restarts_container}
use mailcow_watchdog.Supervisor.Actions.{
  Env, State, Action, emit, alert_details, replication_throttle, cert_throttle, event_observed,
  looked_up,
}
use mailcow_watchdog.Supervisor.Actions.Adds.{
  Adds, Adds-refl, Adds-trans, Adds-emit, Adds-world, Allows, alert-Adds, alert_details-Adds,
}
use mailcow_watchdog.Supervisor.Handler.{
  restart, look_up, handle_ban, handle_each, handle_bans, handle_other, handle,
}
use mailcow_watchdog.Supervisor.Handler.Restarts.{IsQuiet, IsHarmless}

-- An action that neither restarts a container nor pauses or resumes the checks.
abbrev pub IsRemote : Action → Type 0
IsRemote a = IsQuiet a × IsHarmless a

remote : Allows IsRemote
remote = record {
  sleeps = λ d. (tt, tt);
  dispatches = λ a. (tt, tt);
  logs = λ m. (tt, tt);
  observes = λ o. (tt, tt);
}

-- A test against a name that is no container to restart fails for an event that is one.
other_name :
    (event name : String)
    → restarts_container event ≡ true
    → restarts_container name ≡ false
    → str_eq event name ≡ false
other_name event name h k = elim (Bool-cases (str_eq event name)) [
  | inl e ↦
      let same : event ≡ name = (eq_iff event name).0 e in
      let h' : restarts_container name ≡ true = subst (λ x. restarts_container x ≡ true) same h in
      let clash : restarts_container name ≡ true = h' in cc
  | inr e ↦ e
]

-- The names that the handler tests before it asks whether the event names a container.
abbrev tested : List String
tested =
    "ratelimit" ∷ "mail_queue_status" ∷ "external_checks" ∷ "mysql_repl_checks"
    ∷ "dovecot_repl_checks" ∷ "certcheck" ∷ "acme-mailcow" ∷ "fail2ban" ∷ []

tested_spared : All (λ name. restarts_container name ≡ false) tested
unfolding restarts_container
tested_spared = (refl, (refl, (refl, (refl, (refl, (refl, (refl, (refl, tt))))))))

others :
    (event : String) (names : List String)
    → restarts_container event ≡ true
    → All (λ name. restarts_container name ≡ false) names
    → All (λ name. str_eq event name ≡ false) names
others event [] h a = tt
others event (name ∷ names) h a = (other_name event name h a.0, others event names h a.1)

Adds-if :
    {World : Type 0} (b : Bool) {s x y : State World}
    → Adds IsRemote s x
    → Adds IsRemote s y
    → Adds IsRemote s (if b then x else y)
Adds-if true p q = p
Adds-if false p q = q

module _ {World : Type 0} (env : Env World) where
  look_up-Adds : (host : String) (s : State World) → Adds IsRemote s (look_up env host s).1
  unfolding look_up
  look_up-Adds host s = elim (Option-cases env.whois) [
    | inl e ↦ rw (e, look_up) (Adds-refl s)
    | inr (whois, e) ↦
        let w = (whois host s.world).1 in
        rw (e, look_up)
          (Adds-trans (Adds-world s w)
            (Adds-emit (looked_up host) (record s { world = w }) (tt, tt)))
  ]

  handle_ban-Adds :
      (c : Check World) (host : String) (s : State World)
      → Adds IsRemote s (handle_ban env c host s)
  unfolding handle_ban
  handle_ban-Adds c host s =
      Adds-if (not env.notify_bans) (look_up-Adds host s)
        (Adds-trans (look_up-Adds host s) (alert-Adds env remote _ (look_up env host s).1))

  handle_each-Adds :
      (c : Check World) (hosts : List String) (s : State World)
      → Adds IsRemote s (handle_each env c hosts s)
  unfolding handle_each
  handle_each-Adds c [] s = Adds-refl s
  handle_each-Adds c (host ∷ hosts) s =
      Adds-trans (handle_ban-Adds c host s) (handle_each-Adds c hosts (handle_ban env c host s))

  handle_bans-Adds : (c : Check World) (s : State World) → Adds IsRemote s (handle_bans env c s)
  unfolding handle_bans
  handle_bans-Adds c s =
      let s' = emit (event_observed c.event "notify") s in
      Adds-trans (Adds-emit (event_observed c.event "notify") s (tt, tt)) (handle_each-Adds c _ s')

  -- An event that names a container to restart is handled by restarting it, although the handler
  -- tests eight other names first.
  pub handle-restarts :
      (c : Check World) (s : State World)
      → restarts_container c.event ≡ true
      → handle env c s ≡ restart env c s
  unfolding handle handle_other
  handle-restarts c s h =
      let o = others c.event tested h tested_spared in
      rw (
        o.0, o.1.0, o.1.1.0, o.1.1.1.0, o.1.1.1.1.0, o.1.1.1.1.1.0, o.1.1.1.1.1.1.0,
        o.1.1.1.1.1.1.1.0, h,
      )

  handle_other-Adds :
      (c : Check World) (s : State World)
      → restarts_container c.event ≡ false
      → Adds IsRemote s (handle_other env c s)
  unfolding handle_other
  handle_other-Adds c s h = rw h (Adds-emit (event_observed c.event "unhandled") s (tt, tt))

  -- One of the branches that only alert.
  told_if :
      (c : Check World) (s : State World) (name message : String) (throttle : ℕ) {y : State World}
      → Adds IsRemote s y
      → Adds IsRemote s (if str_eq c.event name then alert_details env c message throttle s else y)
  told_if c s name message throttle p =
      Adds-if (str_eq c.event name) (alert_details-Adds env remote c message throttle s) p

  -- An event that names no container to restart, known or not, neither restarts a container nor
  -- pauses or resumes the checks.
  pub handle-spares :
      (c : Check World) (s : State World)
      → restarts_container c.event ≡ false
      → Adds IsRemote s (handle env c s)
  unfolding handle
  handle-spares c s h = told_if c s "ratelimit" "" 0 (
      told_if c s "mail_queue_status" "" 0 (
        told_if c s "external_checks"
          "Please stop mailcow now and check your network configuration!" 0
          (told_if c s "mysql_repl_checks" "Please check the SQL replication status"
            replication_throttle
            (told_if c s "dovecot_repl_checks" "Please check the Dovecot replicator status"
              replication_throttle
              (told_if c s "certcheck" "Please renew your certificate" cert_throttle (
                told_if c s "acme-mailcow" "Please check acme-mailcow for further information." 0 (
                  Adds-if (str_eq c.event "fail2ban") (handle_bans-Adds c s)
                    (handle_other-Adds c s h))))))))
